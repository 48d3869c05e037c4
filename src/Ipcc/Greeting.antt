-- ===== src/Ipcc/Greeting.antt =====
-- ipcc/ipcc.go: one call of `SendRecvAsync`, whose answer comes under a number that no call waits for.
use go_test_cluster.Prelude.{
  ℕ, ◌≤◌, ◌≡◌, refl, ap, ◌∙◌, true, List, [], ◌∷◌, ◌++◌, none, some, arith, length, drop,
  take-append_le, take-length, nat_eq,
}
use go_test_cluster.Prelude.Text.{Bytes}
use go_test_cluster.Prelude.Dict.{lookup}
use go_test_cluster.Consts.{buff_max}
use go_test_cluster.Message.{MessageHeader, Json}
use go_test_cluster.Ipcc.{
  Client, SendInfo, IpcClientMsg, overwrite, contents, Op, async, arrive, hand_on, read_next,
  call_next, write, step, run, route, set_sync_map, send_recv_async, serve_call, sender_write,
  receiver_read, receiver_send, serve_read,
}
use go_test_cluster.Ipcc.Exchange.{IsIdle, run-step, run-nil}

-- The steps of a call that does not wait, whose message is written and answered by `b`.
abbrev pub greeting : Bytes → Bytes → List Op
greeting a b = async a ∷ call_next ∷ write true ∷ arrive b ∷ hand_on ∷ read_next ∷ []

-- A message under a number that no call waits for goes to the event loop.
route-unknown :
    (j : Json) (n k : ℕ) (head : MessageHeader) (c : Client)
    → (j.unmarshal_common (contents n c)).0.header ≡ head
    → head.seq_no ≡ k
    → lookup k c.sync_map ≡ none
    → c.ipcrecv_ch ≡ []
    → route j n c
      ≡ some (record c {
        ipcrecv_ch = let m : IpcClientMsg = record { head = head; all = n } in m ∷ [];
      })
unfolding route
route-unknown j n k head c shows numbered unknown empty =
    ground (arith, shows, numbered, unknown, empty)

module _ (j : Json) (a b : Bytes) (c : Client) (idle : IsIdle c) (fits : length b ≤ buff_max) where
  abbrev info : SendInfo
  info = record { seqno = 0; msg = a; sch = none }

  abbrev queued : Client
  queued = record c { call_send_ch = info ∷ [] }

  abbrev taken : Client
  taken = record c { call_send_ch = []; snd_write_ch = a ∷ [] }

  abbrev sent : Client
  sent = record c { call_send_ch = []; snd_write_ch = []; written = c.written ++ a ∷ [] }

  abbrev read : Client
  read = record sent { buf = overwrite b c.buf; reading = some (length b) }

  abbrev sliced : Client
  sliced = record read { reading = none; rcv_read_ch = length b ∷ [] }

  abbrev header : MessageHeader
  header = (j.unmarshal_common b).0.header

  abbrev pub answer : IpcClientMsg
  answer = record { head = header; all = length b }

  -- The client when the answer is there.
  abbrev pub greeted : Client
  greeted = record sliced { rcv_read_ch = []; ipcrecv_ch = answer ∷ [] }

  shown : contents (length b) sliced ≡ b
  shown = take-append_le (length b) b (drop (length b) c.buf) (omega arith) ∙ take-length b

  async-step : step j (async a) c ≡ some queued
  unfolding step send_recv_async
  async-step = ground (arith, idle.no_call)

  call-step : step j call_next queued ≡ some taken
  unfolding step serve_call set_sync_map
  call-step = ground (arith, idle.no_write)

  write-step : step j (write true) taken ≡ some sent
  unfolding step sender_write
  write-step = refl

  arrive-step : step j (arrive b) sent ≡ some read
  unfolding step receiver_read
  arrive-step = ground (arith, idle.no_slice, idle.listening, fits)

  hand_on-step : step j hand_on read ≡ some sliced
  unfolding step receiver_send
  hand_on-step = ground (arith, idle.no_read)

  read_next-step : lookup header.seq_no c.sync_map ≡ none → step j read_next sliced ≡ some greeted
  unfolding step serve_read
  read_next-step unknown =
      route-unknown j (length b) header.seq_no header (record sliced { rcv_read_ch = [] })
        (ap (λ x. (j.unmarshal_common x).0.header) shown) refl unknown idle.no_message

  pub greeting-greeted : lookup header.seq_no c.sync_map ≡ none → run j (greeting a b) c ≡ greeted
  greeting-greeted unknown =
      run-step j (async a) _ c async-step
      ∙ run-step j call_next _ queued call-step
      ∙ run-step j (write true) _ taken write-step
      ∙ run-step j (arrive b) _ sent arrive-step
      ∙ run-step j hand_on _ read hand_on-step
      ∙ run-step j read_next [] sliced (read_next-step unknown)
      ∙ run-nil j greeted

  -- When the event loop has taken the answer, nothing is under way again.
  pub greeted-IsIdle : IsIdle (record greeted { ipcrecv_ch = [] })
  greeted-IsIdle = record {
    no_call = refl;
    no_write = refl;
    no_slice = refl;
    listening = idle.listening;
    no_read = refl;
    no_reply = idle.no_reply;
    no_message = refl;
  }
