-- ===== src/Ipcc/Exchange.antt =====
-- ipcc/ipcc.go: one call of `SendRecv`, from the request to its reply.
use go_test_cluster.Prelude.{
  ℕ, ◌+◌, ◌≤◌, ◌≡◌, refl, ap, ◌∙◌, true, List, [], ◌∷◌, ◌++◌, none, some, arith, length, drop,
  take-append_le, take-length, nat_eq,
}
use go_test_cluster.Prelude.Text.{Bytes}
use go_test_cluster.Prelude.Dict.{lookup, insert, delete, lookup-insert_self, lookup-delete}
use go_test_cluster.Consts.{buff_max}
use go_test_cluster.Message.{MessageHeader, Json}
use go_test_cluster.Ipcc.{
  Client, SendInfo, IpcClientMsg, get_seqno, overwrite, contents, Op, sync, arrive, hand_on,
  read_next, call_next, write, resume, step, run, route, set_sync_map, remove_sync_map, send_recv,
  serve_call, sender_write, receiver_read, receiver_send, serve_read, send_recv_wait, take_reply,
}

-- Nothing is under way in the client.
pub record IsIdle (c : Client) : Type 0 where
  pub no_call : c.call_send_ch ≡ []
  pub no_write : c.snd_write_ch ≡ []
  pub no_slice : c.reading ≡ none
  pub listening : c.receiving ≡ true
  pub no_read : c.rcv_read_ch ≡ []
  pub no_reply : c.replies ≡ []
  pub no_message : c.ipcrecv_ch ≡ []

-- The steps of a call whose request is written and whose reply arrives as `b`.
abbrev pub exchange : (ℕ → Bytes) → Bytes → ℕ → List Op
exchange f b ch = sync f ∷ call_next ∷ write true ∷ arrive b ∷ hand_on ∷ read_next ∷ resume ch ∷ []

-- The client after the request is on the socket.
abbrev called : (ℕ → Bytes) → Client → Client
called f c = record (get_seqno c).1 {
  call_send_ch = [];
  snd_write_ch = [];
  written = c.written ++ f (get_seqno c).0 ∷ [];
  sync_map = insert (get_seqno c).0 c.next_chan c.sync_map;
  next_chan = c.next_chan + 1;
}

pub run-step :
    (j : Json) (o : Op) (os : List Op) (c : Client) {d : Client}
    → step j o c ≡ some d
    → run j (o ∷ os) c ≡ run j os d
unfolding run
run-step j o os c e = rw (e, run) refl

pub run-nil : (j : Json) (c : Client) → run j [] c ≡ c
unfolding run
run-nil j c = refl

-- A message under the number of a waiting call goes to that call.
route-found :
    (j : Json) (n k ch : ℕ) (head : MessageHeader) (c : Client)
    → (j.unmarshal_common (contents n c)).0.header ≡ head
    → head.seq_no ≡ k
    → lookup k c.sync_map ≡ some ch
    → route j n c
      ≡ some (record c {
        sync_map = delete k c.sync_map;
        replies = c.replies ++ (ch, record { head = head; all = n }) ∷ [];
      })
unfolding route remove_sync_map
route-found j n k ch head c shows numbered waits = ground (arith, shows, numbered, waits)

module _ (j : Json) (f : ℕ → Bytes) (c : Client) (idle : IsIdle c) where
  abbrev info : SendInfo
  info = record { seqno = (get_seqno c).0; msg = f (get_seqno c).0; sch = some c.next_chan }

  abbrev queued : Client
  queued = record (get_seqno c).1 { call_send_ch = info ∷ []; next_chan = c.next_chan + 1 }

  abbrev mapped : Client
  mapped = record queued {
    call_send_ch = [];
    snd_write_ch = f (get_seqno c).0 ∷ [];
    sync_map = insert (get_seqno c).0 c.next_chan c.sync_map;
  }

  sync-step : step j (sync f) c ≡ some queued
  unfolding step get_seqno send_recv
  sync-step = ground (arith, idle.no_call)

  call-step : lookup (get_seqno c).0 c.sync_map ≡ none → step j call_next queued ≡ some mapped
  unfolding step get_seqno serve_call set_sync_map
  call-step fresh = ground (arith, fresh, idle.no_write)

  write-step : step j (write true) mapped ≡ some (called f c)
  unfolding step get_seqno sender_write
  write-step = refl

  module _ (b : Bytes) (fits : length b ≤ buff_max) where
    abbrev header : MessageHeader
    header = (j.unmarshal_common b).0.header

    abbrev pub reply : IpcClientMsg
    reply = record { head = header; all = length b }

    abbrev read : Client
    read = record (called f c) { buf = overwrite b c.buf; reading = some (length b) }

    abbrev sliced : Client
    sliced = record read { reading = none; rcv_read_ch = length b ∷ [] }

    abbrev routed : Client
    routed = record sliced {
      rcv_read_ch = [];
      sync_map = delete (get_seqno c).0 (called f c).sync_map;
      replies = (c.next_chan, reply) ∷ [];
    }

    -- The client when `SendRecv` returns.
    abbrev pub returned : Client
    returned = record routed { replies = []; ipcrecv_ch = reply ∷ [] }

    -- When the event loop has taken the reply, nothing is under way again.
    pub returned-IsIdle : IsIdle (record returned { ipcrecv_ch = [] })
    unfolding get_seqno
    returned-IsIdle = record {
      no_call = refl;
      no_write = refl;
      no_slice = refl;
      listening = idle.listening;
      no_read = refl;
      no_reply = refl;
      no_message = refl;
    }

    pub shown : contents (length b) sliced ≡ b
    unfolding get_seqno
    shown = take-append_le (length b) b (drop (length b) c.buf) (omega arith) ∙ take-length b

    registered : lookup (get_seqno c).0 (called f c).sync_map ≡ some c.next_chan
    unfolding get_seqno
    registered = lookup-insert_self (get_seqno c).0 c.next_chan c.sync_map

    forgotten : lookup (get_seqno c).0 returned.sync_map ≡ none
    unfolding get_seqno
    forgotten = ground (arith, lookup-delete (get_seqno c).0 (get_seqno c).0 (called f c).sync_map)

    arrive-step : step j (arrive b) (called f c) ≡ some read
    unfolding step get_seqno receiver_read
    arrive-step = ground (arith, idle.no_slice, idle.listening, fits)

    hand_on-step : step j hand_on read ≡ some sliced
    unfolding step get_seqno receiver_send
    hand_on-step = ground (arith, idle.no_read)

    read_next-step : header.seq_no ≡ (get_seqno c).0 → step j read_next sliced ≡ some routed
    unfolding step serve_read get_seqno
    read_next-step same =
        route-found j (length b) (get_seqno c).0 c.next_chan header
          (record sliced { rcv_read_ch = [] }) (ap (λ x. (j.unmarshal_common x).0.header) shown)
          same registered
        ∙ ap
            (λ (rs : List (ℕ × IpcClientMsg)).
              let d : Client = record routed { replies = rs ++ (c.next_chan, reply) ∷ [] } in
              some d)
            idle.no_reply

    resume-step : step j (resume c.next_chan) routed ≡ some returned
    unfolding step get_seqno send_recv_wait take_reply
    resume-step = ground (arith, idle.no_message)

    pub exchange-returned :
        lookup (get_seqno c).0 c.sync_map ≡ none
        → header.seq_no ≡ (get_seqno c).0
        → run j (exchange f b c.next_chan) c ≡ returned
    exchange-returned fresh same =
        run-step j (sync f) _ c sync-step
        ∙ run-step j call_next _ queued (call-step fresh)
        ∙ run-step j (write true) _ mapped write-step
        ∙ run-step j (arrive b) _ (called f c) arrive-step
        ∙ run-step j hand_on _ read hand_on-step
        ∙ run-step j read_next _ sliced (read_next-step same)
        ∙ run-step j (resume c.next_chan) [] routed resume-step
        ∙ run-nil j returned

    -- A call of `SendRecv` on a client with nothing under way, under a number that no call waits
    -- for, puts its request on the socket; when a reply of at most BUFF_MAX bytes with that number
    -- arrives, the call returns, the reply is the one message for the event loop, its slice shows
    -- what arrived, and no call waits under the number any more.
    pub exchange_returns :
        lookup (get_seqno c).0 c.sync_map ≡ none
        → header.seq_no ≡ (get_seqno c).0
        → let e = run j (exchange f b c.next_chan) c in
          (e.written ≡ c.written ++ f (get_seqno c).0 ∷ [])
          × (e.ipcrecv_ch ≡ reply ∷ [])
          × (contents (length b) e ≡ b)
          × (lookup (get_seqno c).0 e.sync_map ≡ none)
          × (e.replies ≡ [])
    exchange_returns fresh same =
        let went = exchange-returned fresh same in
        (
          ap (λ (x : Client). x.written) went,
          ap (λ (x : Client). x.ipcrecv_ch) went,
          ap (λ (x : Client). contents (length b) x) went ∙ shown,
          ap (λ (x : Client). lookup (get_seqno c).0 x.sync_map) went ∙ forgotten,
          ap (λ (x : Client). x.replies) went,
        )
