-- ===== src/Ipcc.antt =====
-- ipcc/ipcc.go: the client side of a Unix socket, by which the controller calls the resource
-- manager. Callers, receiver, sender and dispatcher are goroutines; an `Op` is one step of one of
-- them, and `step` is `none` where that goroutine blocks.
pub mod Seqno
pub mod Delivery
pub mod Match
pub mod Order
pub mod Buffer
pub mod Exchange
pub mod Greeting
pub mod Socket
mod Tests
use go_test_cluster.Prelude.{
  ℕ, ◌+◌, ◌-◌, ◌%◌, ◌^◌, Bool, true, false, ◌&&◌, List, [], ◌∷◌, ◌++◌, Option, none, some, length,
  take, drop, replicate, leb, ◌==◌, if◌then◌else◌, nat_eq,
}
use go_test_cluster.Prelude.Text.{Bytes}
use go_test_cluster.Prelude.Dict.{Dict, lookup, insert, delete}
use go_test_cluster.Prelude.Channel.{push}
use go_test_cluster.Consts.{buff_max}
use go_test_cluster.Message.{MessageHeader, Json}

-- math.MaxUint64
abbrev pub max_uint64 : ℕ
max_uint64 = 2 ^ 64 - 1

-- The capacity of the channels that `New` makes.
abbrev pub chan_cap : ℕ
chan_cap = 12

-- `sendInfo`; a channel that `SendRecv` makes is known by its number, and `nil` is `none`.
pub record SendInfo : Type 0 where
  pub seqno : ℕ
  pub msg : Bytes
  pub sch : Option ℕ

-- `All` is the slice `_buf[0:n]` of the receiver's only buffer: it is kept as its length.
pub record IpcClientMsg : Type 0 where
  pub head : MessageHeader
  pub all : ℕ

-- `IpcClientController`, with the receiver's buffer `_buf`, the slice it is about to send, what
-- the sender has written to the socket, and the messages that are handed over on the channels
-- of the callers of `SendRecv`.
pub record Client : Type 0 where
  pub ipcrecv_ch : List IpcClientMsg
  pub call_send_ch : List SendInfo
  pub rcv_read_ch : List ℕ
  pub snd_write_ch : List Bytes
  pub sync_map : Dict ℕ ℕ
  pub seqno : ℕ  -- uint64
  pub buf : Bytes
  pub reading : Option ℕ
  pub receiving : Bool
  pub written : List Bytes
  pub replies : List (ℕ × IpcClientMsg)
  pub next_chan : ℕ

-- `New`, after `Connect` and `Run`.
unfoldable pub new : Client
new = record {
  ipcrecv_ch = [];
  call_send_ch = [];
  rcv_read_ch = [];
  snd_write_ch = [];
  sync_map = [];
  seqno = 0;
  buf = replicate buff_max 0;
  reading = none;
  receiving = true;
  written = [];
  replies = [];
  next_chan = 0;
}

-- `GetSeqno`, whose addition is that of `uint64`.
unfoldable pub get_seqno : Client → ℕ × Client
get_seqno c =
    let n = ((if c.seqno == max_uint64 then 0 else c.seqno) + 1) % 2 ^ 64 in
    (n, record c { seqno = n })

-- `_setSyncMap`
pub set_sync_map : SendInfo → Client → Client
set_sync_map w c = elim w.sch [
  | none ↦ c
  | some ch ↦ elim (lookup w.seqno c.sync_map) [
    | none ↦ record c { sync_map = insert w.seqno ch c.sync_map }
    | some _ ↦ c
  ]
]

-- `_removeSyncMap`
pub remove_sync_map : ℕ → Client → Client
remove_sync_map n c = record c { sync_map = delete n c.sync_map }

-- The first half of `SendRecv`: make the channel and put the request on `call_send_ch`.
pub send_recv : Bytes → ℕ → Client → Option Client
send_recv msgs n c =
    elim (push chan_cap (record { seqno = n; msg = msgs; sch = some c.next_chan }) c.call_send_ch) [
      | none ↦ none
      | some q ↦ some (record c { call_send_ch = q; next_chan = c.next_chan + 1 })
    ]

-- `SendRecvAsync`
pub send_recv_async : Bytes → Client → Option Client
send_recv_async msgs c =
    elim (push chan_cap (record { seqno = 0; msg = msgs; sch = none }) c.call_send_ch) [
      | none ↦ none
      | some q ↦ some (record c { call_send_ch = q })
    ]

-- The reply on the channel `ch`, and the other replies.
pub take_reply : ℕ → List (ℕ × IpcClientMsg) → Option (IpcClientMsg × List (ℕ × IpcClientMsg))
take_reply ch [] = none
take_reply ch ((i, m) ∷ rs) =
    let rest = take_reply ch rs in
    if i == ch
    then some (m, rs)
    else elim rest [ none ↦ none | some (m', rs') ↦ some (m', (i, m) ∷ rs') ]

-- The second half of `SendRecv`: wait for the reply and pass it on to `ipcrecv_ch`.
pub send_recv_wait : ℕ → Client → Option Client
unfolding take_reply
send_recv_wait ch c = elim (take_reply ch c.replies) [
  | none ↦ none
  | some (m, rs) ↦ elim (push chan_cap m c.ipcrecv_ch) [
    | none ↦ none
    | some q ↦ some (record c { replies = rs; ipcrecv_ch = q })
  ]
]

-- `r.Read(_buf[:])` puts what arrived at the front of the buffer.
abbrev pub overwrite : Bytes → Bytes → Bytes
overwrite d b = d ++ drop (length d) b

-- The loop body of `receiver`: `Read` into the one buffer, then send the slice. No `Read` gives
-- more than the buffer holds, and none is made while a slice waits to be sent.
pub receiver_read : Bytes → Client → Option Client
receiver_read d c = elim c.reading [
  | none ↦
      if c.receiving && leb (length d) buff_max
      then some (record c { buf = overwrite d c.buf; reading = some (length d) })
      else none
  | some _ ↦ none
]

-- `Read` returns an error: the receiver ends.
pub receiver_error : Client → Option Client
receiver_error c = elim c.reading [ none ↦ some (record c { receiving = false }) | some _ ↦ none ]

pub receiver_send : Client → Option Client
receiver_send c = elim c.reading [
  | none ↦ none
  | some n ↦ elim (push chan_cap n c.rcv_read_ch) [
    | none ↦ none
    | some q ↦ some (record c { reading = none; rcv_read_ch = q })
  ]
]

-- The loop body of `sender`; a write that fails is logged, and the message is gone.
pub sender_write : Bool → Client → Option Client
sender_write ok c = elim c.snd_write_ch [
  | [] ↦ none
  | m ∷ q ↦
      some (record c { snd_write_ch = q; written = if ok then c.written ++ m ∷ [] else c.written })
]

-- The bytes that a slice of length `n` shows now.
abbrev pub contents : ℕ → Client → Bytes
contents n c = take n c.buf

module _ (j : Json) where
  -- What the dispatcher does with a slice: to the caller that waits under its number, or to
  -- `ipcrecv_ch`. An error of `Unmarshal` is logged only.
  pub route : ℕ → Client → Option Client
  unfolding remove_sync_map
  route n c =
      let h = (j.unmarshal_common (contents n c)).0.header in
      let m : IpcClientMsg = record { head = h; all = n } in
      elim (lookup h.seq_no c.sync_map) [
        | some ch ↦
            let d = remove_sync_map h.seq_no c in
            some (record d { replies = d.replies ++ (ch, m) ∷ [] })
        | none ↦ elim (push chan_cap m c.ipcrecv_ch) [
          | none ↦ none
          | some q ↦ some (record c { ipcrecv_ch = q })
        ]
      ]

  -- `case _r := <- rcv_read_ch`
  pub serve_read : Client → Option Client
  serve_read c = elim c.rcv_read_ch [ [] ↦ none | n ∷ q ↦ route n (record c { rcv_read_ch = q }) ]

-- `case _w := <- call_send_ch`
pub serve_call : Client → Option Client
unfolding set_sync_map
serve_call c = elim c.call_send_ch [
  | [] ↦ none
  | w ∷ q ↦
      let d = set_sync_map w (record c { call_send_ch = q }) in
      elim (push chan_cap w.msg d.snd_write_ch) [
        | none ↦ none
        | some s ↦ some (record d { snd_write_ch = s })
      ]
]

-- A synchronous caller draws its number from `GetSeqno` and writes it into the message, as
-- `_resourceControl` does; `sync` holds the message as a function of the number.
pub data Op : Type 0 where
  sync : (ℕ → Bytes) → Op
  async : Bytes → Op
  resume : ℕ → Op
  arrive : Bytes → Op
  hang_up hand_on read_next call_next : Op
  write : Bool → Op

unfoldable pub step : Json → Op → Client → Option Client
unfolding get_seqno send_recv send_recv_async send_recv_wait receiver_read receiver_error
    receiver_send sender_write route serve_read serve_call
step j (sync f) c = let (n, d) = get_seqno c in send_recv (f n) n d
step j (async m) c = send_recv_async m c
step j (resume ch) c = send_recv_wait ch c
step j (arrive d) c = receiver_read d c
step j hang_up c = receiver_error c
step j hand_on c = receiver_send c
step j read_next c = serve_read j c
step j call_next c = serve_call c
step j (write ok) c = sender_write ok c

-- Any interleaving; a step whose goroutine blocks leaves the state as it is.
unfoldable pub run : Json → List Op → Client → Client
run j [] c = c
run j (op ∷ ops) c = run j ops (elim (step j op c) [ none ↦ c | some d ↦ d ])
