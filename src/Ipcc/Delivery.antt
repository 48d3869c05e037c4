-- ===== src/Ipcc/Delivery.antt =====
-- ipcc/ipcc.go: the channels that the calls of `SendRecv` make, over any run.
use go_test_cluster.Prelude.{
  ℕ, suc, ◌+◌, ◌≤◌, ◌<◌, ◌≡◌, refl, List, [], ◌∷◌, ◌++◌, Option, none, some, arith, Option-cases,
  inl, inr, ◌==◌, if◌then◌else◌, nat_eq,
}
use go_test_cluster.Prelude.Text.{Bytes}
use go_test_cluster.Prelude.Dict.{Dict, lookup, insert, delete}
use go_test_cluster.Message.{Json}
use go_test_cluster.Ipcc.{
  Client, SendInfo, IpcClientMsg, Op, max_uint64, new, get_seqno, send_recv, send_recv_async,
  send_recv_wait, take_reply, serve_call, serve_read, route, step, run, contents,
}

abbrev tally : ℕ → ℕ → ℕ → ℕ
tally ch i n = if i == ch then suc n else n

-- How often the channel `ch` stands in each place.
abbrev pub in_calls : ℕ → List SendInfo → ℕ
in_calls ch [] = 0
in_calls ch (w ∷ ws) = elim w.sch [ none ↦ in_calls ch ws | some i ↦ tally ch i (in_calls ch ws) ]

abbrev pub in_map : ℕ → Dict ℕ ℕ → ℕ
in_map ch [] = 0
in_map ch ((n, i) ∷ m) = tally ch i (in_map ch m)

abbrev pub in_replies : ℕ → List (ℕ × IpcClientMsg) → ℕ
in_replies ch [] = 0
in_replies ch ((i, m) ∷ rs) = tally ch i (in_replies ch rs)

abbrev pub uses : ℕ → Client → ℕ
uses ch c = in_calls ch c.call_send_ch + in_map ch c.sync_map + in_replies ch c.replies

in_calls-snoc :
    (ch : ℕ) (ws : List SendInfo) (w : SendInfo)
    → in_calls ch (ws ++ w ∷ []) ≡ in_calls ch ws + in_calls ch (w ∷ [])
in_calls-snoc ch [] w = omega arith
in_calls-snoc ch (v ∷ ws) w = ground (arith, in_calls-snoc ch ws w)

in_replies-snoc :
    (ch i : ℕ) (m : IpcClientMsg) (rs : List (ℕ × IpcClientMsg))
    → in_replies ch (rs ++ (i, m) ∷ []) ≡ tally ch i (in_replies ch rs)
in_replies-snoc ch i m [] = refl
in_replies-snoc ch i m (r ∷ rs) = ground (arith, in_replies-snoc ch i m rs)

in_map-insert :
    (ch n i : ℕ) (m : Dict ℕ ℕ)
    → lookup n m ≡ none
    → in_map ch (insert n i m) ≡ tally ch i (in_map ch m)
unfolding lookup insert
in_map-insert ch n i [] h = refl
in_map-insert ch n i ((k, v) ∷ m) h = ground (arith, in_map-insert ch n i m)

in_map-delete-le : (ch n : ℕ) (m : Dict ℕ ℕ) → in_map ch (delete n m) ≤ in_map ch m
unfolding delete
in_map-delete-le ch n [] = omega arith
in_map-delete-le ch n ((k, v) ∷ m) = ground (arith, in_map-delete-le ch n m)

in_map-delete :
    (ch n i : ℕ) (m : Dict ℕ ℕ)
    → lookup n m ≡ some i
    → tally ch i (in_map ch (delete n m)) ≤ in_map ch m
unfolding lookup delete
in_map-delete ch n i [] h = cc
in_map-delete ch n i ((k, v) ∷ m) h =
    ground (arith, in_map-delete ch n i m, in_map-delete-le ch n m)

in_replies-take :
    (ch i : ℕ) (rs : List (ℕ × IpcClientMsg)) {m : IpcClientMsg} {qs : List (ℕ × IpcClientMsg)}
    → take_reply i rs ≡ some (m, qs)
    → in_replies ch rs ≡ tally ch i (in_replies ch qs)
unfolding take_reply
in_replies-take ch i [] h = cc
in_replies-take ch i ((k, v) ∷ rs) {m} {qs} h = elim (Option-cases (take_reply i rs)) [
  | inl e ↦ ground arith
  | inr ((m', qs'), e) ↦ ground (arith, in_replies-take ch i rs e)
]

-- What one step does to the uses of a channel: none adds one, except that a synchronous call takes
-- up the next channel.
pub record IsUse (ch : ℕ) (c d : Client) : Type 0 where
  pub old : ch < c.next_chan → uses ch d ≤ uses ch c
  pub new_one : uses ch d ≤ suc (uses ch c)
  pub later : d.next_chan ≤ ch → uses ch d ≤ uses ch c
  pub grows : c.next_chan ≤ d.next_chan
  pub fits : c.seqno ≤ max_uint64 → d.seqno ≤ max_uint64

sync-IsUse :
    (ch : ℕ) (f : ℕ → Bytes) (c : Client) {d : Client}
    → (let (n, e) = get_seqno c in send_recv (f n) n e) ≡ some d
    → IsUse ch c d
unfolding send_recv get_seqno
sync-IsUse ch f c h =
    let n = (get_seqno c).0 in
    ground (
      arith,
      in_calls-snoc ch c.call_send_ch (record { seqno = n; msg = f n; sch = some c.next_chan }),
    )

async-IsUse :
    (ch : ℕ) (m : Bytes) (c : Client) {d : Client} → send_recv_async m c ≡ some d → IsUse ch c d
unfolding send_recv_async
async-IsUse ch m c h =
    ground (arith, in_calls-snoc ch c.call_send_ch (record { seqno = 0; msg = m; sch = none }))

wait-IsUse : (ch i : ℕ) (c : Client) {d : Client} → send_recv_wait i c ≡ some d → IsUse ch c d
unfolding send_recv_wait
wait-IsUse ch i c h = elim (Option-cases (take_reply i c.replies)) [
  | inl e ↦ ground arith
  | inr ((m, qs), e) ↦ ground (arith, in_replies-take ch i c.replies e)
]

route-IsUse : (j : Json) (ch n : ℕ) (c : Client) {d : Client} → route j n c ≡ some d → IsUse ch c d
unfolding route
route-IsUse j ch n c h = elim (Option-cases (lookup k c.sync_map)) [
  | inl e ↦ ground arith
  | inr (i, e) ↦ ground (
    arith,
    in_map-delete ch k i c.sync_map e,
    in_replies-snoc ch i (record { head = (j.unmarshal_common (contents n c)).0.header; all = n })
        c.replies,
  )
]
  where
    k : ℕ
    k = (j.unmarshal_common (contents n c)).0.header.seq_no

-- The slice that the dispatcher takes, and the state that it routes it in.
pub read_cases :
    (j : Json) (c : Client) {d : Client}
    → serve_read j c ≡ some d
    → (n : ℕ) × (q : List ℕ) × (route j n (record c { rcv_read_ch = q }) ≡ some d)
unfolding serve_read
read_cases j c {d} h = go c.rcv_read_ch h
  where
    go :
        (l : List ℕ)
        → ◌≡◌ {A = Option Client}
            (elim l [ [] ↦ none | n ∷ q ↦ route j n (record c { rcv_read_ch = q }) ])
            (some d)
        → (n : ℕ) × (q : List ℕ) × (route j n (record c { rcv_read_ch = q }) ≡ some d)
    go [] e = cc
    go (n ∷ q) e = (n, q, e)

serve_read-IsUse :
    (j : Json) (ch : ℕ) (c : Client) {d : Client} → serve_read j c ≡ some d → IsUse ch c d
serve_read-IsUse j ch c h =
    let (n, q, e) = read_cases j c h in ground (arith, route-IsUse j ch n _ e)

serve_call-IsUse : (ch : ℕ) (c : Client) {d : Client} → serve_call c ≡ some d → IsUse ch c d
unfolding serve_call
serve_call-IsUse ch c h = grind (arith, in_map-insert)

pub step-IsUse :
    (j : Json) (ch : ℕ) (op : Op) (c : Client) {d : Client} → step j op c ≡ some d → IsUse ch c d
unfolding step
step-IsUse j ch (Op.sync f) c h = sync-IsUse ch f c h
step-IsUse j ch (Op.async m) c h = async-IsUse ch m c h
step-IsUse j ch (Op.resume i) c h = wait-IsUse ch i c h
step-IsUse j ch Op.read_next c h = serve_read-IsUse j ch c h
step-IsUse j ch Op.call_next c h = serve_call-IsUse ch c h
step-IsUse j ch op c h = ground arith

-- Of a channel: it is in use at most once, and not before it is made.
pub record Inv (ch : ℕ) (c : Client) : Type 0 where
  pub once : uses ch c ≤ 1
  pub unmade : c.next_chan ≤ ch → uses ch c ≡ 0

step-Inv :
    (j : Json) (ch : ℕ) (op : Op) (c : Client) {d : Client}
    → step j op c ≡ some d
    → Inv ch c
    → Inv ch d
step-Inv j ch op c h v = ground (arith, step-IsUse j ch op c h)

pub run-Inv : (j : Json) (ch : ℕ) (ops : List Op) (c : Client) → Inv ch c → Inv ch (run j ops c)
unfolding run
run-Inv j ch [] c v = v
run-Inv j ch (op ∷ ops) c v = elim (Option-cases (step j op c)) [
  | inl e ↦ rw (e, run) (run-Inv j ch ops c v)
  | inr (d, e) ↦ rw (e, run) (run-Inv j ch ops d (step-Inv j ch op c e v))
]

pub new-Inv : (ch : ℕ) → Inv ch new
unfolding new
new-Inv ch = ground arith

-- In every state that a new client reaches, by any interleaving and any bytes from the server, the
-- channel of a call of `SendRecv` stands at most once among the queued requests, the table and the
-- replies; so a call gets at most one reply.
pub reply_at_most_once : (j : Json) (ops : List Op) (ch : ℕ) → uses ch (run j ops new) ≤ 1
reply_at_most_once j ops ch = (run-Inv j ch ops new (new-Inv ch)).once
