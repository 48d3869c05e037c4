-- ===== src/Ipcc/Seqno.antt =====
-- ipcc/ipcc.go: the numbers that `GetSeqno` gives out.
use go_test_cluster.Prelude.{
  ℕ, zero, suc, ◌+◌, ◌%◌, ◌≤◌, ◌<◌, ◌≡◌, ◌≢◌, arith, List, [], ◌∷◌, some, Option-cases, inl, inr,
}
use go_test_cluster.Message.{Json}
use go_test_cluster.Ipcc.{
  Client, max_uint64, get_seqno, Op, sync, async, resume, arrive, hang_up, hand_on, read_next,
  call_next, write, step, run, send_recv, send_recv_async, send_recv_wait, receiver_read,
  receiver_error, receiver_send, sender_write, route, serve_read, serve_call, set_sync_map,
  remove_sync_map,
}

-- The number that the call after `k` others gets.
pub nth_seqno : ℕ → Client → ℕ
nth_seqno zero c = (get_seqno c).0
nth_seqno (suc k) c = nth_seqno k (get_seqno c).1

get_seqno-value :
    (c : Client)
    → c.seqno ≤ max_uint64
    → ((get_seqno c).0 ≡ c.seqno % max_uint64 + 1)
      × ((get_seqno c).1.seqno ≡ c.seqno % max_uint64 + 1)
unfolding get_seqno
get_seqno-value c h = ground arith

-- From a counter that fits uint64, the call after `k` others gets (counter + k) mod (2^64 - 1),
-- plus 1: the numbers go up by one, and after 2^64 - 1 comes 1.
pub nth_seqno-value :
    (k : ℕ) (c : Client) → c.seqno ≤ max_uint64 → nth_seqno k c ≡ (c.seqno + k) % max_uint64 + 1
unfolding nth_seqno
nth_seqno-value zero c h = omega (arith, (get_seqno-value c h).0)
nth_seqno-value (suc k) c h = omega (
  arith,
  (get_seqno-value c h).1,
  nth_seqno-value k (get_seqno c).1 (omega (arith, (get_seqno-value c h).1)),
)

-- No number is 0, which asynchronous messages carry, and fewer than 2^64 - 1 calls apart no two
-- calls get the same number.
pub nth_seqno-ne :
    (i j : ℕ) (c : Client)
    → c.seqno ≤ max_uint64
    → i < j
    → j < i + max_uint64
    → (nth_seqno i c ≢ 0) × (nth_seqno i c ≢ nth_seqno j c)
nth_seqno-ne i j c h below near = omega (arith, nth_seqno-value i c h, nth_seqno-value j c h)

step-seqno :
    (j : Json) (o : Op) (c : Client) {d : Client}
    → step j o c ≡ some d
    → c.seqno ≤ max_uint64
    → d.seqno ≤ max_uint64
unfolding step send_recv send_recv_async send_recv_wait receiver_read receiver_error receiver_send
    sender_write route serve_read serve_call set_sync_map remove_sync_map get_seqno
step-seqno j (sync f) c e h = ground arith
step-seqno j (async m) c e h = ground arith
step-seqno j (resume ch) c e h = ground arith
step-seqno j (arrive b) c e h = ground arith
step-seqno j hang_up c e h = ground arith
step-seqno j hand_on c e h = ground arith
step-seqno j read_next c e h = ground arith
step-seqno j call_next c e h = ground arith
step-seqno j (write ok) c e h = ground arith

-- In every state that a new client reaches the counter fits `uint64`.
pub run-seqno :
    (j : Json) (os : List Op) (c : Client) → c.seqno ≤ max_uint64 → (run j os c).seqno ≤ max_uint64
unfolding run
run-seqno j [] c h = h
run-seqno j (o ∷ os) c h = elim (Option-cases (step j o c)) [
  | inl e ↦ rw (e, run) (run-seqno j os c h)
  | inr (d, e) ↦ rw (e, run) (run-seqno j os d (step-seqno j o c {d = d} e h))
]
