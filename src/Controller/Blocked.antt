-- ===== src/Controller/Blocked.antt =====
-- ipcc/ipcc.go and controller/control.go: `SendRecv` puts its reply on `ipcrecv_ch`, which only the
-- event loop empties, and the event loop waits for `SendRecv`.
use go_test_cluster.Prelude.{
  ◌≡◌, ◌≤◌, refl, true, List, [], ◌∷◌, some, arith, length, Option-cases, inl, inr,
}
use go_test_cluster.Prelude.Int.{ℤ}
use go_test_cluster.Message.{Json}
use go_test_cluster.Ipcc.{chan_cap}
use go_test_cluster.Controller.Control.{
  Controll, Op, boot, take_status, take_client, incoming, returns, confchg, deliver, totemchg,
  reads, loop_step, loop, run, send_recv_return,
}

-- The event loop waits in `SendRecv`, and the channel for its reply has no room.
record IsFull (c : Controll) : Type 0 where
  waits : c.waiting ≡ true
  full : chan_cap ≤ length c.rman_connect.ipcrecv_ch

loop-IsFull :
    (j : Json) (pid : ℤ) (o : Op) (c d : Controll)
    → IsFull c
    → loop j pid o c ≡ some d
    → IsFull d × (d.calls ≡ c.calls) × (d.step ≡ c.step)
unfolding loop loop_step send_recv_return
loop-IsFull j pid boot c d v e = ground (arith, v, e)
loop-IsFull j pid take_status c d v e = ground (arith, v, e)
loop-IsFull j pid take_client c d v e = ground (arith, v, e)
loop-IsFull j pid (incoming m) c d v e = ground (arith, v, e)
loop-IsFull j pid (returns m) c d v e = ground (arith, v, e)
loop-IsFull j pid (confchg id) c d v e = ground (arith, v, e)
loop-IsFull j pid (deliver id) c d v e = ground (arith, v, e)
loop-IsFull j pid (totemchg id) c d v e = ground (arith, v, e)
loop-IsFull j pid (reads b) c d v e = ground (arith, v, e)

-- A full channel keeps `SendRecv` from returning, in any run of the event loop.
pub full_channel_blocks :
    (j : Json) (pid : ℤ) (os : List Op) (c : Controll)
    → c.waiting ≡ true
    → chan_cap ≤ length c.rman_connect.ipcrecv_ch
    → let d = run j pid os c in (d.waiting ≡ true) × (d.calls ≡ c.calls) × (d.step ≡ c.step)
unfolding run
full_channel_blocks j pid [] c waits full = (waits, refl, refl)
full_channel_blocks j pid (o ∷ os) c waits full = elim (Option-cases (loop j pid o c)) [
  | inl idle ↦ rw (idle, run) (full_channel_blocks j pid os c waits full)
  | inr (d, went) ↦
      let (v, calls, step) = loop-IsFull j pid o c d (record { waits = waits; full = full }) went in
      let rest = full_channel_blocks j pid os d v.waits v.full in
      rw (went, run) (ground (arith, rest, calls, step))
]
