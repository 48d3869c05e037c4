-- ===== src/Rmanager/LateCall.antt =====
-- rmanager/rman.go: the function of a repeated monitor's timer that has passed its check of
-- `isRscStop` when its resource is stopped.
use go_test_cluster.Prelude.{
  ℕ, ◌+◌, ◌≡◌, refl, true, false, List, [], ◌∷◌, ◌++◌, none, some, arith, length,
}
use go_test_cluster.Prelude.Int.{pos, int_eq, int_eq_iff}
use go_test_cluster.Rmanager.Table.{is_stop, is_rsc_stop, is_rsc_stop-record}
use go_test_cluster.Rmanager.Exec.{
  Request, starting, Job, Rman, result, exec_timer, exec_record, exec_job, exec_begin, exec_rsc_op,
  check_stop,
}
use go_test_cluster.Rmanager.Step.{
  request, checks, calls, take_timer, take_due, live_step, step, run,
}

take_due-snoc :
    (qs : List Request) (q : Request) → take_due (length qs) (qs ++ q ∷ []) ≡ some (q, qs)
unfolding take_due
take_due-snoc [] q = refl
take_due-snoc (x ∷ qs) q = ground (arith, take_due-snoc qs q)

checks-step :
    (t : ℕ) (q : Request) (ts : List (ℕ × Request)) (m : Rman)
    → m.crashed ≡ false
    → take_timer t m.armed ≡ some (q, ts)
    → is_rsc_stop q.rscid m.on_rsc ≡ false
    → step (checks t) m ≡ some (record m { armed = ts; due = m.due ++ q ∷ [] })
unfolding step live_step check_stop
checks-step t q ts m lives armed live = ground (arith, lives, armed, live)

stop-step :
    (s : Request) (m : Rman)
    → m.crashed ≡ false
    → m.busy ≡ none
    → s.interval ≡ pos 0
    → step (request s) m ≡ some (exec_job s (exec_record s (exec_timer s m)))
unfolding step live_step exec_rsc_op exec_begin
stop-step s m lives idle once = ground (arith, lives, idle, once)

call-step :
    (q : Request) (qs : List Request) (m : Rman)
    → m.crashed ≡ false
    → m.due ≡ qs ++ q ∷ []
    → int_eq q.interval (pos 0) ≡ false
    → step (calls (length qs)) m ≡ some (exec_job q (record m { due = qs }))
unfolding step live_step exec_rsc_op exec_begin
call-step q qs m lives due again = ground (arith, lives, due, again, take_due-snoc qs q)

-- A stop does not hold back a timer's function that has passed its check. In a state that has not
-- crashed, where the event loop is free, the resource is not stopped and a timer of a repeated operation
-- of it is armed, let the timer's function pass its check, the event loop then take a stop of the
-- resource, and the function make its call after that. The resource is recorded as stopped, and behind the
-- job of the stop there is a new job, with the next number, that runs the operation again.
pub late_call_starts :
    (t : ℕ) (q s : Request) (ts : List (ℕ × Request)) (m : Rman)
    → m.crashed ≡ false
    → m.busy ≡ none
    → take_timer t m.armed ≡ some (q, ts)
    → is_rsc_stop q.rscid m.on_rsc ≡ false
    → int_eq q.interval (pos 0) ≡ false
    → is_stop s.op ≡ true
    → s.interval ≡ pos 0
    → s.rscid ≡ q.rscid
    → let d = run (checks t ∷ request s ∷ calls (length m.due) ∷ []) m in
      let stop_job : Job = record { id = m.next_job; req = s; stage = starting } in
      let late_job : Job = record { id = m.next_job + 1; req = q; stage = starting } in
      (is_rsc_stop q.rscid d.on_rsc ≡ true) × (d.jobs ≡ (m.jobs ++ stop_job ∷ []) ++ late_job ∷ [])
unfolding run
late_call_starts t q s ts m lives idle armed live again stop once same =
    let a : Rman = record m { armed = ts; due = m.due ++ q ∷ [] } in
    let b = exec_job s (exec_record s (exec_timer s a)) in
    let r = result s (pos 0) (pos 0) none (pos 0) in
    rw
      (
        checks-step t q ts m lives armed live,
        stop-step s a lives idle once,
        call-step q m.due b lives refl again,
        run,
      )
      (
        ground
            (arith, stop, same, is_rsc_stop-record q.rscid r m.on_rsc, int_eq_iff s.rscid q.rscid),
        refl,
      )
