-- ===== src/Rmanager/Race.antt =====
-- rmanager/rman.go: a monitor that is under way when its resource is stopped.
use go_test_cluster.Prelude.{
  ◌≡◌, refl, true, false, [], ◌∷◌, ◌++◌, none, some, arith, Option-cases, inl, inr,
}
use go_test_cluster.Prelude.Int.{ℤ, pos, int_eq, int_eq_iff, is_positive}
use go_test_cluster.Consts.{cl_ok}
use go_test_cluster.Rmanager.Table.{
  Execrsc, is_stop, record_rsc_op, is_rsc_stop, is_rsc_stop-record, set_rsc_terminate-other,
}
use go_test_cluster.Rmanager.Exec.{
  Request, Signal, fin, result, Rman, exec_rsc_op, set_monitor, fire, report_signal, after_report,
  wait_child,
}

int_eq_refl : (a : ℤ) → int_eq a a ≡ true
int_eq_refl a = (int_eq_iff a a).1 refl

after_report-revives :
    (q : Request) (r : Execrsc) (m : Rman)
    → r.ret ≡ cl_ok
    → is_positive q.interval ≡ true
    → is_stop q.op ≡ false
    → (is_rsc_stop q.rscid (after_report q r m).on_rsc ≡ false)
      × ((after_report q r m).armed ≡ m.armed ++ (m.next_timer, record q { async = true }) ∷ [])
unfolding after_report set_monitor
after_report-revives q r m good repeated other =
    let first = result q (pos 0) (pos 0) none (pos 1) in
    let second = result q (pos 0) (pos 0) (some m.next_timer) (pos 1) in
    ground (
      arith,
      int_eq_refl q.rscid,
      is_rsc_stop-record q.rscid second (record_rsc_op first m.on_rsc),
      set_rsc_terminate-other q.rscid q.op (record_rsc_op second (record_rsc_op first m.on_rsc)),
    )

report_signal-keeps :
    (q : Request) (s : Signal) (m : Rman) {d : Rman}
    → report_signal q s m ≡ some d
    → (d.armed ≡ m.armed) × (d.next_timer ≡ m.next_timer)
unfolding report_signal
report_signal-keeps q (fin r) m h = ground arith
report_signal-keeps q (Signal.timed_out r) m h = ground arith

-- A repeated operation other than a stop that ends well undoes a stop: whatever the table says of
-- the resource when its result is reported, the stop that `ExecRscOp` recorded and the mark of a
-- finished stop included, the resource is then no longer recorded as stopped, a timer for the
-- operation is set, and when that timer fires a new job runs it.
pub late_monitor_revives :
    (q : Request) (r : Execrsc) (m : Rman) {d : Rman}
    → r.ret ≡ cl_ok
    → is_positive q.interval ≡ true
    → is_stop q.op ≡ false
    → wait_child q (fin r) m ≡ some d
    → let again : Request = record q { async = true } in
      (is_rsc_stop q.rscid d.on_rsc ≡ false)
      × (d.armed ≡ m.armed ++ (m.next_timer, again) ∷ [])
      × (fire again d ≡ exec_rsc_op again d)
unfolding wait_child fire
late_monitor_revives q r m {d} good repeated other h =
    elim (Option-cases (report_signal q (fin r) m)) [
      | inl blocked ↦ ground arith
      | inr (e, done) ↦
          ground (arith, report_signal-keeps q (fin r) m done, after_report-revives q r e)
    ]
