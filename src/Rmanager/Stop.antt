-- ===== src/Rmanager/Stop.antt =====
-- rmanager/rman.go: the record of a stop in `ExecRscOp`.
use go_test_cluster.Prelude.{◌≡◌, true, none, List, arith, All}
use go_test_cluster.Prelude.Int.{pos, int_eq_iff}
use go_test_cluster.Rmanager.Table.{is_stop, is_rsc_stop-record}
use go_test_cluster.Rmanager.Exec.{
  Request, starting, Job, Rman, result, exec_timer, exec_record, exec_job,
}
use go_test_cluster.Rmanager.Step.{Op, run}
use go_test_cluster.Rmanager.Quiet.{IsHarmless, IsHarmless-snoc, IsApart, IsQuiet}

-- The state in which `ExecRscOp` comes to `RecordRscOp`: `between` are the steps that others take
-- behind its `stopTimer`.
abbrev pub timer_stopped : Request → List Op → Rman → Rman
timer_stopped q between m = run between (exec_timer q m)

-- The state behind the record, with the job of the stop.
abbrev pub stop_taken : Request → List Op → Rman → Rman
stop_taken q between m = exec_job q (exec_record q (timer_stopped q between m))

pub record-IsQuiet :
    (q : Request) (m : Rman)
    → is_stop q.op ≡ true
    → q.interval ≡ pos 0
    → All (IsHarmless q.rscid m.next_job) m.jobs
    → All (IsApart q.rscid) m.due
    → IsQuiet q.rscid m.next_job (exec_job q (exec_record q m))
record-IsQuiet q m stop once harmless due =
    let r = result q (pos 0) (pos 0) none (pos 0) in
    let job : Job = record { id = m.next_job; req = q; stage = starting } in
    record {
      stopped =
          ground (arith, stop, is_rsc_stop-record q.rscid r m.on_rsc, int_eq_iff q.rscid q.rscid);
      harmless = IsHarmless-snoc q.rscid m.next_job m.jobs job harmless (ground (arith, once));
      due = due;
    }
