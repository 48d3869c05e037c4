-- ===== src/Rmanager/Round.antt =====
-- rmanager/rman.go: one round of a repeated monitor, with the timer that it sets.
use go_test_cluster.Prelude.{
  ℕ, ◌+◌, ◌<◌, ◌≡◌, refl, ap, subst, All, ◌∙◌, true, false, List, [], ◌∷◌, ◌++◌, none, some, arith,
  length, if◌then◌else◌, ◌⊎◌,
}
use native.Mathlib.Numerals.{add-one}
use go_test_cluster.Prelude.Int.{ℤ, pos, int_eq, int_eq_iff, is_positive}
use go_test_cluster.Prelude.Text.{codes, bytes_eq}
use go_test_cluster.Consts.{cl_ok}
use go_test_cluster.Rmanager.Table.{
  Execrsc, is_stop, record_rsc_op, is_rsc_stop, is_rsc_terminate, get_count, is_rsc_stop-record,
  is_rsc_terminate-record, get_count-record, set_rsc_terminate-other,
}
use go_test_cluster.Rmanager.Exec.{
  Request, fin, Stage, starting, finished, Job, Rman, result, rsc_op_cap, exec_begin, exec_rsc_op,
  set_monitor, fire, report_signal, after_report, wait_child,
}
use go_test_cluster.Rmanager.Step.{report, fires, end_job, job_step, on_job, live_step, step}
use go_test_cluster.Rmanager.Monitor.{
  At, Older, Earlier, find_job-fresh, remove_job-Older, Older-snoc, Earlier-suc, take_timer-fresh,
}

-- A request to repeat a monitor.
pub record IsMonitor (q : Request) : Type 0 where
  pub named : q.op ≡ codes "monitor"
  pub repeated : is_positive q.interval ≡ true

abbrev pub again : Request → Request
again q = record q { async = true }

monitor_op :
    (q : Request)
    → IsMonitor q
    → (bytes_eq q.op (codes "monitor") ≡ true)
      × (is_stop q.op ≡ false)
      × (int_eq q.interval (pos 0) ≡ false)
unfolding bytes_eq
monitor_op q h = (rw h.named refl, rw h.named refl, ground arith)

-- What `rscOp_ch` holds after a good result that was counted `count`.
abbrev pub reported : Execrsc → List Execrsc → List Execrsc
reported r ch = if is_positive r.count then ch else ch ++ r ∷ []

report_good :
    (q : Request) (pid count : ℤ) (m : Rman)
    → IsMonitor q
    → is_rsc_terminate q.rscid m.on_rsc ≡ false
    → (is_positive count ≡ true) ⊎ (length m.rsc_op_ch < rsc_op_cap)
    → let r = result q pid cl_ok none count in
      report_signal q (fin r) m ≡ some (record m { rsc_op_ch = reported r m.rsc_op_ch })
unfolding report_signal
report_good q pid count m h alive room = ground (arith, monitor_op q h)

pub record Recorded (q : Request) (m d : Rman) : Type 0 where
  pub armed : d.armed ≡ m.armed ++ (m.next_timer, again q) ∷ []
  pub next_timer : d.next_timer ≡ m.next_timer + 1
  pub unstopped : is_rsc_stop q.rscid d.on_rsc ≡ false
  pub live : is_rsc_terminate q.rscid d.on_rsc ≡ false
  pub counted : get_count q.rscid d.on_rsc ≡ pos 1
  pub rsc_op_ch : d.rsc_op_ch ≡ m.rsc_op_ch
  pub jobs : d.jobs ≡ m.jobs
  pub next_job : d.next_job ≡ m.next_job
  pub crashed : d.crashed ≡ m.crashed
  pub busy : d.busy ≡ m.busy

pub after_report-Recorded :
    (q : Request) (r : Execrsc) (m : Rman)
    → IsMonitor q
    → r.ret ≡ cl_ok
    → Recorded q m (after_report q r m)
unfolding after_report set_monitor
after_report-Recorded q r m h good =
    let first = result q (pos 0) (pos 0) none (pos 1) in
    let second = result q (pos 0) (pos 0) (some m.next_timer) (pos 1) in
    let t = record_rsc_op first m.on_rsc in
    ground (
      arith,
      monitor_op q h,
      h.repeated,
      (int_eq_iff q.rscid q.rscid).1 refl,
      is_rsc_stop-record q.rscid second t,
      is_rsc_terminate-record q.rscid second t,
      get_count-record q.rscid second t,
      set_rsc_terminate-other q.rscid q.op (record_rsc_op second t),
    )

-- The state after the report of a good result.
abbrev pub reported_to : ℕ → Request → Execrsc → Rman → Rman
reported_to i q r m = end_job i (after_report q r (record m { rsc_op_ch = reported r m.rsc_op_ch }))

pub report-step :
    (i : ℕ) (q : Request) (pid count : ℤ) (m : Rman)
    → IsMonitor q
    → At i q (finished (fin (result q pid cl_ok none count))) m
    → is_rsc_terminate q.rscid m.on_rsc ≡ false
    → (is_positive count ≡ true) ⊎ (length m.rsc_op_ch < rsc_op_cap)
    → step (report i) m ≡ some (reported_to i q (result q pid cl_ok none count) m)
unfolding step live_step on_job job_step wait_child
report-step i q pid count m h a live room =
    ground (arith, a.found, a.alive, report_good q pid count m h live room)

-- The state after the timer that the report has set.
abbrev pub repeated_to : ℕ → Request → Execrsc → Rman → Rman
repeated_to i q r m = exec_rsc_op (again q) (record (reported_to i q r m) { armed = m.armed })

pub fires-step :
    (i : ℕ) (q : Request) (r : Execrsc) (s : Stage) (m : Rman)
    → IsMonitor q
    → At i q s m
    → r.ret ≡ cl_ok
    → step (fires m.next_timer) (reported_to i q r m) ≡ some (repeated_to i q r m)
unfolding step live_step fire end_job
fires-step i q r s m h a good =
    let c = after_report-Recorded q r (record m { rsc_op_ch = reported r m.rsc_op_ch }) h good in
    ground (arith, c, a.alive, take_timer-fresh m.next_timer m.armed (again q) a.earlier)

-- The next round can begin: the resource is not marked as stopped, and its job is to start.
pub record IsReady (i : ℕ) (q : Request) (m : Rman) : Type 0 where
  pub at : At i q starting m
  pub live : is_rsc_terminate q.rscid m.on_rsc ≡ false

pub record Repeated (i : ℕ) (q : Request) (r : Execrsc) (m d : Rman) : Type 0 where
  pub ready : IsReady m.next_job (again q) d
  pub counted : get_count q.rscid d.on_rsc ≡ pos 1
  pub channel : d.rsc_op_ch ≡ reported r m.rsc_op_ch
  pub next_timer : d.next_timer ≡ m.next_timer + 1
  pub next_job : d.next_job ≡ m.next_job + 1

pub exec-again :
    (q : Request) (d : Rman)
    → IsMonitor q
    → exec_rsc_op (again q) d ≡ record d {
      jobs = d.jobs ++ record { id = d.next_job; req = again q; stage = starting } ∷ [];
      next_job = d.next_job + 1;
    }
unfolding exec_rsc_op exec_begin
exec-again q d h = rw ((monitor_op q h).2) refl

pub exec-At :
    (q : Request) (d : Rman)
    → IsMonitor q
    → d.crashed ≡ false
    → All (Older d.next_job) d.jobs
    → All (Earlier d.next_timer) d.armed
    → At d.next_job (again q) starting (exec_rsc_op (again q) d)
exec-At q d h alive older earlier =
    let job : Job = record { id = d.next_job; req = again q; stage = starting } in
    rw (exec-again q d h) (record {
      alive = alive;
      found = find_job-fresh d.next_job d.jobs job older refl;
      older = rw add-one (Older-snoc d.next_job d.jobs job older refl);
      earlier = earlier;
    })

pub repeated_to-Repeated :
    (i : ℕ) (q : Request) (r : Execrsc) (s : Stage) (m : Rman)
    → IsMonitor q
    → At i q s m
    → r.ret ≡ cl_ok
    → Repeated i q r m (repeated_to i q r m)
unfolding end_job
repeated_to-Repeated i q r s m h a good =
    let c = after_report-Recorded q r (record m { rsc_op_ch = reported r m.rsc_op_ch }) h good in
    let d = record (reported_to i q r m) { armed = m.armed } in
    let older : All (Older d.next_job) d.jobs =
      rw (c.next_job, c.jobs) (remove_job-Older m.next_job i m.jobs a.older) in
    let earlier : All (Earlier d.next_timer) d.armed =
      rw (c.next_timer, add-one) (Earlier-suc m.next_timer m.armed a.earlier) in
    let at : At d.next_job (again q) starting (exec_rsc_op (again q) d) =
      exec-At q d h (c.crashed ∙ a.alive) older earlier in
    record {
      ready = record {
        at = subst (λ n. At n (again q) starting (exec_rsc_op (again q) d)) c.next_job at;
        live = rw (exec-again q d h) c.live;
      };
      counted = rw (exec-again q d h) c.counted;
      channel = rw (exec-again q d h) c.rsc_op_ch;
      next_timer = rw (exec-again q d h) c.next_timer;
      next_job = rw (exec-again q d h) (ap (λ n. n + 1) c.next_job);
    }
