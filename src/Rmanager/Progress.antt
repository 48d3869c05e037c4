-- ===== src/Rmanager/Progress.antt =====
-- rmanager/: the end of the event loop's wait in a synchronous `ExecRscOp`.
use go_test_cluster.Prelude.{
  ℕ, ◌≡◌, refl, sym, subst, ◌∙◌, true, false, ltb, List, [], ◌∷◌, some, arith, All, length,
}
use go_test_cluster.Prelude.Int.{ℤ, pos}
use go_test_cluster.Rmanager.Exec.{
  Signal, Stage, starting, running, finished, Job, Rman, rsc_op_cap, launch, wait_child,
  exit_signal, new, told, after_report,
}
use go_test_cluster.Rmanager.Step.{
  Op, start, exits, report, sends, settles, set_stage, end_job, job_step, live_step, run,
}
use go_test_cluster.Rmanager.Table.{Execrsc}
use go_test_cluster.Rmanager.Numbers.{IsAwaited}
use go_test_cluster.Rmanager.Reached.{run-IsSound, new-IsSound}
use go_test_cluster.Rmanager.Waits.{
  has_job-find_job, find_job-set_stage, wait_child-Keeps, after_report-Keeps, Ended, end_job-ends,
  run-step, step-on_job, Waits,
}

report_step :
    (i : ℕ) (job : Job) (s : Signal) (m d : Rman)
    → job.stage ≡ finished s
    → wait_child job.req s m ≡ some d
    → job_step (report i) job m ≡ some (end_job i d)
unfolding job_step
report_step i job s m d at done = ground (arith, at, done)

report-ends :
    (i : ℕ) (job : Job) (s : Signal) (m : Rman)
    → Waits i job (finished s) m
    → Ended (run (report i ∷ []) m)
unfolding live_step end_job run
report-ends i job s m w =
    let (d, done, k) = wait_child-Keeps job.req s m w.room in
    let taken =
      step-on_job (report i) i job m (end_job i d) w.lives refl w.found
        (report_step i job s m d w.at done) in
    subst Ended (sym (run-step (report i) [] m taken))
      (end_job-ends i d (k.busy ∙ w.busy), k.crashed ∙ w.lives)

settles_step :
    (i : ℕ) (job : Job) (r : Execrsc) (m : Rman)
    → job.stage ≡ told r
    → job_step (settles i) job m ≡ some (end_job i (after_report job.req r m))
unfolding job_step
settles_step i job r m at = ground (arith, at)

settles-ends :
    (i : ℕ) (job : Job) (r : Execrsc) (m : Rman)
    → Waits i job (told r) m
    → Ended (run (settles i ∷ []) m)
unfolding live_step end_job run
settles-ends i job r m w =
    let d = after_report job.req r m in
    let k = after_report-Keeps job.req r m in
    let taken =
      step-on_job (settles i) i job m (end_job i d) w.lives refl w.found
        (settles_step i job r m w.at) in
    subst Ended (sym (run-step (settles i) [] m taken))
      (end_job-ends i d (k.busy ∙ w.busy), k.crashed ∙ w.lives)

-- The job at another stage, with the event loop still waiting.
set_stage-Waits :
    (i : ℕ) (job : Job) (s t : Stage) (m : Rman)
    → Waits i job s m
    → Waits i (record job { stage = t }) t (record m { jobs = set_stage i t m.jobs })
set_stage-Waits i job s t m w = record {
  lives = w.lives;
  busy = w.busy;
  room = w.room;
  found = find_job-set_stage i t m.jobs job w.found;
  at = refl;
}

exits_step :
    (i : ℕ) (job : Job) (pid : ℤ) (m : Rman)
    → job.stage ≡ running pid
    → job_step (exits i true) job m
      ≡ some (record m { jobs = set_stage i (finished (exit_signal job.req pid true m)) m.jobs })
unfolding job_step
exits_step i job pid m at = ground (arith, at)

exits-ends :
    (i : ℕ) (job : Job) (pid : ℤ) (m : Rman)
    → Waits i job (running pid) m
    → Ended (run (exits i true ∷ report i ∷ []) m)
unfolding live_step
exits-ends i job pid m w =
    let s : Signal = exit_signal job.req pid true m in
    let d : Rman = record m { jobs = set_stage i (finished s) m.jobs } in
    let taken =
      step-on_job (exits i true) i job m d w.lives refl w.found (exits_step i job pid m w.at) in
    subst Ended (sym (run-step (exits i true) (report i ∷ []) m taken)) (
      report-ends i (record job { stage = finished s }) s d
        (set_stage-Waits i job (running pid) (finished s) m w))

launched : Job → Rman → Rman
launched job m = (launch job.req (some (pos 1)) m).0

start_step :
    (i : ℕ) (job : Job) (m : Rman)
    → job.stage ≡ starting
    → job_step (start i (some (pos 1))) job m
      ≡ some
          (record (launched job m) { jobs = set_stage i (running (pos 1)) (launched job m).jobs })
unfolding job_step launch launched
start_step i job m at = ground (arith, at)

launched-Waits :
    (i : ℕ) (job : Job) (s : Stage) (m : Rman) → Waits i job s m → Waits i job s (launched job m)
unfolding launch launched
launched-Waits i job s m w = record {
  lives = w.lives;
  busy = w.busy;
  room = w.room;
  found = w.found;
  at = w.at;
}

start-ends :
    (i : ℕ) (job : Job) (m : Rman)
    → Waits i job starting m
    → Ended (run (start i (some (pos 1)) ∷ exits i true ∷ report i ∷ []) m)
unfolding live_step
start-ends i job m w =
    let c = launched job m in
    let d : Rman = record c { jobs = set_stage i (running (pos 1)) c.jobs } in
    let taken =
      step-on_job (start i (some (pos 1))) i job m d w.lives refl w.found
        (start_step i job m w.at) in
    subst Ended (sym (run-step (start i (some (pos 1))) (exits i true ∷ report i ∷ []) m taken)) (
      exits-ends i (record job { stage = running (pos 1) }) (pos 1) d
        (set_stage-Waits i job starting (running (pos 1)) c (launched-Waits i job starting m w)))

-- A step of the job `i`: its agent starts or exits, or the result is reported.
abbrev pub IsStepOf : ℕ → Op → Type 0
IsStepOf i (start j p) = j ≡ i
IsStepOf i (exits j ok) = j ≡ i
IsStepOf i (report j) = j ≡ i
IsStepOf i (sends j) = j ≡ i
IsStepOf i (settles j) = j ≡ i
IsStepOf i _ = ⊥

stage_ends :
    (i : ℕ) (job : Job) (s : Stage) (m : Rman)
    → Waits i job s m
    → (os : List Op) × (All (IsStepOf i) os) × Ended (run os m)
stage_ends i job starting m w = (
  start i (some (pos 1)) ∷ exits i true ∷ report i ∷ [],
  (refl, (refl, (refl, tt))),
  start-ends i job m w,
)
stage_ends i job (running pid) m w =
    (exits i true ∷ report i ∷ [], (refl, (refl, tt)), exits-ends i job pid m w)
stage_ends i job (told r) m w = (settles i ∷ [], (refl, tt), settles-ends i job r m w)
stage_ends i job (finished s) m w = (report i ∷ [], (refl, tt), report-ends i job s m w)

-- Whatever steps have led from the start to a state that has not crashed: when the event loop
-- waits there in a synchronous call for the job `i`, and `rscOp_ch` has room for a result, then
-- some steps of that job alone (its agent starts and exits, the result is reported) lead to a
-- state that has not crashed and in which the event loop no longer waits.
pub run-wait_ends :
    (os : List Op) (i : ℕ)
    → (run os new).busy ≡ some i
    → (run os new).crashed ≡ false
    → ltb (length (run os new).rsc_op_ch) rsc_op_cap ≡ true
    → (more : List Op) × (All (IsStepOf i) more) × Ended (run more (run os new))
run-wait_ends os i busy lives room =
    let m = run os new in
    let v = run-IsSound os new new-IsSound in
    let (job, found) = has_job-find_job i m.jobs (subst (λ b. IsAwaited b m.jobs) busy v.awaited) in
    stage_ends i job job.stage m
      (record { lives = lives; busy = busy; room = room; found = found; at = refl })
