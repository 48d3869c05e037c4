-- ===== src/Rmanager/Cases.antt =====
-- rmanager/: what a step of the report of a job has done.
use go_test_cluster.Prelude.{ℕ, ◌≡◌, Option, none, some, arith, inl, inr, Option-cases}
use go_test_cluster.Rmanager.Table.{Execrsc}
use go_test_cluster.Rmanager.Exec.{
  Signal, Stage, starting, running, finished, told, Job, Rman, received, report_signal,
  after_report, wait_child,
}
use go_test_cluster.Rmanager.Step.{report, sends, settles, set_stage, end_job, job_step}

pub report_cases :
    (i : ℕ) (job : Job) (m : Rman) {d : Rman}
    → job_step (report i) job m ≡ some d
    → (s : Signal) × (d' : Rman) × (wait_child job.req s m ≡ some d') × (d ≡ end_job i d')
unfolding job_step
report_cases i job m {d} h = at_stage job.stage h
  where
    at_stage :
        (st : Stage)
        → ◌≡◌ {A = Option Rman}
            (elim st [
              | finished s ↦ elim (wait_child job.req s m) [
                | none ↦ none
                | some e ↦ some (end_job i e)
              ]
              | _ ↦ none
            ])
            (some d)
        → (s : Signal) × (d' : Rman) × (wait_child job.req s m ≡ some d') × (d ≡ end_job i d')
    at_stage starting e = cc
    at_stage (running pid) e = cc
    at_stage (told r) e = cc
    at_stage (finished s) e = elim (Option-cases (wait_child job.req s m)) [
      | inl blocked ↦ ground arith
      | inr (d', done) ↦ (s, d', done, ground arith)
    ]

pub settles_cases :
    (i : ℕ) (job : Job) (m : Rman) {d : Rman}
    → job_step (settles i) job m ≡ some d
    → (r : Execrsc) × (d ≡ end_job i (after_report job.req r m))
unfolding job_step
settles_cases i job m {d} h = at_stage job.stage h
  where
    at_stage :
        (st : Stage)
        → ◌≡◌ {A = Option Rman}
            (elim st [ told r ↦ some (end_job i (after_report job.req r m)) | _ ↦ none ])
            (some d)
        → (r : Execrsc) × (d ≡ end_job i (after_report job.req r m))
    at_stage starting e = cc
    at_stage (running pid) e = cc
    at_stage (finished s) e = cc
    at_stage (told r) e = (r, ground arith)

pub sends_cases :
    (i : ℕ) (job : Job) (m : Rman) {d : Rman}
    → job_step (sends i) job m ≡ some d
    → (s : Signal) × (c : Rman) × (report_signal job.req s m ≡ some c)
      × (d ≡ record c { jobs = set_stage i (told (received s)) c.jobs })
unfolding job_step
sends_cases i job m {d} h = at_stage job.stage h
  where
    at_stage :
        (st : Stage)
        → ◌≡◌ {A = Option Rman}
            (elim st [
              | finished s ↦ elim (report_signal job.req s m) [
                | none ↦ none
                | some c ↦ some (record c { jobs = set_stage i (told (received s)) c.jobs })
              ]
              | _ ↦ none
            ])
            (some d)
        → (s : Signal) × (c : Rman) × (report_signal job.req s m ≡ some c)
          × (d ≡ record c { jobs = set_stage i (told (received s)) c.jobs })
    at_stage starting e = cc
    at_stage (running pid) e = cc
    at_stage (told r) e = cc
    at_stage (finished s) e = elim (Option-cases (report_signal job.req s m)) [
      | inl blocked ↦ ground arith
      | inr (c, done) ↦ (s, c, done, ground arith)
    ]
