-- ===== src/Rmanager/Waits.antt =====
-- rmanager/: a job for which the event loop waits, and its report.
use go_test_cluster.Prelude.{
  ℕ, ◌≡◌, refl, ◌∙◌, true, false, ltb, List, [], ◌∷◌, ◌++◌, none, some, arith, ◌||◌, ◌&&◌, length,
  Bool-cases, inl, inr, ◌==◌,
}
use go_test_cluster.Prelude.Int.{is_positive, int_eq}
use go_test_cluster.Prelude.Channel.{push}
use go_test_cluster.Consts.{cl_ok}
use go_test_cluster.Rmanager.Table.{Execrsc, is_rsc_terminate}
use go_test_cluster.Rmanager.Exec.{
  Request, Signal, fin, timed_out, Stage, Job, Rman, rsc_op_cap, report_signal, after_report,
  wait_child, received, is_silent, set_monitor,
}
use go_test_cluster.Rmanager.Step.{
  Op, find_job, set_stage, end_job, job_step, on_job, live_step, step, run,
}
use go_test_cluster.Rmanager.Numbers.{has_job}

pub has_job-find_job :
    (i : ℕ) (js : List Job) → has_job i js ≡ true → (job : Job) × (find_job i js ≡ some job)
unfolding has_job find_job
has_job-find_job i [] h = cc
has_job-find_job i (x ∷ js) h = elim (Bool-cases (x.id == i)) [
  | inl this ↦ (x, ground (arith, this))
  | inr other ↦
      let (job, found) = has_job-find_job i js (ground (arith, other, h)) in
      (job, ground (arith, other, found))
]

pub find_job-set_stage :
    (i : ℕ) (s : Stage) (js : List Job) (job : Job)
    → find_job i js ≡ some job
    → find_job i (set_stage i s js) ≡ some (record job { stage = s })
unfolding find_job set_stage
find_job-set_stage i s [] job h = cc
find_job-set_stage i s (x ∷ js) job h = elim (Bool-cases (x.id == i)) [
  | inl this ↦ ground (arith, this, h)
  | inr other ↦ ground (arith, other, h, find_job-set_stage i s js job)
]

-- The event loop waits for a job `i` that has this number and stage, and `rscOp_ch` has room.
pub record Waits (i : ℕ) (job : Job) (s : Stage) (m : Rman) : Type 0 where
  pub lives : m.crashed ≡ false
  pub busy : m.busy ≡ some i
  pub room : ltb (length m.rsc_op_ch) rsc_op_cap ≡ true
  pub found : find_job i m.jobs ≡ some job
  pub at : job.stage ≡ s

-- A step of the job that neither ends the wait nor crashes.
pub record Keeps (m d : Rman) : Type 0 where
  pub busy : d.busy ≡ m.busy
  pub crashed : d.crashed ≡ m.crashed

pushed :
    (r : Execrsc) (m : Rman)
    → ltb (length m.rsc_op_ch) rsc_op_cap ≡ true
    → push rsc_op_cap r m.rsc_op_ch ≡ some (m.rsc_op_ch ++ r ∷ [])
pushed r m room = rw room refl

report_signal-Keeps :
    (q : Request) (s : Signal) (m : Rman)
    → ltb (length m.rsc_op_ch) rsc_op_cap ≡ true
    → (d : Rman) × (report_signal q s m ≡ some d) × Keeps m d
unfolding report_signal
report_signal-Keeps q (fin r) m room =
    elim (Bool-cases (is_rsc_terminate r.rscid m.on_rsc || is_silent q r)) [
      | inl quiet ↦ (m, rw quiet refl, record { busy = refl; crashed = refl })
      | inr told ↦ (
        record m { rsc_op_ch = m.rsc_op_ch ++ r ∷ [] },
        rw (told, room) refl,
        record { busy = refl; crashed = refl },
      )
    ]
report_signal-Keeps q (timed_out r) m room = (
  record m { rsc_op_ch = m.rsc_op_ch ++ r ∷ []; killed = m.killed ++ r.pid ∷ [] },
  ground (arith, room),
  record { busy = refl; crashed = refl },
)

pub after_report-Keeps : (q : Request) (r : Execrsc) (m : Rman) → Keeps m (after_report q r m)
unfolding after_report set_monitor
after_report-Keeps q r m = elim (Bool-cases (int_eq r.ret cl_ok && is_positive q.interval)) [
  | inl again ↦ rw again (record { busy = refl; crashed = refl })
  | inr once ↦ rw once (record { busy = refl; crashed = refl })
]

pub wait_child-Keeps :
    (q : Request) (s : Signal) (m : Rman)
    → ltb (length m.rsc_op_ch) rsc_op_cap ≡ true
    → (d : Rman) × (wait_child q s m ≡ some d) × Keeps m d
unfolding wait_child
wait_child-Keeps q s m room =
    let (c, sent, k) = report_signal-Keeps q s m room in
    let l = after_report-Keeps q (received s) c in
    (
      after_report q (received s) c,
      ground (arith, sent),
      record { busy = l.busy ∙ k.busy; crashed = l.crashed ∙ k.crashed },
    )

-- The wait is over and the resource manager has not crashed.
abbrev pub Ended : Rman → Type 0
Ended d = (d.busy ≡ none) × (d.crashed ≡ false)

pub end_job-ends : (i : ℕ) (m : Rman) → m.busy ≡ some i → (end_job i m).busy ≡ none
unfolding end_job
end_job-ends i m h = ground (arith, h)

pub run-step :
    (o : Op) (os : List Op) (m : Rman) {d : Rman} → step o m ≡ some d → run (o ∷ os) m ≡ run os d
unfolding run
run-step o os m h = rw h refl

pub step-on_job :
    (o : Op) (i : ℕ) (job : Job) (m d : Rman)
    → m.crashed ≡ false
    → live_step o m ≡ on_job o i m
    → find_job i m.jobs ≡ some job
    → job_step o job m ≡ some d
    → step o m ≡ some d
unfolding step on_job
step-on_job o i job m d lives on found h = ground (arith, lives, on, found, h)
