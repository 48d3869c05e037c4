-- ===== src/Rmanager/Numbers.antt =====
-- rmanager/: the numbers of jobs and timers, and what keeps them below the next ones.
use go_test_cluster.Prelude.{
  ℕ, suc, ◌<◌, ◌≡◌, refl, Bool, true, false, List, [], ◌∷◌, ◌++◌, Option, none, some, arith, All,
  Option-cases, Bool-cases, inl, inr, ◌==◌, if◌then◌else◌,
}
use go_test_cluster.Rmanager.Exec.{Request, Stage, Job, Rman}
use go_test_cluster.Rmanager.Step.{set_stage, remove_job, take_timer}
use go_test_cluster.Rmanager.Monitor.{Earlier}

-- Is there a job of this number?
unfoldable pub has_job : ℕ → List Job → Bool
has_job i [] = false
has_job i (job ∷ js) = let rest = has_job i js in if job.id == i then true else rest

-- The job for which the event loop waits is there.
abbrev pub IsAwaited : Option ℕ → List Job → Type 0
IsAwaited none js = Unit
IsAwaited (some i) js = has_job i js ≡ true

pub record IsSound (m : Rman) : Type 0 where
  pub older : All (λ (j : Job). j.id < m.next_job) m.jobs
  pub earlier : All (λ (t : ℕ × Request). t.0 < m.next_timer) m.armed
  pub awaited : IsAwaited m.busy m.jobs

pub has_job-snoc :
    (i : ℕ) (js : List Job) (job : Job)
    → has_job i (js ++ job ∷ []) ≡ (if job.id == i then true else has_job i js)
unfolding has_job
has_job-snoc i [] job = refl
has_job-snoc i (x ∷ js) job = ground (arith, has_job-snoc i js job)

pub has_job-set_stage :
    (i k : ℕ) (s : Stage) (js : List Job) → has_job i (set_stage k s js) ≡ has_job i js
unfolding has_job set_stage
has_job-set_stage i k s [] = refl
has_job-set_stage i k s (x ∷ js) = ground (arith, has_job-set_stage i k s js)

pub has_job-remove_job :
    (i k : ℕ) (js : List Job)
    → has_job i (remove_job k js) ≡ (if k == i then false else has_job i js)
unfolding has_job remove_job
has_job-remove_job i k [] = ground arith
has_job-remove_job i k (x ∷ js) = ground (arith, has_job-remove_job i k js)

pub Earlier-snoc :
    (n : ℕ) (ts : List (ℕ × Request)) (q : Request)
    → All (Earlier n) ts
    → All (Earlier (suc n)) (ts ++ (n, q) ∷ [])
Earlier-snoc n [] q h = (omega arith, tt)
Earlier-snoc n (t ∷ ts) q h = (omega arith, Earlier-snoc n ts q h.1)

pub take_timer-Earlier :
    (n t : ℕ) (ts : List (ℕ × Request)) (q : Request) (rest : List (ℕ × Request))
    → All (Earlier n) ts
    → take_timer t ts ≡ some (q, rest)
    → All (Earlier n) rest
unfolding take_timer
take_timer-Earlier n t [] q rest h e = cc
take_timer-Earlier n t ((i, p) ∷ ts) q rest h e = elim (Bool-cases (i == t)) [
  | inl this ↦ ground (arith, this, e, h)
  | inr other ↦ elim (Option-cases (take_timer t ts)) [
    | inl gone ↦ ground (arith, other, gone, e)
    | inr ((p', ts'), there) ↦
        ground (arith, other, there, e, h.0, take_timer-Earlier n t ts p' ts' h.1 there)
  ]
]

pub IsAwaited-snoc :
    (b : Option ℕ) (js : List Job) (job : Job) → IsAwaited b js → IsAwaited b (js ++ job ∷ [])
IsAwaited-snoc none js job h = tt
IsAwaited-snoc (some i) js job h = ground (arith, h, has_job-snoc i js job)
