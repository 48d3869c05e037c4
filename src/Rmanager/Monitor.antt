-- ===== src/Rmanager/Monitor.antt =====
-- rmanager/rman.go: the state of a repeated monitor between its rounds.
use go_test_cluster.Prelude.{
  Bool, if◌then◌else◌, ℕ, suc, ◌<◌, ◌≡◌, false, List, [], ◌∷◌, ◌++◌, none, some, arith, All,
}
use go_test_cluster.Prelude.Int.{ℤ, is_negative}
use go_test_cluster.Consts.{cl_ok, cl_error}
use go_test_cluster.Rmanager.Table.{get_count}
use go_test_cluster.Rmanager.Exec.{
  Request, fin, Stage, starting, running, finished, Job, Rman, result, launch, exit_signal,
}
use go_test_cluster.Rmanager.Step.{
  start, exits, find_job, set_stage, remove_job, take_timer, job_step, on_job, live_step, step,
}

abbrev pub Older : ℕ → Job → Type 0
Older n job = job.id < n

abbrev pub Earlier : ℕ → ℕ × Request → Type 0
Earlier n t = t.0 < n

find_job-set_stage :
    (i : ℕ) (s : Stage) (js : List Job) {job : Job}
    → find_job i js ≡ some job
    → find_job i (set_stage i s js) ≡ some (record job { stage = s })
unfolding find_job set_stage
find_job-set_stage i s [] h = cc
find_job-set_stage i s (x ∷ js) {job} h = ground (arith, find_job-set_stage i s js {job = job})

pub find_job-fresh :
    (n : ℕ) (js : List Job) (job : Job)
    → All (Older n) js
    → job.id ≡ n
    → find_job n (js ++ job ∷ []) ≡ some job
unfolding find_job
find_job-fresh n [] job h e = ground arith
find_job-fresh n (x ∷ js) job h e = ground (arith, find_job-fresh n js job h.1)

pub set_stage-Older :
    (n i : ℕ) (s : Stage) (js : List Job) → All (Older n) js → All (Older n) (set_stage i s js)
unfolding set_stage
set_stage-Older n i s [] h = tt
set_stage-Older n i s (x ∷ js) h = ground (arith, set_stage-Older n i s js h.1)

pub remove_job-Older :
    (n i : ℕ) (js : List Job) → All (Older n) js → All (Older n) (remove_job i js)
unfolding remove_job
remove_job-Older n i [] h = tt
remove_job-Older n i (x ∷ js) h = ground (arith, remove_job-Older n i js h.1)

pub Older-snoc :
    (n : ℕ) (js : List Job) (job : Job)
    → All (Older n) js
    → job.id ≡ n
    → All (Older (suc n)) (js ++ job ∷ [])
Older-snoc n [] job h e = (omega arith, tt)
Older-snoc n (x ∷ js) job h e = (omega arith, Older-snoc n js job h.1 e)

pub Earlier-suc : (n : ℕ) (ts : List (ℕ × Request)) → All (Earlier n) ts → All (Earlier (suc n)) ts
Earlier-suc n [] h = tt
Earlier-suc n (t ∷ ts) h = (omega arith, Earlier-suc n ts h.1)

pub take_timer-fresh :
    (n : ℕ) (ts : List (ℕ × Request)) (q : Request)
    → All (Earlier n) ts
    → take_timer n (ts ++ (n, q) ∷ []) ≡ some (q, ts)
unfolding take_timer
take_timer-fresh n [] q h = ground arith
take_timer-fresh n ((i, p) ∷ ts) q h = ground (arith, take_timer-fresh n ts q h.1)

-- The job `i` is at the stage `s`; job and timer numbers are new ones.
pub record At (i : ℕ) (q : Request) (s : Stage) (m : Rman) : Type 0 where
  pub alive : m.crashed ≡ false
  pub found : find_job i m.jobs ≡ some (record { id = i; req = q; stage = s })
  pub older : All (λ (j : Job). j.id < m.next_job) m.jobs
  pub earlier : All (λ (t : ℕ × Request). t.0 < m.next_timer) m.armed

-- What the start and the exit of an agent leave.
pub record Keeps (m d : Rman) : Type 0 where
  pub on_rsc : d.on_rsc ≡ m.on_rsc
  pub rsc_op_ch : d.rsc_op_ch ≡ m.rsc_op_ch
  pub next_timer : d.next_timer ≡ m.next_timer
  pub next_job : d.next_job ≡ m.next_job
  pub busy : d.busy ≡ m.busy
  pub sent : d.sent ≡ m.sent

pub start-At :
    (i : ℕ) (q : Request) (pid : ℤ) (m : Rman)
    → At i q starting m
    → is_negative pid ≡ false
    → (d : Rman) × (step (start i (some pid)) m ≡ some d) × At i q (running pid) d × Keeps m d
unfolding step live_step on_job job_step launch
start-At i q pid m a h =
    let e = (launch q (some pid) m).0 in
    (
      record e { jobs = set_stage i (running pid) m.jobs },
      ground (arith, a.found),
      ground (
        arith,
        find_job-set_stage i (running pid) m.jobs a.found,
        set_stage-Older m.next_job i (running pid) m.jobs a.older,
      ),
      ground arith,
    )

-- The return code of an agent that has exited.
abbrev pub agent_ret : Bool → ℤ
agent_ret ok = if ok then cl_ok else cl_error

pub exits-At :
    (i : ℕ) (q : Request) (pid : ℤ) (ok : Bool) (m : Rman)
    → At i q (running pid) m
    → (d : Rman) × (step (exits i ok) m ≡ some d)
      × At i q (finished (fin (result q pid (agent_ret ok) none (get_count q.rscid m.on_rsc)))) d
      × Keeps m d
unfolding step live_step on_job job_step exit_signal
exits-At i q pid ok m a =
    let s = finished (fin (result q pid (agent_ret ok) none (get_count q.rscid m.on_rsc))) in
    (
      record m { jobs = set_stage i s m.jobs },
      ground (arith, a.found),
      ground (
        arith,
        find_job-set_stage i s m.jobs a.found,
        set_stage-Older m.next_job i s m.jobs a.older,
      ),
      ground arith,
    )
