-- ===== src/Rmanager/Step.antt =====
-- rmanager/: the interleavings of the event loop, the jobs and the timers.
use go_test_cluster.Prelude.{
  ℕ, zero, suc, Bool, List, [], ◌∷◌, ◌++◌, Option, none, some, ◌==◌, if◌then◌else◌,
}
use go_test_cluster.Prelude.Int.{ℤ, int_eq}
use go_test_cluster.Consts.{cl_not_fork}
use go_test_cluster.Rmanager.Exec.{
  Request, Stage, starting, running, finished, fin, timed_out, Job, Rman, exec_rsc_op, fire,
  check_stop, launch, exit_signal, timeout_signal, wait_child, told, received, report_signal,
  after_report,
}

-- `request` is the event loop calling `ExecRscOp`, `deliver` its taking a result from `rscOp_ch`;
-- then come the steps of a job, by its number. `report` is all that
-- `waitChildFunc` does; `sends` is its part up to the send, and `settles` the rest. `fires` is the end of a timer's interval with the whole of
-- its function; `checks` is only the function's check, and `calls` makes one of the calls that are due.
pub data Op : Type 0 where
  request : Request → Op
  deliver : Op
  start : ℕ → Option ℤ → Op
  exits : ℕ → Bool → Op
  expires : ℕ → Op
  report : ℕ → Op
  sends : ℕ → Op
  settles : ℕ → Op
  fires : ℕ → Op
  checks : ℕ → Op
  calls : ℕ → Op

unfoldable pub find_job : ℕ → List Job → Option Job
find_job i [] = none
find_job i (job ∷ js) = if job.id == i then some job else find_job i js

unfoldable pub set_stage : ℕ → Stage → List Job → List Job
set_stage i s [] = []
set_stage i s (job ∷ js) =
    (if job.id == i then record job { stage = s } else job) ∷ set_stage i s js

unfoldable pub remove_job : ℕ → List Job → List Job
remove_job i [] = []
remove_job i (job ∷ js) = let rest = remove_job i js in if job.id == i then rest else job ∷ rest

unfoldable pub take_timer : ℕ → List (ℕ × Request) → Option (Request × List (ℕ × Request))
take_timer t [] = none
take_timer t ((i, q) ∷ ts) =
    let rest = take_timer t ts in
    if i == t
    then some (q, ts)
    else elim rest [ none ↦ none | some (q', ts') ↦ some (q', (i, q) ∷ ts') ]

-- One of the calls that are due, by its place, and the others.
unfoldable pub take_due : ℕ → List Request → Option (Request × List Request)
take_due k [] = none
take_due zero (q ∷ qs) = some (q, qs)
take_due (suc k) (q ∷ qs) = elim (take_due k qs) [
  | none ↦ none
  | some (p, rest) ↦ some (p, q ∷ rest)
]

-- The job is over; a synchronous call returns to the event loop.
unfoldable pub end_job : ℕ → Rman → Rman
unfolding remove_job
end_job i m = record m {
  jobs = remove_job i m.jobs;
  busy = elim m.busy [ none ↦ none | some b ↦ if b == i then none else some b ];
}

-- The step of a job at its stage; a step that the stage does not allow is `none`. Where the exit
-- and the timeout of an agent have both come, `select` takes either, so the later one may replace
-- the earlier. An agent that was not started neither exits nor expires.
unfoldable pub job_step : Op → Job → Rman → Option Rman
unfolding set_stage launch exit_signal end_job
job_step (start i p) job m = elim job.stage [
  | starting ↦ let (d, s) = launch job.req p m in some (record d { jobs = set_stage i s d.jobs })
  | _ ↦ none
]
job_step (exits i ok) job m = elim job.stage [
  | running pid ↦
      some (record m { jobs = set_stage i (finished (exit_signal job.req pid ok m)) m.jobs })
  | finished (timed_out r) ↦
      if int_eq r.ret cl_not_fork
      then none
      else some (record m { jobs = set_stage i (finished (exit_signal job.req r.pid ok m)) m.jobs })
  | _ ↦ none
]
job_step (expires i) job m = elim job.stage [
  | running pid ↦
      some (record m { jobs = set_stage i (finished (timeout_signal job.req pid)) m.jobs })
  | finished (fin r) ↦
      some (record m { jobs = set_stage i (finished (timeout_signal job.req r.pid)) m.jobs })
  | _ ↦ none
]
job_step (report i) job m = elim job.stage [
  | finished s ↦ elim (wait_child job.req s m) [ none ↦ none | some d ↦ some (end_job i d) ]
  | _ ↦ none
]
job_step (sends i) job m = elim job.stage [
  | finished s ↦ elim (report_signal job.req s m) [
    | none ↦ none
    | some d ↦ some (record d { jobs = set_stage i (told (received s)) d.jobs })
  ]
  | _ ↦ none
]
job_step (settles i) job m = elim job.stage [
  | told r ↦ some (end_job i (after_report job.req r m))
  | _ ↦ none
]
job_step _ job m = none

unfoldable pub on_job : Op → ℕ → Rman → Option Rman
unfolding find_job
on_job o i m = elim (find_job i m.jobs) [ none ↦ none | some job ↦ job_step o job m ]

-- While the event loop waits in a synchronous call it takes nothing from a channel. A crash ends
-- every goroutine.
unfoldable pub live_step : Op → Rman → Option Rman
unfolding on_job take_timer take_due
live_step (request q) m = elim m.busy [ none ↦ some (exec_rsc_op q m) | some _ ↦ none ]
live_step deliver m = elim m.busy [
  | none ↦ elim m.rsc_op_ch [
    | [] ↦ none
    | r ∷ ch ↦ some (record m { rsc_op_ch = ch; sent = m.sent ++ r ∷ [] })
  ]
  | some _ ↦ none
]
live_step (fires t) m = elim (take_timer t m.armed) [
  | none ↦ none
  | some (q, ts) ↦ some (fire q (record m { armed = ts }))
]
live_step (checks t) m = elim (take_timer t m.armed) [
  | none ↦ none
  | some (q, ts) ↦ some (check_stop q (record m { armed = ts }))
]
live_step (calls k) m = elim (take_due k m.due) [
  | none ↦ none
  | some (q, rest) ↦ some (exec_rsc_op q (record m { due = rest }))
]
live_step (start i p) m = on_job (start i p) i m
live_step (exits i ok) m = on_job (exits i ok) i m
live_step (expires i) m = on_job (expires i) i m
live_step (report i) m = on_job (report i) i m
live_step (sends i) m = on_job (sends i) i m
live_step (settles i) m = on_job (settles i) i m

unfoldable pub step : Op → Rman → Option Rman
unfolding live_step
step o m = if m.crashed then none else live_step o m

-- Any interleaving; a step that cannot be taken leaves the state as it is.
unfoldable pub run : List Op → Rman → Rman
run [] m = m
run (o ∷ os) m = run os (elim (step o m) [ none ↦ m | some d ↦ d ])
