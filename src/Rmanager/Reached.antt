-- ===== src/Rmanager/Reached.antt =====
-- rmanager/: the invariant of the event loop, the jobs and the timers, step by step.
use go_test_cluster.Prelude.{
  ℕ, ◌≡◌, refl, sym, subst, Bool, List, [], ◌∷◌, ◌++◌, Option, none, some, arith, Option-cases,
  List-cases, Bool-cases, inl, inr, ◌⊎◌,
}
use go_test_cluster.Prelude.Int.{ℤ}
use go_test_cluster.Rmanager.Table.{Execrsc}
use go_test_cluster.Rmanager.Exec.{
  Request, fin, timed_out, Stage, starting, running, finished, Job, Rman, exec_rsc_op, fire,
  check_stop, launch, exit_signal, timeout_signal, new, Signal, told, received, report_signal,
  after_report,
}
use go_test_cluster.Rmanager.Step.{
  Op, request, deliver, start, exits, expires, report, sends, settles, fires, checks, calls,
  find_job, set_stage, take_timer, take_due, job_step, on_job, live_step, step, run,
}
use go_test_cluster.Rmanager.Cases.{report_cases, settles_cases}
use go_test_cluster.Rmanager.Sound.{
  exec-IsSound, fire-IsSound, check-IsSound, wait_child-Reported, after_report-Reported,
  report_signal-IsSound, set_stage-IsSound, end-IsSound,
}
use go_test_cluster.Rmanager.Numbers.{IsSound, take_timer-Earlier}

Stage-cases :
    (s : Stage)
    → (s ≡ starting)
      ⊎ (((pid : ℤ) × (s ≡ running pid))
          ⊎ (((r : Execrsc) × (s ≡ finished (fin r)))
              ⊎ (((r : Execrsc) × (s ≡ finished (timed_out r))) ⊎ ((r : Execrsc) × (s ≡ told r)))))
Stage-cases starting = inl refl
Stage-cases (running pid) = inr (inl (pid, refl))
Stage-cases (finished (fin r)) = inr (inr (inl (r, refl)))
Stage-cases (finished (timed_out r)) = inr (inr (inr (inl (r, refl))))
Stage-cases (told r) = inr (inr (inr (inr (r, refl))))

launch-IsSound : (q : Request) (p : Option ℤ) (m : Rman) → IsSound m → IsSound (launch q p m).0
unfolding launch
launch-IsSound q none m v = record { older = v.older; earlier = v.earlier; awaited = v.awaited }
launch-IsSound q (some pid) m v = record {
  older = v.older;
  earlier = v.earlier;
  awaited = v.awaited;
}

-- A step of a job before its report moves it to another stage.
abbrev IsMoved : ℕ → Rman → Rman → Type 0
IsMoved i m d =
    (s : Stage) × (e : Rman) × (IsSound m → IsSound e)
    × (d ≡ record e { jobs = set_stage i s e.jobs })

start-IsMoved :
    (i : ℕ) (p : Option ℤ) (job : Job) (m d : Rman)
    → job_step (start i p) job m ≡ some d
    → IsMoved i m d
unfolding job_step
start-IsMoved i p job m d e =
    ((launch job.req p m).1, (launch job.req p m).0, launch-IsSound job.req p m, ground arith)

exits-IsMoved :
    (i : ℕ) (ok : Bool) (job : Job) (m d : Rman)
    → job_step (exits i ok) job m ≡ some d
    → IsMoved i m d
unfolding job_step
exits-IsMoved i ok job m d e = elim (Stage-cases job.stage) [
  | inl at ↦ absurd (ground (arith, at, e))
  | inr (inl (pid, at)) ↦
      (finished (exit_signal job.req pid ok m), m, λ v. v, ground (arith, at, e))
  | inr (inr (inl (r, at))) ↦ absurd (ground (arith, at, e))
  | inr (inr (inr (inl (r, at)))) ↦
      (finished (exit_signal job.req r.pid ok m), m, λ v. v, ground (arith, at, e))
  | inr (inr (inr (inr (r, at)))) ↦ absurd (ground (arith, at, e))
]

expires-IsMoved :
    (i : ℕ) (job : Job) (m d : Rman) → job_step (expires i) job m ≡ some d → IsMoved i m d
unfolding job_step
expires-IsMoved i job m d e = elim (Stage-cases job.stage) [
  | inl at ↦ absurd (ground (arith, at, e))
  | inr (inl (pid, at)) ↦ (finished (timeout_signal job.req pid), m, λ v. v, ground (arith, at, e))
  | inr (inr (inl (r, at))) ↦
      (finished (timeout_signal job.req r.pid), m, λ v. v, ground (arith, at, e))
  | inr (inr (inr (inl (r, at)))) ↦ absurd (ground (arith, at, e))
  | inr (inr (inr (inr (r, at)))) ↦ absurd (ground (arith, at, e))
]

sends-IsMoved : (i : ℕ) (job : Job) (m d : Rman) → job_step (sends i) job m ≡ some d → IsMoved i m d
unfolding job_step
sends-IsMoved i job m d e = at_stage (Stage-cases job.stage)
  where
    sent_by : (s : Signal) → job.stage ≡ finished s → IsMoved i m d
    sent_by s at = elim (Option-cases (report_signal job.req s m)) [
      | inl blocked ↦ absurd (ground (arith, at, blocked, e))
      | inr (c, sent) ↦ (
        told (received s),
        c,
        report_signal-IsSound job.req s m c sent,
        ground (arith, at, sent, e),
      )
    ]

    at_stage :
        (job.stage ≡ starting)
          ⊎ (((pid : ℤ) × (job.stage ≡ running pid))
              ⊎ (((r : Execrsc) × (job.stage ≡ finished (fin r)))
                  ⊎ (((r : Execrsc) × (job.stage ≡ finished (timed_out r)))
                      ⊎ ((r : Execrsc) × (job.stage ≡ told r)))))
        → IsMoved i m d
    at_stage (inl at) = absurd (ground (arith, at, e))
    at_stage (inr (inl (pid, at))) = absurd (ground (arith, at, e))
    at_stage (inr (inr (inl (r, at)))) = sent_by (fin r) at
    at_stage (inr (inr (inr (inl (r, at))))) = sent_by (timed_out r) at
    at_stage (inr (inr (inr (inr (r, at))))) = absurd (ground (arith, at, e))

moved-IsSound : (i : ℕ) (m d : Rman) → IsSound m → IsMoved i m d → IsSound d
moved-IsSound i m d v (s, e, sound, same) =
    subst IsSound (sym same) (set_stage-IsSound i s e (sound v))

job_step-IsSound :
    (o : Op) (job : Job) (m d : Rman) → job_step o job m ≡ some d → IsSound m → IsSound d
unfolding job_step
job_step-IsSound (start i p) job m d e v = moved-IsSound i m d v (start-IsMoved i p job m d e)
job_step-IsSound (exits i ok) job m d e v = moved-IsSound i m d v (exits-IsMoved i ok job m d e)
job_step-IsSound (expires i) job m d e v = moved-IsSound i m d v (expires-IsMoved i job m d e)
job_step-IsSound (report i) job m d e v =
    let (s, c, got, last) = report_cases i job m e in
    subst IsSound (sym last) (end-IsSound i m c v (wait_child-Reported job.req s m c v.earlier got))
job_step-IsSound (sends i) job m d e v = moved-IsSound i m d v (sends-IsMoved i job m d e)
job_step-IsSound (settles i) job m d e v =
    let (r, last) = settles_cases i job m e in
    subst IsSound (sym last)
      (end-IsSound i m (after_report job.req r m) v (after_report-Reported job.req r m v.earlier))
job_step-IsSound _ job m d e v = cc

on_job-IsSound : (o : Op) (i : ℕ) (m d : Rman) → on_job o i m ≡ some d → IsSound m → IsSound d
unfolding on_job
on_job-IsSound o i m d e v = elim (Option-cases (find_job i m.jobs)) [
  | inl missing ↦ absurd (ground (arith, missing, e))
  | inr (job, found) ↦ job_step-IsSound o job m d (ground (arith, found, e)) v
]

deliver-IsSound : (m d : Rman) → live_step deliver m ≡ some d → IsSound m → IsSound d
unfolding live_step
deliver-IsSound m d e v = elim (Option-cases m.busy) [
  | inr (k, waits) ↦ absurd (ground (arith, waits, e))
  | inl idle ↦ elim (List-cases m.rsc_op_ch) [
    | inl empty ↦ absurd (ground (arith, idle, empty, e))
    | inr (r, ch, held) ↦
        let c : Rman = record m { rsc_op_ch = ch; sent = m.sent ++ r ∷ [] } in
        let same : c ≡ d = ground (arith, idle, held, e) in
        subst IsSound same (record { older = v.older; earlier = v.earlier; awaited = v.awaited })
  ]
]

taken-IsSound :
    (t : ℕ) (q : Request) (ts : List (ℕ × Request)) (m : Rman)
    → take_timer t m.armed ≡ some (q, ts)
    → IsSound m
    → IsSound (record m { armed = ts })
taken-IsSound t q ts m found v = record {
  older = v.older;
  earlier = take_timer-Earlier m.next_timer t m.armed q ts v.earlier found;
  awaited = v.awaited;
}

live_step-IsSound : (o : Op) (m d : Rman) → live_step o m ≡ some d → IsSound m → IsSound d
unfolding live_step
live_step-IsSound (request q) m d e v =
    let same : exec_rsc_op q m ≡ d = ground (arith, e) in subst IsSound same (exec-IsSound q m v)
live_step-IsSound deliver m d e v = deliver-IsSound m d e v
live_step-IsSound (fires t) m d e v = elim (Option-cases (take_timer t m.armed)) [
  | inl missing ↦ absurd (ground (arith, missing, e))
  | inr ((q, ts), found) ↦
      let c : Rman = record m { armed = ts } in
      let same : fire q c ≡ d = ground (arith, found, e) in
      subst IsSound same (fire-IsSound q c (taken-IsSound t q ts m found v))
]
live_step-IsSound (checks t) m d e v = elim (Option-cases (take_timer t m.armed)) [
  | inl missing ↦ absurd (ground (arith, missing, e))
  | inr ((q, ts), found) ↦
      let c : Rman = record m { armed = ts } in
      let same : check_stop q c ≡ d = ground (arith, found, e) in
      subst IsSound same (check-IsSound q c (taken-IsSound t q ts m found v))
]
live_step-IsSound (calls k) m d e v = elim (Option-cases (take_due k m.due)) [
  | inl missing ↦ absurd (ground (arith, missing, e))
  | inr ((q, rest), found) ↦
      let c : Rman = record m { due = rest } in
      let same : exec_rsc_op q c ≡ d = ground (arith, found, e) in
      subst IsSound same
        (exec-IsSound q c (record { older = v.older; earlier = v.earlier; awaited = v.awaited }))
]
live_step-IsSound (start j p) m d e v = on_job-IsSound (start j p) j m d e v
live_step-IsSound (exits j ok) m d e v = on_job-IsSound (exits j ok) j m d e v
live_step-IsSound (expires j) m d e v = on_job-IsSound (expires j) j m d e v
live_step-IsSound (report j) m d e v = on_job-IsSound (report j) j m d e v
live_step-IsSound (sends j) m d e v = on_job-IsSound (sends j) j m d e v
live_step-IsSound (settles j) m d e v = on_job-IsSound (settles j) j m d e v

step-IsSound : (o : Op) (m d : Rman) → step o m ≡ some d → IsSound m → IsSound d
unfolding step
step-IsSound o m d e v = elim (Bool-cases m.crashed) [
  | inl crashed ↦ absurd (ground (arith, crashed, e))
  | inr lives ↦ live_step-IsSound o m d (ground (arith, lives, e)) v
]

-- Every step, of any kind and in any order, keeps a sound state: the numbers of the jobs and of
-- the armed timers are below the next ones, and the job for which the event loop waits in a
-- synchronous call is one of the jobs.
pub run-IsSound : (os : List Op) (m : Rman) → IsSound m → IsSound (run os m)
unfolding run
run-IsSound [] m v = v
run-IsSound (o ∷ os) m v = elim (Option-cases (step o m)) [
  | inl stays ↦ rw stays (run-IsSound os m v)
  | inr (d, moves) ↦ rw moves (run-IsSound os d (step-IsSound o m d moves v))
]

pub new-IsSound : IsSound new
unfolding new
new-IsSound = record { older = tt; earlier = tt; awaited = tt }
