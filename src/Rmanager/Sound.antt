-- ===== src/Rmanager/Sound.antt =====
-- rmanager/: the numbers of jobs and timers, and the job for which the event loop waits.
use go_test_cluster.Prelude.{
  ℕ, ◌<◌, ◌≡◌, refl, sym, subst, ◌∙◌, Bool, true, false, ◌&&◌, List, [], ◌∷◌, ◌++◌, Option, none,
  some, arith, All, Option-cases, Bool-cases, inl, inr, ◌==◌, if◌then◌else◌,
}
use native.Mathlib.Numerals.{add-one}
use go_test_cluster.Prelude.Int.{pos, int_eq, is_positive}
use go_test_cluster.Consts.{cl_ok}
use go_test_cluster.Rmanager.Table.{Execrsc, stop_timer, is_rsc_stop}
use go_test_cluster.Rmanager.Exec.{
  Request, Signal, fin, timed_out, Stage, starting, Job, Rman, exec_begin, exec_rsc_op, set_monitor,
  fire, check_stop, report_signal, after_report, wait_child, received,
}
use go_test_cluster.Rmanager.Step.{set_stage, remove_job, end_job}
use go_test_cluster.Rmanager.Monitor.{Older, Earlier, set_stage-Older, remove_job-Older, Older-snoc}
use go_test_cluster.Rmanager.Taken.{disarm-Earlier}
use go_test_cluster.Rmanager.Numbers.{
  IsAwaited, has_job-snoc, has_job-set_stage, has_job-remove_job, Earlier-snoc, IsAwaited-snoc,
  IsSound,
}

record Begun (m d : Rman) : Type 0 where
  jobs : d.jobs ≡ m.jobs
  next_job : d.next_job ≡ m.next_job
  next_timer : d.next_timer ≡ m.next_timer
  busy : d.busy ≡ m.busy
  earlier : All (Earlier m.next_timer) d.armed

exec_begin-Begun :
    (q : Request) (m : Rman) → All (Earlier m.next_timer) m.armed → Begun m (exec_begin q m)
unfolding exec_begin
exec_begin-Begun q m h =
    let rest = disarm-Earlier m.next_timer (stop_timer q.rscid q.op m.on_rsc) m.armed h in
    elim (Bool-cases (int_eq q.interval (pos 0))) [
      | inl once ↦
          rw once (record {
            jobs = refl;
            next_job = refl;
            next_timer = refl;
            busy = refl;
            earlier = rest;
          })
      | inr again ↦
          rw again
            (record { jobs = refl; next_job = refl; next_timer = refl; busy = refl; earlier = h })
    ]

IsAwaited-job :
    (b : Option ℕ) (n : ℕ) (sync : Bool) (js : List Job) (job : Job)
    → job.id ≡ n
    → IsAwaited b js
    → IsAwaited (if sync then b else some n) (js ++ job ∷ [])
IsAwaited-job b n true js job e h = IsAwaited-snoc b js job h
IsAwaited-job b n false js job e h = ground (arith, e, has_job-snoc n js job)

pub exec-IsSound : (q : Request) (m : Rman) → IsSound m → IsSound (exec_rsc_op q m)
unfolding exec_rsc_op
exec-IsSound q m v =
    let d = exec_begin q m in
    let b = exec_begin-Begun q m v.earlier in
    let job : Job = record { id = d.next_job; req = q; stage = starting } in
    let older : All (Older d.next_job) d.jobs =
      subst (λ n. All (Older n) d.jobs) (sym b.next_job)
        (subst (All (Older m.next_job)) (sym b.jobs) v.older) in
    let awaited : IsAwaited d.busy d.jobs =
      subst (λ o. IsAwaited o d.jobs) (sym b.busy)
        (subst (IsAwaited m.busy) (sym b.jobs) v.awaited) in
    record {
      older =
          subst (λ n. All (Older n) (d.jobs ++ job ∷ [])) (sym (add-one d.next_job))
            (Older-snoc d.next_job d.jobs job older refl);
      earlier = subst (λ n. All (Earlier n) d.armed) (sym b.next_timer) b.earlier;
      awaited = IsAwaited-job d.busy d.next_job q.async d.jobs job refl awaited;
    }

pub fire-IsSound : (q : Request) (m : Rman) → IsSound m → IsSound (fire q m)
unfolding fire
fire-IsSound q m v = elim (Bool-cases (is_rsc_stop q.rscid m.on_rsc)) [
  | inl stopped ↦ rw stopped v
  | inr live ↦ rw live (exec-IsSound q m v)
]

pub check-IsSound : (q : Request) (m : Rman) → IsSound m → IsSound (check_stop q m)
unfolding check_stop
check-IsSound q m v = elim (Bool-cases (is_rsc_stop q.rscid m.on_rsc)) [
  | inl stopped ↦ rw stopped v
  | inr live ↦ rw live (record { older = v.older; earlier = v.earlier; awaited = v.awaited })
]

report_signal-keeps :
    (q : Request) (s : Signal) (m : Rman) {d : Rman}
    → report_signal q s m ≡ some d
    → (d.jobs ≡ m.jobs)
      × (d.next_job ≡ m.next_job)
      × (d.busy ≡ m.busy)
      × (d.armed ≡ m.armed)
      × (d.next_timer ≡ m.next_timer)
unfolding report_signal
report_signal-keeps q (fin r) m e = ground arith
report_signal-keeps q (timed_out r) m e = ground arith

-- The report of a job leaves the jobs and the event loop's wait.
pub record Reported (m d : Rman) : Type 0 where
  pub jobs : d.jobs ≡ m.jobs
  pub next_job : d.next_job ≡ m.next_job
  pub busy : d.busy ≡ m.busy
  pub earlier : All (λ (t : ℕ × Request). t.0 < d.next_timer) d.armed

pub report_signal-IsSound :
    (q : Request) (s : Signal) (m d : Rman) → report_signal q s m ≡ some d → IsSound m → IsSound d
report_signal-IsSound q s m d e v =
    let (js, n, b, ts, t) = report_signal-keeps q s m e in
    record {
      older =
          subst (λ k. All (Older k) d.jobs) (sym n)
            (subst (All (Older m.next_job)) (sym js) v.older);
      earlier =
          subst (λ k. All (Earlier k) d.armed) (sym t)
            (subst (All (Earlier m.next_timer)) (sym ts) v.earlier);
      awaited =
          subst (λ o. IsAwaited o d.jobs) (sym b) (subst (IsAwaited m.busy) (sym js) v.awaited);
    }

pub after_report-Reported :
    (q : Request) (r : Execrsc) (m : Rman)
    → All (Earlier m.next_timer) m.armed
    → Reported m (after_report q r m)
unfolding after_report set_monitor
after_report-Reported q r m h = elim (Bool-cases (int_eq r.ret cl_ok && is_positive q.interval)) [
  | inl again ↦ rw again (record {
    jobs = refl;
    next_job = refl;
    busy = refl;
    earlier =
        subst (λ n. All (Earlier n) (m.armed ++ (m.next_timer, record q { async = true }) ∷ []))
          (sym (add-one m.next_timer))
          (Earlier-snoc m.next_timer m.armed (record q { async = true }) h);
  })
  | inr once ↦ rw once (record { jobs = refl; next_job = refl; busy = refl; earlier = h })
]

Reported-trans :
    (m d e : Rman)
    → (d.jobs ≡ m.jobs)
    → (d.next_job ≡ m.next_job)
    → (d.busy ≡ m.busy)
    → Reported d e
    → Reported m e
Reported-trans m d e js n b r = record {
  jobs = r.jobs ∙ js;
  next_job = r.next_job ∙ n;
  busy = r.busy ∙ b;
  earlier = r.earlier;
}

pub wait_child-Reported :
    (q : Request) (s : Signal) (m d : Rman)
    → All (Earlier m.next_timer) m.armed
    → wait_child q s m ≡ some d
    → Reported m d
unfolding wait_child
wait_child-Reported q s m d h e = elim (Option-cases (report_signal q s m)) [
  | inl blocked ↦ absurd (ground (arith, blocked, e))
  | inr (c, sent) ↦
      let (js, n, b, ts, t) = report_signal-keeps q s m sent in
      let h' : All (Earlier c.next_timer) c.armed =
        subst (λ k. All (Earlier k) c.armed) (sym t)
          (subst (All (Earlier m.next_timer)) (sym ts) h) in
      let done : after_report q (received s) c ≡ d = ground (arith, sent, e) in
      subst (Reported m) done (
        Reported-trans m c (after_report q (received s) c) js n b
          (after_report-Reported q (received s) c h'))
]

IsAwaited-set_stage :
    (b : Option ℕ) (i : ℕ) (s : Stage) (js : List Job)
    → IsAwaited b js
    → IsAwaited b (set_stage i s js)
IsAwaited-set_stage none i s js h = tt
IsAwaited-set_stage (some k) i s js h = has_job-set_stage k i s js ∙ h

-- The wait of the event loop behind the end of the job `i`.
abbrev freed : ℕ → Option ℕ → Option ℕ
freed i b = elim b [ none ↦ none | some k ↦ if k == i then none else some k ]

IsAwaited-remove_job :
    (b : Option ℕ) (i : ℕ) (js : List Job)
    → IsAwaited b js
    → IsAwaited (freed i b) (remove_job i js)
IsAwaited-remove_job none i js h = tt
IsAwaited-remove_job (some k) i js h = elim (Bool-cases (k == i)) [
  | inl this ↦ rw this tt
  | inr other ↦ rw other (ground (arith, other, h, has_job-remove_job k i js))
]

pub set_stage-IsSound :
    (i : ℕ) (s : Stage) (m : Rman) → IsSound m → IsSound (record m { jobs = set_stage i s m.jobs })
set_stage-IsSound i s m v = record {
  older = set_stage-Older m.next_job i s m.jobs v.older;
  earlier = v.earlier;
  awaited = IsAwaited-set_stage m.busy i s m.jobs v.awaited;
}

pub end-IsSound : (i : ℕ) (m d : Rman) → IsSound m → Reported m d → IsSound (end_job i d)
unfolding end_job
end-IsSound i m d v r =
    let older : All (Older d.next_job) d.jobs =
      subst (λ n. All (Older n) d.jobs) (sym r.next_job)
        (subst (All (Older m.next_job)) (sym r.jobs) v.older) in
    let awaited : IsAwaited d.busy d.jobs =
      subst (λ o. IsAwaited o d.jobs) (sym r.busy)
        (subst (IsAwaited m.busy) (sym r.jobs) v.awaited) in
    record {
      older = remove_job-Older d.next_job i d.jobs older;
      earlier = r.earlier;
      awaited = IsAwaited-remove_job d.busy i d.jobs awaited;
    }
