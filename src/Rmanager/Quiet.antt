-- ===== src/Rmanager/Quiet.antt =====
-- rmanager/rman.go: the state after a stop of a resource, and the steps that keep it.
use go_test_cluster.Prelude.{
  ℕ, zero, suc, ◌≡◌, ltb, ◌||◌, refl, true, false, ◌&&◌, List, [], ◌∷◌, ◌++◌, Option, none, some,
  arith, inl, inr, All, Option-cases, Bool-cases,
}
use go_test_cluster.Prelude.Int.{ℤ, pos, int_eq, int_eq_iff, is_positive}
use go_test_cluster.Rmanager.Table.{
  Execrsc, record_rsc_op, is_rsc_stop, is_rsc_stop-record, set_rsc_terminate-keeps,
}
use go_test_cluster.Rmanager.Exec.{
  Request, Signal, fin, timed_out, Stage, starting, told, Job, Rman, result, received, exec_rsc_op,
  fire, check_stop, launch, report_signal, after_report, wait_child,
}
use go_test_cluster.Rmanager.Step.{
  Op, request, deliver, start, exits, expires, report, sends, settles, fires, checks, calls,
  take_due, find_job, set_stage, remove_job, take_timer, end_job, job_step, on_job, live_step, step,
  run,
}
use go_test_cluster.Rmanager.Cases.{report_cases, settles_cases, sends_cases}

-- A call for another resource than this one.
abbrev pub IsApart : ℤ → Request → Type 0
IsApart rscid q = int_eq q.rscid rscid ≡ false

module _ (rscid : ℤ) (newest : ℕ) where
  -- A job of another resource, or one that is not repeated and whose number is at most `newest`.
  abbrev pub IsHarmless : Job → Type 0
  IsHarmless job =
      (int_eq job.req.rscid rscid && (is_positive job.req.interval || ltb newest job.id)) ≡ false

  -- The last operation of the resource is a stop, no repeated operation of it is under way, no
  -- job of it is newer, and no timer's call for it is due.
  pub record IsQuiet (m : Rman) : Type 0 where
    pub stopped : is_rsc_stop rscid m.on_rsc ≡ true
    pub harmless : All IsHarmless m.jobs
    pub due : All (IsApart rscid) m.due

  pub IsHarmless-snoc :
      (js : List Job) (job : Job)
      → All IsHarmless js
      → IsHarmless job
      → All IsHarmless (js ++ job ∷ [])
  IsHarmless-snoc [] job h p = (p, tt)
  IsHarmless-snoc (x ∷ js) job h p = (h.0, IsHarmless-snoc js job h.1 p)

  set_stage-IsHarmless :
      (i : ℕ) (s : Stage) (js : List Job) → All IsHarmless js → All IsHarmless (set_stage i s js)
  unfolding set_stage
  set_stage-IsHarmless i s [] h = tt
  set_stage-IsHarmless i s (x ∷ js) h = ground (arith, set_stage-IsHarmless i s js h.1)

  remove_job-IsHarmless :
      (i : ℕ) (js : List Job) → All IsHarmless js → All IsHarmless (remove_job i js)
  unfolding remove_job
  remove_job-IsHarmless i [] h = tt
  remove_job-IsHarmless i (x ∷ js) h = ground (arith, remove_job-IsHarmless i js h.1)

  find_job-IsHarmless :
      (i : ℕ) (js : List Job) {job : Job}
      → find_job i js ≡ some job
      → All IsHarmless js
      → IsHarmless job
  unfolding find_job
  find_job-IsHarmless i [] e h = cc
  find_job-IsHarmless i (x ∷ js) {job} e h =
      ground (arith, h.0, find_job-IsHarmless i js {job = job})

  -- `ExecRscOp` for another resource.
  exec-IsQuiet :
      (q : Request) (m : Rman)
      → int_eq q.rscid rscid ≡ false
      → IsQuiet m
      → IsQuiet (exec_rsc_op q m)
  unfolding exec_rsc_op
  exec-IsQuiet q m other v =
      let r = result q (pos 0) (pos 0) none (pos 0) in
      let job : Job = record { id = m.next_job; req = q; stage = starting } in
      ground (
        arith,
        int_eq_iff q.rscid rscid,
        is_rsc_stop-record rscid r m.on_rsc,
        IsHarmless-snoc m.jobs job v.harmless,
      )

  fire-IsQuiet : (q : Request) (m : Rman) → IsQuiet m → IsQuiet (fire q m)
  unfolding fire
  fire-IsQuiet q m v = elim (Bool-cases (is_rsc_stop q.rscid m.on_rsc)) [
    | inl still ↦ rw still v
    | inr gone ↦ rw gone (exec-IsQuiet q m (ground (arith, int_eq_iff q.rscid rscid, v.stopped)) v)
  ]

  IsApart-snoc :
      (qs : List Request) (q : Request)
      → All (IsApart rscid) qs
      → IsApart rscid q
      → All (IsApart rscid) (qs ++ q ∷ [])
  IsApart-snoc [] q h p = (p, tt)
  IsApart-snoc (x ∷ qs) q h p = (h.0, IsApart-snoc qs q h.1 p)

  check-IsQuiet : (q : Request) (m : Rman) → IsQuiet m → IsQuiet (check_stop q m)
  unfolding check_stop
  check-IsQuiet q m v = elim (Bool-cases (is_rsc_stop q.rscid m.on_rsc)) [
    | inl still ↦ rw still v
    | inr gone ↦ rw gone (record {
      stopped = v.stopped;
      harmless = v.harmless;
      due = IsApart-snoc m.due q v.due (ground (arith, int_eq_iff q.rscid rscid, v.stopped, gone));
    })
  ]

  take_due-IsApart :
      (k : ℕ) (qs : List Request) (q : Request) (rest : List Request)
      → take_due k qs ≡ some (q, rest)
      → All (IsApart rscid) qs
      → IsApart rscid q × All (IsApart rscid) rest
  unfolding take_due
  take_due-IsApart k [] q rest e h = cc
  take_due-IsApart zero (x ∷ qs) q rest e h = ground arith
  take_due-IsApart (suc k) (x ∷ qs) q rest e h = elim (Option-cases (take_due k qs)) [
    | inl missing ↦ absurd (ground (arith, missing, e))
    | inr ((p, others), found) ↦
        let (apart, all) = take_due-IsApart k qs p others found h.1 in
        ground (arith, found, e, apart, all, h.0)
  ]

  report_signal-keeps :
      (q : Request) (s : Signal) (m : Rman) {d : Rman}
      → report_signal q s m ≡ some d
      → (d.on_rsc ≡ m.on_rsc) × (d.jobs ≡ m.jobs) × (d.due ≡ m.due)
  unfolding report_signal
  report_signal-keeps q (fin r) m h = ground arith
  report_signal-keeps q (timed_out r) m h = ground arith

  after_report-keeps :
      (job : Job) (r : Execrsc) (m : Rman)
      → IsHarmless job
      → is_rsc_stop rscid m.on_rsc ≡ true
      → (is_rsc_stop rscid (after_report job.req r m).on_rsc ≡ true)
        × ((after_report job.req r m).jobs ≡ m.jobs)
        × ((after_report job.req r m).due ≡ m.due)
  unfolding after_report
  after_report-keeps job r m h v =
      let q = job.req in
      let first = result q (pos 0) (pos 0) none (pos 1) in
      let second = result q (pos 0) (pos 0) (some m.next_timer) (pos 1) in
      ground (
        arith,
        int_eq_iff q.rscid rscid,
        is_rsc_stop-record rscid first m.on_rsc,
        is_rsc_stop-record rscid second (record_rsc_op first m.on_rsc),
        set_rsc_terminate-keeps rscid q.rscid q.op m.on_rsc,
        set_rsc_terminate-keeps rscid q.rscid q.op
            (record_rsc_op second (record_rsc_op first m.on_rsc)),
      )

  wait_child-keeps :
      (job : Job) (s : Signal) (m : Rman) {d : Rman}
      → IsHarmless job
      → wait_child job.req s m ≡ some d
      → is_rsc_stop rscid m.on_rsc ≡ true
      → (is_rsc_stop rscid d.on_rsc ≡ true) × (d.jobs ≡ m.jobs) × (d.due ≡ m.due)
  unfolding wait_child
  wait_child-keeps job s m h e v = elim (Option-cases (report_signal job.req s m)) [
    | inl blocked ↦ ground arith
    | inr (d', done) ↦
        ground
          (arith, report_signal-keeps job.req s m done, after_report-keeps job (received s) d' h)
  ]

  launch-keeps :
      (q : Request) (p : Option ℤ) (m : Rman)
      → ((launch q p m).0.on_rsc ≡ m.on_rsc)
        × ((launch q p m).0.jobs ≡ m.jobs)
        × ((launch q p m).0.due ≡ m.due)
  unfolding launch
  launch-keeps q none m = (refl, refl, refl)
  launch-keeps q (some p) m = (refl, refl, refl)

  end-IsQuiet :
      (i : ℕ) (m d' : Rman) {d : Rman}
      → d ≡ end_job i d'
      → (is_rsc_stop rscid d'.on_rsc ≡ true) × (d'.jobs ≡ m.jobs) × (d'.due ≡ m.due)
      → IsQuiet m
      → IsQuiet d
  unfolding end_job
  end-IsQuiet i m d' last kept v = ground (arith, remove_job-IsHarmless i m.jobs v.harmless)

  job_step-IsQuiet :
      (o : Op) (job : Job) (m : Rman) {d : Rman}
      → IsHarmless job
      → job_step o job m ≡ some d
      → IsQuiet m
      → IsQuiet d
  unfolding job_step
  job_step-IsQuiet (start i p) job m h e v = ground (
    arith,
    launch-keeps job.req p m,
    set_stage-IsHarmless i (launch job.req p m).1 m.jobs v.harmless,
  )
  job_step-IsQuiet (exits i ok) job m h e v = grind (arith, set_stage-IsHarmless)
  job_step-IsQuiet (expires i) job m h e v = grind (arith, set_stage-IsHarmless)
  job_step-IsQuiet (report i) job m h e v =
      let (s, d', got, last) = report_cases i job m e in
      end-IsQuiet i m d' last (wait_child-keeps job s m h got v.stopped) v
  job_step-IsQuiet (sends i) job m h e v =
      let (s, c, got, last) = sends_cases i job m e in
      ground (
        arith,
        last,
        report_signal-keeps job.req s m got,
        set_stage-IsHarmless i (told (received s)) m.jobs v.harmless,
      )
  job_step-IsQuiet (settles i) job m h e v =
      let (r, last) = settles_cases i job m e in
      end-IsQuiet i m (after_report job.req r m) last (after_report-keeps job r m h v.stopped) v
  job_step-IsQuiet _ job m h e v = cc

  on_job-IsQuiet :
      (o : Op) (i : ℕ) (m : Rman) {d : Rman} → on_job o i m ≡ some d → IsQuiet m → IsQuiet d
  unfolding on_job
  on_job-IsQuiet o i m e v = elim (Option-cases (find_job i m.jobs)) [
    | inl missing ↦ ground arith
    | inr (job, found) ↦
        job_step-IsQuiet o job m (find_job-IsHarmless i m.jobs found v.harmless) (ground arith) v
  ]

  -- A step that is no request for the resource.
  abbrev pub IsOther : Op → Type 0
  IsOther (request q) = int_eq q.rscid rscid ≡ false
  IsOther _ = Unit {0}

  live_step-IsQuiet :
      (o : Op) (m : Rman) {d : Rman} → IsOther o → live_step o m ≡ some d → IsQuiet m → IsQuiet d
  unfolding live_step
  live_step-IsQuiet (request q) m i e v = ground (arith, exec-IsQuiet q m)
  live_step-IsQuiet deliver m i e v = ground arith
  live_step-IsQuiet (fires t) m i e v = elim (Option-cases (take_timer t m.armed)) [
    | inl missing ↦ ground arith
    | inr ((q, ts), found) ↦ ground (arith, fire-IsQuiet q (record m { armed = ts }))
  ]
  live_step-IsQuiet (checks t) m i e v = elim (Option-cases (take_timer t m.armed)) [
    | inl missing ↦ ground arith
    | inr ((q, ts), found) ↦ ground (arith, check-IsQuiet q (record m { armed = ts }))
  ]
  live_step-IsQuiet (calls k) m i e v = elim (Option-cases (take_due k m.due)) [
    | inl missing ↦ ground arith
    | inr ((q, rest), found) ↦
        let (apart, others) = take_due-IsApart k m.due q rest found v.due in
        ground (arith, exec-IsQuiet q (record m { due = rest }) apart)
  ]
  live_step-IsQuiet (start j p) m i e v = on_job-IsQuiet (start j p) j m e v
  live_step-IsQuiet (exits j ok) m i e v = on_job-IsQuiet (exits j ok) j m e v
  live_step-IsQuiet (expires j) m i e v = on_job-IsQuiet (expires j) j m e v
  live_step-IsQuiet (report j) m i e v = on_job-IsQuiet (report j) j m e v
  live_step-IsQuiet (sends j) m i e v = on_job-IsQuiet (sends j) j m e v
  live_step-IsQuiet (settles j) m i e v = on_job-IsQuiet (settles j) j m e v

  pub step-IsQuiet :
      (o : Op) (m : Rman) {d : Rman} → IsOther o → step o m ≡ some d → IsQuiet m → IsQuiet d
  unfolding step
  step-IsQuiet o m i e v = elim (Bool-cases m.crashed) [
    | inl dead ↦ ground arith
    | inr alive ↦ live_step-IsQuiet o m i (ground arith) v
  ]

  pub run-IsQuiet : (os : List Op) (m : Rman) → All IsOther os → IsQuiet m → IsQuiet (run os m)
  unfolding run
  run-IsQuiet [] m i v = v
  run-IsQuiet (o ∷ os) m i v = elim (Option-cases (step o m)) [
    | inl e ↦ rw (e, run) (run-IsQuiet os m i.1 v)
    | inr (d, e) ↦ rw (e, run) (run-IsQuiet os d i.1 (step-IsQuiet o m i.0 e v))
  ]
