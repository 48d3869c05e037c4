-- ===== src/Rmanager/OneShot.antt =====
-- rmanager/: a request that is not repeated, from the event loop to the result that it takes.
use go_test_cluster.Prelude.{
  ℕ, ◌+◌, ◌≡◌, refl, if◌then◌else◌, Bool, true, false, List, [], ◌∷◌, ◌++◌, none, some, arith, ◌∙◌,
  ap, subst,
}
use go_test_cluster.Prelude.Int.{ℤ, pos, int_eq, is_positive, is_negative}
use go_test_cluster.Consts.{cl_ok, cl_error}
use go_test_cluster.Rmanager.Table.{set_rsc_terminate, Execrsc, is_rsc_terminate, get_count}
use go_test_cluster.Rmanager.Exec.{
  Request, fin, finished, Rman, result, exec_rsc_op, report_signal, after_report, wait_child,
}
use go_test_cluster.Rmanager.Step.{
  Op, request, start, exits, report, deliver, end_job, job_step, on_job, live_step, step, run,
}
use go_test_cluster.Rmanager.Taken.{IsIdle, request-Taken}
use go_test_cluster.Rmanager.Monitor.{At, agent_ret, start-At, exits-At}

not_repeated : (q : Request) → int_eq q.interval (pos 0) ≡ true → is_positive q.interval ≡ false
not_repeated q once = ground arith

report_signal-once :
    (q : Request) (pid : ℤ) (ok : Bool) (m : Rman)
    → is_rsc_terminate q.rscid m.on_rsc ≡ false
    → m.rsc_op_ch ≡ []
    → let r = result q pid (agent_ret ok) none (pos 0) in
      report_signal q (fin r) m ≡ some (record m { rsc_op_ch = r ∷ [] })
unfolding report_signal
report_signal-once q pid ok m live drained = ground (arith, live, drained)

after_report-once :
    (q : Request) (r : Execrsc) (m : Rman)
    → int_eq q.interval (pos 0) ≡ true
    → after_report q r m ≡ record m { on_rsc = set_rsc_terminate q.rscid q.op m.on_rsc }
unfolding after_report
after_report-once q r m once = ground (arith, not_repeated q once)

-- The state after the report of a result that is not repeated.
abbrev pub answered_to : ℕ → Request → Execrsc → Rman → Rman
answered_to i q r m =
    end_job i (record m { rsc_op_ch = r ∷ []; on_rsc = set_rsc_terminate q.rscid q.op m.on_rsc })

report-answered :
    (q : Request) (pid : ℤ) (ok : Bool) (i : ℕ) (m : Rman)
    → int_eq q.interval (pos 0) ≡ true
    → At i q (finished (fin (result q pid (agent_ret ok) none (pos 0)))) m
    → is_rsc_terminate q.rscid m.on_rsc ≡ false
    → m.rsc_op_ch ≡ []
    → step (report i) m ≡ some (answered_to i q (result q pid (agent_ret ok) none (pos 0)) m)
unfolding step live_step on_job job_step wait_child
report-answered q pid ok i m once a live drained =
    let r = result q pid (agent_ret ok) none (pos 0) in
    ground (
      arith,
      a.found,
      a.alive,
      report_signal-once q pid ok m live drained,
      after_report-once q r (record m { rsc_op_ch = r ∷ [] }) once,
    )

pub deliver-answered :
    (q : Request) (r : Execrsc) (i : ℕ) (m : Rman)
    → m.crashed ≡ false
    → m.busy ≡ (if q.async then none else some i)
    → (d : Rman) × (step deliver (answered_to i q r m) ≡ some d)
      × (d.sent ≡ m.sent ++ r ∷ [])
      × (d.busy ≡ none)
unfolding step live_step end_job
deliver-answered q r i m alive waits =
    let e = answered_to i q r m in
    (
      record e { rsc_op_ch = []; sent = e.sent ++ r ∷ [] },
      ground (arith, alive, waits),
      refl,
      ground (arith, waits),
    )

run-step :
    (o : Op) (os : List Op) (m : Rman) {d : Rman} → step o m ≡ some d → run (o ∷ os) m ≡ run os d
unfolding run
run-step o os m e = rw (e, run) refl

run-nil : (m : Rman) → run [] m ≡ m
unfolding run
run-nil m = refl

-- The states on the way of a request that is not repeated, up to the report of its result.
pub record Course (q : Request) (pid : ℤ) (ok : Bool) (m : Rman) : Type 0 where
  pub taken : Rman
  pub started : Rman
  pub exited : Rman
  pub takes : step (request q) m ≡ some taken
  pub executes : exec_rsc_op q m ≡ taken
  pub starts : step (start m.next_job (some pid)) taken ≡ some started
  pub exits_ok : step (exits m.next_job ok) started ≡ some exited
  pub reports :
      step (report m.next_job) exited
      ≡ some (answered_to m.next_job q (result q pid (agent_ret ok) none (pos 0)) exited)
  pub at : At m.next_job q (finished (fin (result q pid (agent_ret ok) none (pos 0)))) exited
  pub live : is_rsc_terminate q.rscid exited.on_rsc ≡ false
  pub counted : get_count q.rscid exited.on_rsc ≡ pos 0
  pub going : exited.crashed ≡ false
  pub waits : exited.busy ≡ (if q.async then none else some m.next_job)
  pub sent : exited.sent ≡ m.sent
  pub next_job : exited.next_job ≡ m.next_job + 1

pub one_shot :
    (q : Request) (pid : ℤ) (ok : Bool) (m : Rman)
    → int_eq q.interval (pos 0) ≡ true
    → is_negative pid ≡ false
    → IsIdle m
    → Course q pid ok m
one_shot q pid ok m once forked idle =
    let n = m.next_job in
    let (a, e₁, x₁, t) = request-Taken q m once idle in
    let (b, e₂, at₂, k₂) = start-At n q pid a t.at forked in
    let (c, e₃, at₃, k₃) = exits-At n q pid ok b at₂ in
    let counted : get_count q.rscid b.on_rsc ≡ pos 0 =
      ap (get_count q.rscid) k₂.on_rsc ∙ t.counted in
    let at =
      subst (λ v. At n q (finished (fin (result q pid (agent_ret ok) none v))) c) counted at₃ in
    let live = ap (is_rsc_terminate q.rscid) (k₃.on_rsc ∙ k₂.on_rsc) ∙ t.live in
    record {
      at = at;
      live = live;
      counted = ap (get_count q.rscid) k₃.on_rsc ∙ counted;
      taken = a;
      started = b;
      exited = c;
      takes = e₁;
      executes = x₁;
      starts = e₂;
      exits_ok = e₃;
      reports = report-answered q pid ok n c once at live (k₃.rsc_op_ch ∙ k₂.rsc_op_ch ∙ t.drained);
      going = at.alive;
      waits = k₃.busy ∙ k₂.busy ∙ t.waits;
      sent = k₃.sent ∙ k₂.sent ∙ t.sent;
      next_job = k₃.next_job ∙ k₂.next_job ∙ t.next_job;
    }

-- Let the event loop take a request that is not repeated, in a state where it can and where no
-- result waits. When its agent has been started and has exited, and the waiting goroutine has
-- reported, the event loop takes the result: it has the number, the resource and the operation of
-- the request, CL_OK or CL_ERROR as the agent ended, and it is the only new one. The event loop is
-- free again, though a synchronous request had made it wait.
pub request_answered :
    (q : Request) (pid : ℤ) (ok : Bool) (m : Rman)
    → int_eq q.interval (pos 0) ≡ true
    → is_negative pid ≡ false
    → IsIdle m
    → let n = m.next_job in
      let e = run (request q ∷ start n (some pid) ∷ exits n ok ∷ report n ∷ deliver ∷ []) m in
      (e.sent ≡ m.sent ++ result q pid (if ok then cl_ok else cl_error) none (pos 0) ∷ [])
      × (e.busy ≡ none)
request_answered q pid ok m once forked idle =
    let n = m.next_job in
    let k = one_shot q pid ok m once forked idle in
    let r = result q pid (agent_ret ok) none (pos 0) in
    let (d, e₅, sent, free) = deliver-answered q r n k.exited k.going k.waits in
    let all =
      run-step (request q) (start n (some pid) ∷ exits n ok ∷ report n ∷ deliver ∷ []) m k.takes
      ∙ run-step (start n (some pid)) (exits n ok ∷ report n ∷ deliver ∷ []) k.taken k.starts
      ∙ run-step (exits n ok) (report n ∷ deliver ∷ []) k.started k.exits_ok
      ∙ run-step (report n) (deliver ∷ []) k.exited k.reports
      ∙ run-step deliver [] (answered_to n q r k.exited) e₅
      ∙ run-nil d in
    (
      ap (λ (x : Rman). x.sent) all ∙ sent ∙ ap (λ l. l ++ r ∷ []) k.sent,
      ap (λ (x : Rman). x.busy) all ∙ free,
    )
