-- ===== src/Rmanager/Taken.antt =====
-- rmanager/: a request that is not repeated, as the event loop takes it.
use go_test_cluster.Prelude.{
  ℕ, ◌+◌, ◌<◌, ◌≡◌, refl, if◌then◌else◌, true, false, List, [], ◌∷◌, ◌++◌, Option, none, some,
  arith, All, ◌==◌, Bool-cases, inl, inr, ◌∙◌, ap, sym, subst,
}
use native.Mathlib.Numerals.{add-one}
use go_test_cluster.Prelude.Int.{pos, int_eq, int_eq_iff}
use go_test_cluster.Rmanager.Table.{
  is_rsc_terminate, get_count, is_rsc_terminate-record, get_count-record, record_rsc_op, stop_timer,
}
use go_test_cluster.Rmanager.Exec.{
  Request, starting, Job, Rman, result, disarm, exec_rsc_op, exec_begin,
}
use go_test_cluster.Rmanager.Step.{request, live_step, step}
use go_test_cluster.Rmanager.Monitor.{At, Older, Earlier, find_job-fresh, Older-snoc}

-- The state in which the event loop can take a request.
pub record IsIdle (m : Rman) : Type 0 where
  pub alive : m.crashed ≡ false
  pub free : m.busy ≡ none
  pub drained : m.rsc_op_ch ≡ []
  pub older : All (λ (j : Job). j.id < m.next_job) m.jobs
  pub earlier : All (λ (t : ℕ × Request). t.0 < m.next_timer) m.armed

pub disarm-Earlier :
    (n : ℕ) (t : Option ℕ) (ts : List (ℕ × Request))
    → All (Earlier n) ts
    → All (Earlier n) (disarm t ts)
unfolding disarm
disarm-Earlier n none ts h = h
disarm-Earlier n (some t) [] h = tt
disarm-Earlier n (some t) ((i, q) ∷ ts) h = elim (Bool-cases (i == t)) [
  | inl this ↦ rw this (disarm-Earlier n (some t) ts h.1)
  | inr other ↦ rw other (h.0, disarm-Earlier n (some t) ts h.1)
]

-- The job of a request that is not repeated, with what its record in the table says.
pub record Taken (q : Request) (m d : Rman) : Type 0 where
  pub at : At m.next_job q starting d
  pub live : is_rsc_terminate q.rscid d.on_rsc ≡ false
  pub counted : get_count q.rscid d.on_rsc ≡ pos 0
  pub drained : d.rsc_op_ch ≡ []
  pub sent : d.sent ≡ m.sent
  pub next_job : d.next_job ≡ m.next_job + 1
  pub waits : d.busy ≡ (if q.async then none else some m.next_job)

exec_begin-once :
    (q : Request) (m : Rman)
    → int_eq q.interval (pos 0) ≡ true
    → exec_begin q m ≡ record m {
      armed = disarm (stop_timer q.rscid q.op m.on_rsc) m.armed;
      on_rsc = record_rsc_op (result q (pos 0) (pos 0) none (pos 0)) m.on_rsc;
    }
unfolding exec_begin
exec_begin-once q m once = rw once refl

pub exec-once :
    (q : Request) (m : Rman)
    → int_eq q.interval (pos 0) ≡ true
    → exec_rsc_op q m ≡ record m {
      armed = disarm (stop_timer q.rscid q.op m.on_rsc) m.armed;
      on_rsc = record_rsc_op (result q (pos 0) (pos 0) none (pos 0)) m.on_rsc;
      jobs = m.jobs ++ record { id = m.next_job; req = q; stage = starting } ∷ [];
      next_job = m.next_job + 1;
      busy = if q.async then m.busy else some m.next_job;
    }
unfolding exec_rsc_op
exec-once q m once =
    ap
      (λ (d : Rman).
        let e : Rman = record d {
          jobs = d.jobs ++ record { id = d.next_job; req = q; stage = starting } ∷ [];
          next_job = d.next_job + 1;
          busy = if q.async then d.busy else some d.next_job;
        } in
        e)
      (exec_begin-once q m once)

request-step : (q : Request) (m : Rman) → IsIdle m → step (request q) m ≡ some (exec_rsc_op q m)
unfolding step live_step
request-step q m h = ground (arith, h.alive, h.free)

pub request-Taken :
    (q : Request) (m : Rman)
    → int_eq q.interval (pos 0) ≡ true
    → IsIdle m
    → (d : Rman) × (step (request q) m ≡ some d) × (exec_rsc_op q m ≡ d) × Taken q m d
request-Taken q m once h =
    let r = result q (pos 0) (pos 0) none (pos 0) in
    let job : Job = record { id = m.next_job; req = q; stage = starting } in
    let own = (int_eq_iff q.rscid q.rscid).1 refl in
    let ts = disarm (stop_timer q.rscid q.op m.on_rsc) m.armed in
    let d : Rman = record m {
      armed = ts;
      on_rsc = record_rsc_op r m.on_rsc;
      jobs = m.jobs ++ job ∷ [];
      next_job = m.next_job + 1;
      busy = if q.async then m.busy else some m.next_job;
    } in
    (
      d,
      request-step q m h ∙ ap some (exec-once q m once),
      exec-once q m once,
      record {
        at = record {
          alive = h.alive;
          found = find_job-fresh m.next_job m.jobs job h.older refl;
          older =
              subst (λ n. All (Older n) (m.jobs ++ job ∷ [])) (sym (add-one m.next_job))
                (Older-snoc m.next_job m.jobs job h.older refl);
          earlier =
              disarm-Earlier m.next_timer (stop_timer q.rscid q.op m.on_rsc) m.armed h.earlier;
        };
        live = is_rsc_terminate-record q.rscid r m.on_rsc ∙ rw own refl;
        counted = get_count-record q.rscid r m.on_rsc ∙ rw own refl;
        drained = h.drained;
        sent = refl;
        next_job = refl;
        waits = rw h.free refl;
      },
    )
