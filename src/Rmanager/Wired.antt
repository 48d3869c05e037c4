-- ===== src/Rmanager/Wired.antt =====
-- rmanager/: the end of the event loop's wait, in the resource manager as the program wires it.
use go_test_cluster.Prelude.{
  ℕ, ◌≡◌, refl, sym, ◌∙◌, ap, subst, true, false, ltb, List, [], ◌∷◌, none, some, arith, All, map,
  length, Option-cases, inl, inr,
}
use go_test_cluster.Chhandler.{Loop}
use go_test_cluster.Rmanager.Exec.{Rman, rsc_op_cap, new}
use go_test_cluster.Rmanager.Step.{
  Op, request, deliver, start, exits, expires, report, sends, settles, fires, checks, calls,
}
use go_test_cluster.Rmanager.Step as Step
use go_test_cluster.Rmanager.Handlers.{Host}
use go_test_cluster.Rmanager.Waits.{Ended}
use go_test_cluster.Rmanager.Progress.{IsStepOf, run-wait_ends}
use go_test_cluster.Rmanager.Process.{Process, Event, aside, is_loop, step, run}
use go_test_cluster.Rmanager.Refine.{run-Reaches}

IsStepOf-aside : (i : ℕ) (o : Op) → IsStepOf i o → is_loop o ≡ false
IsStepOf-aside i (start j p) h = refl
IsStepOf-aside i (exits j ok) h = refl
IsStepOf-aside i (report j) h = refl
IsStepOf-aside i (sends j) h = refl
IsStepOf-aside i (settles j) h = refl
IsStepOf-aside i (request q) h = absurd h
IsStepOf-aside i deliver h = absurd h
IsStepOf-aside i (expires j) h = refl
IsStepOf-aside i (fires t) h = refl
IsStepOf-aside i (checks t) h = refl
IsStepOf-aside i (calls k) h = refl

abbrev with_rman : Loop Process → Rman → Loop Process
with_rman l m = record l { state = record l.state { rman = m } }

aside-stays :
    (h : Host) (o : Op) (l : Loop Process)
    → Step.step o l.state.rman ≡ none
    → step h (aside o) l ≡ none
unfolding step
aside-stays h o l e = ground (arith, e)

aside-moves :
    (h : Host) (o : Op) (l : Loop Process) (m : Rman)
    → is_loop o ≡ false
    → Step.step o l.state.rman ≡ some m
    → step h (aside o) l ≡ some (with_rman l m)
unfolding step
aside-moves h o l m beside e = ground (arith, beside, e)

-- Steps of a job beside the event loop change the jobs as they would by themselves.
asides-run :
    (h : Host) (i : ℕ) (os : List Op) (l : Loop Process)
    → All (IsStepOf i) os
    → (run h (map aside os) l).state.rman ≡ Step.run os l.state.rman
unfolding run Step.run
asides-run h i [] l own = refl
asides-run h i (o ∷ os) l own = elim (Option-cases (Step.step o l.state.rman)) [
  | inl stuck ↦ rw (aside-stays h o l stuck, run) rw (stuck, Step.run) (asides-run h i os l own.1)
  | inr (m, went) ↦
      rw (aside-moves h o l m (IsStepOf-aside i o own.0) went, run) rw (went, Step.run)
        (asides-run h i os (with_rman l m) own.1)
]

-- Whatever has happened in the resource manager as the program wires it, from its first state to one
-- in which it has not crashed: when the event loop waits there in a synchronous call for the job `i`,
-- and `rscOp_ch` has room for a result, then some steps of that job alone, beside the event loop
-- (its agent starts and exits, the result is reported), lead to a state that has not crashed and in
-- which the event loop no longer waits.
pub wired_wait_ends :
    (h : Host) (es : List Event) (l : Loop Process) (i : ℕ)
    → l.state.rman ≡ new
    → (run h es l).state.rman.busy ≡ some i
    → (run h es l).state.rman.crashed ≡ false
    → ltb (length (run h es l).state.rman.rsc_op_ch) rsc_op_cap ≡ true
    → (more : List Op) × (All (IsStepOf i) more)
      × Ended (run h (map aside more) (run h es l)).state.rman
wired_wait_ends h es l i first busy lives room = elim (run-Reaches h es l) [
  | inl crashed ↦ absurd (ground (arith, crashed, lives))
  | inr (os, e) ↦
      let d = run h es l in
      let same : d.state.rman ≡ Step.run os new = e ∙ ap (Step.run os) first in
      let (more, own, ended) =
        run-wait_ends os i (subst (λ (m : Rman). m.busy ≡ some i) same busy)
          (subst (λ (m : Rman). m.crashed ≡ false) same lives)
          (subst (λ (m : Rman). ltb (length m.rsc_op_ch) rsc_op_cap ≡ true) same room) in
      (more, own, subst Ended (sym (asides-run h i more d own ∙ ap (Step.run more) same)) ended)
]
