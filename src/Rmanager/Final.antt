-- ===== src/Rmanager/Final.antt =====
-- rmanager/: a stop of a resource, in the resource manager as the program wires it.
use go_test_cluster.Prelude.{
  ℕ, ◌≡◌, sym, subst, Bool, false, List, [], ◌∷◌, ◌++◌, some, arith, All, get_elem-All,
  Option-cases, Bool-cases, inl, inr,
}
use go_test_cluster.Prelude.Int.{ℤ}
use go_test_cluster.Message.{MessageResourceControllRequest}
use go_test_cluster.Chhandler.{Loop}
use go_test_cluster.Chhandler.Turn.{poll_step-IsServed}
use go_test_cluster.Rmanager.Exec.{Rman}
use go_test_cluster.Rmanager.Step.{
  Op, request, deliver, start, exits, expires, report, sends, settles, fires, checks, calls,
}
use go_test_cluster.Rmanager.Step as Step
use go_test_cluster.Rmanager.Quiet.{IsOther, step-IsQuiet}
use go_test_cluster.Rmanager.Handlers.{Host}
use go_test_cluster.Rmanager.Process.{
  Process, Event, turn, signal, accept, aside, blocked, is_loop, channel_list, step, run,
}
use go_test_cluster.Rmanager.Stopped.{All-snoc, IsAside, IsStopped, IsKeeper, slots-IsKeeper}

-- No connection brings a request for the resource.
abbrev pub IsCalm : Host → ℤ → Event → Type 0
IsCalm h rscid (accept m) = IsAside h rscid m
IsCalm h rscid _ = Unit

module _ (h : Host) (rscid : ℤ) (newest : ℕ) where
  aside-IsOther : (o : Op) → is_loop o ≡ false → IsOther rscid newest o
  aside-IsOther (request q) e = cc
  aside-IsOther deliver e = tt
  aside-IsOther (start j p) e = tt
  aside-IsOther (exits j ok) e = tt
  aside-IsOther (expires j) e = tt
  aside-IsOther (report j) e = tt
  aside-IsOther (sends j) e = tt
  aside-IsOther (settles j) e = tt
  aside-IsOther (fires t) e = tt
  aside-IsOther (checks t) e = tt
  aside-IsOther (calls k) e = tt

  turn-IsStopped :
      (favour : Bool) (l d : Loop Process)
      → step h (turn favour) l ≡ some d
      → IsStopped h rscid newest l.state
      → IsStopped h rscid newest d.state
  unfolding step
  turn-IsStopped favour l d e v =
      let (free, served) = poll_step-IsServed blocked (channel_list h) favour l d e in
      elim served [
        | inl kept ↦ subst (IsStopped h rscid newest) (sym kept) v
        | inr (f, at, took) ↦
            get_elem-All (IsKeeper h rscid newest) (channel_list h) l.idx f
              (slots-IsKeeper h rscid newest) at l.state d.state free took v
      ]

  step-IsStopped :
      (e : Event) (l d : Loop Process)
      → IsCalm h rscid e
      → step h e l ≡ some d
      → IsStopped h rscid newest l.state
      → IsStopped h rscid newest d.state
  unfolding step
  step-IsStopped (turn favour) l d calm e v = turn-IsStopped favour l d e v
  step-IsStopped (signal s) l d calm e v =
      let same : l.state ≡ d.state = ground arith in subst (IsStopped h rscid newest) same v
  step-IsStopped (accept m) l d calm e v =
      let c : Process = record l.state { srv = l.state.srv ++ m ∷ [] } in
      let same : c ≡ d.state = ground arith in
      subst (IsStopped h rscid newest) same (record {
        quiet = v.quiet;
        requests = v.requests;
        srv = All-snoc (IsAside h rscid) l.state.srv m v.srv calm;
      })
  step-IsStopped (aside o) l d calm e v = elim (Bool-cases (is_loop o)) [
    | inl loops ↦ absurd (ground (arith, loops, e))
    | inr beside ↦ elim (Option-cases (Step.step o l.state.rman)) [
      | inl stuck ↦ absurd (ground (arith, beside, stuck, e))
      | inr (m, went) ↦
          let c : Process = record l.state { rman = m } in
          let same : c ≡ d.state = ground (arith, beside, went, e) in
          subst (IsStopped h rscid newest) same (record {
            quiet = step-IsQuiet rscid newest o l.state.rman (aside-IsOther o beside) went v.quiet;
            requests = v.requests;
            srv = v.srv;
          })
    ]
  ]

  pub run-IsStopped :
      (es : List Event) (l : Loop Process)
      → All (IsCalm h rscid) es
      → IsStopped h rscid newest l.state
      → IsStopped h rscid newest (run h es l).state
  unfolding run
  run-IsStopped [] l calm v = v
  run-IsStopped (e ∷ es) l calm v = elim (Option-cases (step h e l)) [
    | inl idle ↦ rw (idle, run) (run-IsStopped es l calm.1 v)
    | inr (d, went) ↦
        rw (went, run) (run-IsStopped es d calm.1 (step-IsStopped e l d calm.0 went v))
  ]

-- The process whose handler has taken the first request.
abbrev pub desk_with : Process → List MessageResourceControllRequest → Rman → Process
desk_with p vs m = record p { desk = record p.desk { requests = vs }; rman = m }
