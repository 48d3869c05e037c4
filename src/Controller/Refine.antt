-- ===== src/Controller/Refine.antt =====
-- controller/: the controller as a whole against its event loop as a list of steps.
use go_test_cluster.Prelude.{
  ◌≡◌, refl, sym, ◌∙◌, ap, Bool, false, List, [], ◌∷◌, ◌++◌, some, arith, All, get_elem-All,
  Option-cases, inl, inr,
}
use go_test_cluster.Message.{MessageResourceControllRequest}
use go_test_cluster.Controller.Requests.{requests, requests_on_plan}
use go_test_cluster.Chhandler.{ChannelHandlerData, Loop, set_channel_handler}
use go_test_cluster.Chhandler.Turn.{poll_step-IsServed}
use go_test_cluster.Controller.Control.{
  Controll, Op, boot, take_status, take_client, incoming, returns, confchg, deliver, totemchg,
  reads, loop, loop_step, start_request, monitor_request,
}
use go_test_cluster.Controller.Control as Control
use go_test_cluster.Controller.Process.{
  Process, Host, Event, blocked, status_slot, server_slot, client_slot, confchg_slot, deliver_slot,
  totemchg_slot, quorumchg_slot, channel_list, step, run,
}

module _ (h : Host) where
  -- A step of the loop from the first control state leads to the second.
  abbrev Follows : Controll → Controll → Type 0
  Follows c d = (os : List Op) × (d ≡ Control.run h.json h.pid os c)

  -- What a slot does is a step of the loop, or none.
  abbrev IsStep : ChannelHandlerData Process → Type 0
  IsStep f =
      (p : Process) (d : Process) → blocked p ≡ false → f p ≡ some d → Follows p.control d.control

  status-IsStep : IsStep (status_slot h)
  unfolding blocked status_slot Control.run loop loop_step
  status-IsStep p d free e = (take_status ∷ [], ground arith)

  server-IsStep : IsStep (server_slot h)
  unfolding blocked server_slot Control.run
  server-IsStep p d free e = ([], ground arith)

  client-IsStep : IsStep (client_slot h)
  unfolding blocked client_slot Control.run loop loop_step
  client-IsStep p d free e = (take_client ∷ [], ground arith)

  confchg-IsStep : IsStep (confchg_slot h)
  unfolding blocked confchg_slot Control.run loop loop_step
  confchg-IsStep p d free e = (confchg (h.local_id p.asked) ∷ [], ground arith)

  deliver-IsStep : IsStep (deliver_slot h)
  unfolding blocked deliver_slot Control.run loop loop_step
  deliver-IsStep p d free e = (deliver (h.local_id p.asked) ∷ [], ground arith)

  totemchg-IsStep : IsStep (totemchg_slot h)
  unfolding blocked totemchg_slot Control.run loop loop_step
  totemchg-IsStep p d free e = (totemchg (h.local_id p.asked) ∷ [], ground arith)

  quorumchg-IsStep : IsStep (quorumchg_slot h)
  unfolding blocked quorumchg_slot Control.run
  quorumchg-IsStep p d free e = ([], ground arith)

  slots-IsStep : All IsStep (channel_list h)
  unfolding channel_list set_channel_handler
  slots-IsStep = (
    status-IsStep,
    (
      server-IsStep,
      (
        client-IsStep,
        (confchg-IsStep, (deliver-IsStep, (totemchg-IsStep, (quorumchg-IsStep, tt)))),
      ),
    ),
  )

  stays : (c d : Controll) → d ≡ c → Follows c d
  unfolding Control.run
  stays c d e = ([], e)

  turn-Follows :
      (favour : Bool) (l d : Loop Process)
      → step h (Event.turn favour) l ≡ some d
      → Follows l.state.control d.state.control
  unfolding step
  turn-Follows favour l d e =
      let (free, served) = poll_step-IsServed blocked (channel_list h) favour l d e in
      elim served [
        | inl kept ↦ stays l.state.control d.state.control (ap (λ (p : Process). p.control) kept)
        | inr (f, at, took) ↦
            get_elem-All IsStep (channel_list h) l.idx f slots-IsStep at l.state d.state free took
      ]

  step-Follows :
      (e : Event) (l d : Loop Process)
      → step h e l ≡ some d
      → Follows l.state.control d.state.control
  unfolding step Control.run loop loop_step
  step-Follows (Event.turn favour) l d e = turn-Follows favour l d e
  step-Follows (Event.signal s) l d e = ([], ground arith)
  step-Follows Event.boot l d e = (boot ∷ [], ground arith)
  step-Follows (Event.accept m) l d e = ([], ground arith)
  step-Follows (Event.incoming m) l d e = (incoming m ∷ [], ground arith)
  step-Follows (Event.returns m) l d e = (returns m ∷ [], ground arith)
  step-Follows (Event.confchg ms ls js) l d e = ([], ground arith)
  step-Follows (Event.deliver n p msg) l d e = ([], ground arith)
  step-Follows (Event.reads b) l d e = (reads b ∷ [], ground arith)
  step-Follows (Event.totemchg ms) l d e = ([], ground arith)
  step-Follows (Event.quorumchg q) l d e = ([], ground arith)

  control_run-append :
      (os ps : List Op) (c : Controll)
      → Control.run h.json h.pid (os ++ ps) c
        ≡ Control.run h.json h.pid ps (Control.run h.json h.pid os c)
  unfolding Control.run
  control_run-append [] ps c = refl
  control_run-append (o ∷ os) ps c = elim (Option-cases (loop h.json h.pid o c)) [
    | inl e ↦ rw (e, Control.run) (control_run-append os ps c)
    | inr (d, e) ↦ rw (e, Control.run) (control_run-append os ps d)
  ]

  Follows-trans : (b c d : Controll) → Follows b c → Follows c d → Follows b d
  Follows-trans b c d (os, e) (ps, k) =
      (os ++ ps, k ∙ ap (Control.run h.json h.pid ps) e ∙ sym (control_run-append os ps b))

  -- The controller as the program wires it, with its seven channels polled in turn, signals, clients
  -- and Corosync, refines the event loop that takes its steps in any order: whatever comes, its
  -- control state is one that a list of steps of that loop leads to.
  pub run-Follows :
      (es : List Event) (l : Loop Process)
      → (os : List Op) × ((run h es l).state.control ≡ Control.run h.json h.pid os l.state.control)
  unfolding run
  run-Follows [] l = stays l.state.control l.state.control refl
  run-Follows (e ∷ es) l = elim (Option-cases (step h e l)) [
    | inl idle ↦ rw (idle, run) (run-Follows es l)
    | inr (d, went) ↦
        rw (went, run)
          (Follows-trans l.state.control d.state.control (run h es d).state.control
            (step-Follows e l d went) (run-Follows es d))
  ]

  -- The requests of the controller, run as the program wires it from its first state, are on its plan: a beginning of
  -- the start of its resource under the number 1 and the monitor of it under the number 2.
  pub wired_requests_on_plan :
      (es : List Event) (l : Loop Process)
      → l.state.control ≡ Control.init
      → (rest : List MessageResourceControllRequest) × (requests (run h es l).state.control.calls
            ++ rest
          ≡ start_request 1 ∷ monitor_request 2 ∷ [])
  wired_requests_on_plan es l new =
      let (os, e) = run-Follows es l in
      let (rest, planned, bound, fewer) = requests_on_plan h.json h.pid os in
      let same : (run h es l).state.control ≡ Control.run h.json h.pid os Control.init =
        e ∙ ap (Control.run h.json h.pid os) new in
      (rest, ap (λ (c : Controll). requests c.calls ++ rest) same ∙ planned)
