-- ===== src/Rmanager/Refine.antt =====
-- rmanager/: the resource manager as a whole against its steps as a list.
use go_test_cluster.Prelude.{
  ◌≡◌, refl, sym, ◌∙◌, ap, Bool, true, false, List, [], ◌∷◌, ◌++◌, none, some, arith, All,
  get_elem-All, Option-cases, List-cases, inl, inr, ◌⊎◌,
}
use go_test_cluster.Chhandler.{ChannelHandlerData, Loop, set_channel_handler}
use go_test_cluster.Chhandler.Turn.{poll_step-IsServed}
use go_test_cluster.Rmanager.Table.{Execrsc}
use go_test_cluster.Rmanager.Exec.{Request, Rman, exec_rsc_op}
use go_test_cluster.Rmanager.Step.{Op, request, deliver, live_step}
use go_test_cluster.Rmanager.Step as Step
use go_test_cluster.Rmanager.Handlers.{Host, request_of, process_rsc_op_message}
use go_test_cluster.Rmanager.Process.{
  Process, Event, turn, signal, accept, aside, blocked, server_slot, message_slot, event_slot,
  channel_list, step, run,
}

-- The second state has crashed, or steps lead to it from the first.
abbrev pub Reaches : Rman → Rman → Type 0
Reaches c d = (d.crashed ≡ true) ⊎ ((os : List Op) × (d ≡ Step.run os c))

-- What a slot does is a step of the resource manager, none, or a crash.
abbrev IsStep : ChannelHandlerData Process → Type 0
IsStep f = (p d : Process) → blocked p ≡ false → f p ≡ some d → Reaches p.rman d.rman

stays : (c d : Rman) → d ≡ c → Reaches c d
unfolding Step.run
stays c d e = inr ([], e)

one_step : (o : Op) (c d : Rman) → Step.step o c ≡ some d → Reaches c d
unfolding Step.run
one_step o c d e = inr (o ∷ [], ground (arith, e))

pub free-idle : (p : Process) → blocked p ≡ false → (p.rman.crashed ≡ false) × (p.rman.busy ≡ none)
unfolding blocked
free-idle p free = elim (Option-cases p.rman.busy) [
  | inl idle ↦ (ground (arith, free), idle)
  | inr (i, waits) ↦ absurd (ground (arith, free, waits))
]

server-IsStep : (h : Host) → IsStep (server_slot h)
unfolding server_slot
server-IsStep h p d free e = elim (List-cases p.srv) [
  | inl empty ↦ absurd (ground (arith, empty, e))
  | inr (m, q, held) ↦ stays p.rman d.rman (ground (arith, held, e))
]

pub request-step :
    (q : Request) (m : Rman)
    → m.crashed ≡ false
    → m.busy ≡ none
    → Step.step (request q) m ≡ some (exec_rsc_op q m)
unfolding Step.step live_step
request-step q m lives idle = ground (arith, lives, idle)

message-IsStep : (h : Host) → IsStep (message_slot h)
unfolding message_slot process_rsc_op_message
message-IsStep h p d free e = elim (List-cases p.desk.requests) [
  | inl empty ↦ absurd (ground (arith, empty, e))
  | inr (v, vs, held) ↦ elim (Option-cases (request_of v)) [
    | inl broken ↦ inl (ground (arith, held, broken, e))
    | inr (q, asked) ↦
        let (lives, idle) = free-idle p free in
        let same : exec_rsc_op q p.rman ≡ d.rman = ground (arith, held, asked, e) in
        one_step (request q) p.rman d.rman (request-step q p.rman lives idle ∙ ap some same)
  ]
]

pub deliver-step :
    (m : Rman) {r : Execrsc} {q : List Execrsc}
    → m.crashed ≡ false
    → m.busy ≡ none
    → m.rsc_op_ch ≡ r ∷ q
    → Step.step deliver m ≡ some (record m { rsc_op_ch = q; sent = m.sent ++ r ∷ [] })
unfolding Step.step live_step
deliver-step m lives idle held = ground (arith, lives, idle, held)

event-IsStep : (h : Host) → IsStep (event_slot h)
unfolding event_slot
event-IsStep h p d free e = elim (List-cases p.rman.rsc_op_ch) [
  | inl empty ↦ absurd (ground (arith, empty, e))
  | inr (r, q, held) ↦
      let (lives, idle) = free-idle p free in
      let c : Rman = record p.rman { rsc_op_ch = q; sent = p.rman.sent ++ r ∷ [] } in
      let same : c ≡ d.rman = ground (arith, held, e) in
      one_step deliver p.rman d.rman (deliver-step p.rman lives idle held ∙ ap some same)
]

slots-IsStep : (h : Host) → All IsStep (channel_list h)
unfolding channel_list set_channel_handler
slots-IsStep h = (server-IsStep h, (message-IsStep h, (event-IsStep h, tt)))

turn-Reaches :
    (h : Host) (favour : Bool) (l d : Loop Process)
    → step h (turn favour) l ≡ some d
    → Reaches l.state.rman d.state.rman
unfolding step
turn-Reaches h favour l d e =
    let (free, served) = poll_step-IsServed blocked (channel_list h) favour l d e in
    elim served [
      | inl kept ↦ stays l.state.rman d.state.rman (ap (λ (p : Process). p.rman) kept)
      | inr (f, at, took) ↦
          get_elem-All IsStep (channel_list h) l.idx f (slots-IsStep h) at l.state d.state free took
    ]

aside-Reaches :
    (h : Host) (o : Op) (l d : Loop Process)
    → step h (aside o) l ≡ some d
    → Reaches l.state.rman d.state.rman
unfolding step
aside-Reaches h o l d e = elim (Option-cases (Step.step o l.state.rman)) [
  | inl stuck ↦ absurd (ground (arith, stuck, e))
  | inr (m, went) ↦
      let same : m ≡ d.state.rman = ground (arith, went, e) in
      one_step o l.state.rman d.state.rman (went ∙ ap some same)
]

step-Reaches :
    (h : Host) (e : Event) (l d : Loop Process)
    → step h e l ≡ some d
    → Reaches l.state.rman d.state.rman
unfolding step
step-Reaches h (turn favour) l d e = turn-Reaches h favour l d e
step-Reaches h (signal s) l d e = stays l.state.rman d.state.rman (ground arith)
step-Reaches h (accept m) l d e = stays l.state.rman d.state.rman (ground arith)
step-Reaches h (aside o) l d e = aside-Reaches h o l d e

run-crashed : (os : List Op) (m : Rman) → m.crashed ≡ true → (Step.run os m).crashed ≡ true
unfolding Step.run Step.step
run-crashed [] m h = h
run-crashed (o ∷ os) m h = ground (arith, h, run-crashed os m h)

run-append : (os ps : List Op) (m : Rman) → Step.run (os ++ ps) m ≡ Step.run ps (Step.run os m)
unfolding Step.run
run-append [] ps m = refl
run-append (o ∷ os) ps m = elim (Option-cases (Step.step o m)) [
  | inl e ↦ rw (e, Step.run) (run-append os ps m)
  | inr (d, e) ↦ rw (e, Step.run) (run-append os ps d)
]

Reaches-trans : (b c d : Rman) → Reaches b c → Reaches c d → Reaches b d
Reaches-trans b c d first (inl crashed) = inl crashed
Reaches-trans b c d (inl crashed) (inr (ps, k)) =
    inl (ap (λ (m : Rman). m.crashed) k ∙ run-crashed ps c crashed)
Reaches-trans b c d (inr (os, e)) (inr (ps, k)) =
    inr (os ++ ps, k ∙ ap (Step.run ps) e ∙ sym (run-append os ps b))

-- The resource manager as the program wires it, with its three channels polled in turn, signals and
-- connections, refines the steps of jobs, timers and event loop that are taken in any order: in
-- whatever way it runs, it has crashed, or its state is one that a list of such steps leads to.
pub run-Reaches :
    (h : Host) (es : List Event) (l : Loop Process)
    → ((run h es l).state.rman.crashed ≡ true)
      ⊎ ((os : List Op) × ((run h es l).state.rman ≡ Step.run os l.state.rman))
unfolding run
run-Reaches h [] l = stays l.state.rman l.state.rman refl
run-Reaches h (e ∷ es) l = elim (Option-cases (step h e l)) [
  | inl idle ↦ rw (idle, run) (run-Reaches h es l)
  | inr (d, went) ↦
      rw (went, run)
        (Reaches-trans l.state.rman d.state.rman (run h es d).state.rman (step-Reaches h e l d went)
          (run-Reaches h es d))
]
