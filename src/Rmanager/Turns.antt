-- ===== src/Rmanager/Turns.antt =====
-- rmanager/main.go: the turns of the event loop at the places of its three channels.
use go_test_cluster.Prelude.{
  ℕ, ◌≡◌, refl, ap, ◌∙◌, if◌then◌else◌, Bool, false, List, [], ◌∷◌, ◌++◌, none, some, arith,
  int_key,
}
use go_test_cluster.Message.{MessageResourceControllRequest, IsRequestCoded, message_id_resource}
use go_test_cluster.Ipcs.{Received, client}
use go_test_cluster.Chhandler.{
  ChannelHandlerData, ChannelLists, Loop, poll_step, set_channel_handler,
}
use go_test_cluster.Chhandler as Chhandler
use go_test_cluster.Chhandler.Turn.{poll_step-free}
use go_test_cluster.Chhandler.Pass.{serve_once, poll-quiet}
use go_test_cluster.Rmanager.Table.{Execrsc}
use go_test_cluster.Rmanager.Exec.{Request, Rman, exec_rsc_op}
use go_test_cluster.Rmanager.Step.{Op, request, start, exits, report, deliver, end_job}
use go_test_cluster.Rmanager.Step as Step
use go_test_cluster.Rmanager.OneShot.{answered_to}
use go_test_cluster.Rmanager.Handlers.{
  Desk, Host, request_of, process_ipc_srv_message, process_rsc_op_message, process_rsc_op_event,
  resource_request_arrives,
}
use go_test_cluster.Rmanager.Process.{
  Process, server_slot, message_slot, event_slot, channel_list, blocked, Event, turn, accept, aside,
  is_loop, step, run,
}

pub run-step :
    (h : Host) (e : Event) (es : List Event) (l : Loop Process) {d : Loop Process}
    → step h e l ≡ some d
    → run h (e ∷ es) l ≡ run h es d
unfolding run
run-step h e es l went = rw (went, run) refl

pub run-nil : (h : Host) (l : Loop Process) → run h [] l ≡ l
unfolding run
run-nil h l = refl

-- The event loop at the place `i`, with nothing in the way.
abbrev pub at_place : ℕ → Process → Loop Process → Loop Process
at_place i p l = record l { idx = i; state = p }

module _ (h : Host) (l : Loop Process) (quiet : l.signal_ch ≡ []) (going : l.hung ≡ false) where
  free-step :
      (b : Bool) (i : ℕ) (p : Process) (d : Loop Process)
      → blocked p ≡ false
      → Chhandler.poll (channel_list h) b (at_place i p l) ≡ d
      → step h (turn b) (at_place i p l) ≡ some d
  unfolding step
  free-step b i p d free e =
      poll_step-free blocked (channel_list h) b (at_place i p l) going free ∙ ap some e

  pub server-turn :
      (b : Bool) (p : Process)
      → blocked p ≡ false
      → step h (turn b) (at_place 0 p l) ≡ some (at_place 1 (serve_once (server_slot h) p) l)
  unfolding channel_list set_channel_handler
  server-turn b p free = free-step b 0 p (at_place 1 (serve_once (server_slot h) p) l) free (
      poll-quiet [] (server_slot h) (message_slot h ∷ event_slot h ∷ []) b (at_place 0 p l) refl
        quiet)

  pub message-turn :
      (b : Bool) (p : Process)
      → blocked p ≡ false
      → step h (turn b) (at_place 1 p l) ≡ some (at_place 2 (serve_once (message_slot h) p) l)
  unfolding channel_list set_channel_handler
  message-turn b p free = free-step b 1 p (at_place 2 (serve_once (message_slot h) p) l) free (
      poll-quiet (server_slot h ∷ []) (message_slot h) (event_slot h ∷ []) b (at_place 1 p l) refl
        quiet)

  pub event-turn :
      (b : Bool) (p : Process)
      → blocked p ≡ false
      → step h (turn b) (at_place 2 p l) ≡ some (at_place 0 (serve_once (event_slot h) p) l)
  unfolding channel_list set_channel_handler
  event-turn b p free = free-step b 2 p (at_place 0 (serve_once (event_slot h) p) l) free (
      poll-quiet (server_slot h ∷ message_slot h ∷ []) (event_slot h) [] b (at_place 2 p l) refl
        quiet)

abbrev pub process_of : Rman → Desk → List Received → Process
process_of m d srv = record { rman = m; desk = d; srv = srv }

pub server-served :
    (h : Host) (x : Received) (m : Rman) (d : Desk)
    → serve_once (server_slot h) (process_of m d (x ∷ []))
      ≡ process_of m (process_ipc_srv_message h x d) []
unfolding server_slot
server-served h x m d = refl

pub message-served :
    (h : Host) (v : MessageResourceControllRequest) (q : Request) (m : Rman) (d : Desk)
    → request_of v ≡ some q
    → serve_once (message_slot h) (process_of m (record d { requests = v ∷ [] }) [])
      ≡ process_of (exec_rsc_op q m) (record d { requests = [] }) []
unfolding message_slot process_rsc_op_message
message-served h v q m d asked = ground (arith, asked)

pub event-served :
    (h : Host) (r : Execrsc) (m : Rman) (d : Desk)
    → m.rsc_op_ch ≡ r ∷ []
    → serve_once (event_slot h) (process_of m d [])
      ≡ process_of
          (record m { rsc_op_ch = []; sent = m.sent ++ r ∷ [] })
          (process_rsc_op_event h r d)
          []
unfolding event_slot
event-served h r m d waiting = ground (arith, waiting)

pub accept-step :
    (h : Host) (x : Received) (m : Rman) (d : Desk) (l : Loop Process)
    → step h (accept x) (at_place 0 (process_of m d []) l)
      ≡ some (at_place 0 (process_of m d (x ∷ [])) l)
unfolding step
accept-step h x m d l = refl

pub aside-step :
    (h : Host) (o : Op) (i : ℕ) (m m' : Rman) (d : Desk) (l : Loop Process)
    → is_loop o ≡ false
    → Step.step o m ≡ some m'
    → step h (aside o) (at_place i (process_of m d []) l) ≡ some (at_place i (process_of m' d []) l)
unfolding step
aside-step h o i m m' d l beside went = ground (arith, beside, went)

pub free-process :
    (m : Rman) (d : Desk) (srv : List Received)
    → d.blocked ≡ false
    → m.crashed ≡ false
    → m.busy ≡ none
    → blocked (process_of m d srv) ≡ false
unfolding blocked
free-process m d srv a b c = ground (arith, a, b, c)

pub answered_to-free :
    (q : Request) (r : Execrsc) (i : ℕ) (m : Rman)
    → m.crashed ≡ false
    → m.busy ≡ (if q.async then none else some i)
    → ((answered_to i q r m).crashed ≡ false)
      × ((answered_to i q r m).busy ≡ none)
      × ((answered_to i q r m).rsc_op_ch ≡ r ∷ [])
unfolding end_job
answered_to-free q r i m alive waits = (alive, ground (arith, waits), refl)

pub request-taken :
    (h : Host) (con : ℕ) (v : MessageResourceControllRequest) (d : Desk)
    → IsRequestCoded h.json v
    → v.header.types ≡ message_id_resource
    → d.requests ≡ []
    → process_ipc_srv_message h
        (client (record { con = con; message = h.json.marshal_request v }))
        d
      ≡ record d { requests = v ∷ [] }
request-taken h con v d codec kind empty =
    resource_request_arrives h con v d codec kind (ground (arith, empty))
    ∙ ap (λ vs. let e : Desk = record d { requests = vs ++ v ∷ [] } in e) empty
