-- ===== src/Rmanager/Welcome.antt =====
-- rmanager/: a hello on its way through the whole resource manager, in one pass of the event loop.
use go_test_cluster.Prelude.{
  ℕ, ◌≡◌, ap, ◌∙◌, true, false, List, [], ◌∷◌, ◌++◌, some, arith, int_key,
}
use go_test_cluster.Prelude.Dict.{lookup, lookup-insert_self}
use go_test_cluster.Message.{MessageHello, IsHelloCoded, message_id_hello}
use go_test_cluster.Ipcs.{ClientConnect, Received, client, wrote, send_ipc_to_client}
use go_test_cluster.Chhandler.{Loop}
use go_test_cluster.Chhandler.Pass.{serve_once}
use go_test_cluster.Rmanager.Exec.{Rman}
use go_test_cluster.Rmanager.Handlers.{
  Desk, Host, hello_response, message_hello_handler, process_ipc_srv_message,
}
use go_test_cluster.Rmanager.Process.{Process, message_slot, event_slot, Event, turn, accept, run}
use go_test_cluster.Rmanager.Turns.{
  server-turn, message-turn, event-turn, run-step, at_place, process_of, server-served, accept-step,
  free-process,
}
use go_test_cluster.Rmanager.Way.{IsWaiting}

-- A message comes on the connection `con`, and the event loop makes a whole pass.
abbrev pub one_pass : Received → List Event
one_pass x = accept x ∷ turn false ∷ turn false ∷ turn false ∷ []

message-idle :
    (h : Host) (m : Rman) (d : Desk)
    → d.requests ≡ []
    → serve_once (message_slot h) (process_of m d []) ≡ process_of m d []
unfolding message_slot
message-idle h m d none_there = ground (arith, none_there)

event-idle :
    (h : Host) (m : Rman) (d : Desk)
    → m.rsc_op_ch ≡ []
    → serve_once (event_slot h) (process_of m d []) ≡ process_of m d []
unfolding event_slot
event-idle h m d none_there = ground (arith, none_there)

-- A pass of a free event loop, with one message from the socket that leads to no request.
pub one_pass-run :
    (h : Host) (x : Received) (m : Rman) (d : Desk) (l : Loop Process) (os : List Event)
    → IsWaiting m d l
    → (process_ipc_srv_message h x d).requests ≡ []
    → (process_ipc_srv_message h x d).blocked ≡ false
    → run h (one_pass x ++ os) (at_place 0 (process_of m d []) l)
      ≡ run h os (at_place 0 (process_of m (process_ipc_srv_message h x d) []) l)
one_pass-run h x m d l os w empty open_desk =
    let f = process_ipc_srv_message h x d in
    let p = process_of m f [] in
    let free = free-process m f [] open_desk w.idle.alive w.idle.free in
    run-step h (accept x) _ (at_place 0 (process_of m d []) l) (accept-step h x m d l)
    ∙ run-step h (turn false) _ (at_place 0 (process_of m d (x ∷ [])) l) (
        server-turn h l w.quiet w.going false (process_of m d (x ∷ []))
          (free-process m d (x ∷ []) w.open_desk w.idle.alive w.idle.free)
        ∙ ap (λ s. some (at_place 1 s l)) (server-served h x m d))
    ∙ run-step h (turn false) _ (at_place 1 p l) (
        message-turn h l w.quiet w.going false p free
        ∙ ap (λ s. some (at_place 2 s l)) (message-idle h m f empty))
    ∙ run-step h (turn false) os (at_place 2 p l) (
        event-turn h l w.quiet w.going false p free
        ∙ ap (λ s. some (at_place 0 s l)) (event-idle h m f w.idle.drained))

-- The client that a hello makes known.
abbrev pub newcomer : Host → ℕ → MessageHello → ClientConnect
newcomer h con v = record { con = con; message = h.json.marshal_hello v }

module _ (h : Host) (con : ℕ) (v : MessageHello) (d : Desk) where
  abbrev pub welcome : Desk
  welcome = process_ipc_srv_message h (client (newcomer h con v)) d

  -- A hello from a connection that takes an answer: its sender is registered, the answer is written
  -- there, and the desk takes requests as before.
  pub record IsWelcomed (e : Desk) : Type 0 where
    pub registered : lookup v.header.source_id e.server.clients ≡ some (newcomer h con v)
    pub answered :
        e.server.net
        ≡ d.server.net ++ wrote con (h.json.marshal_hello (hello_response h.pid v.header)) ∷ []
    pub requests : e.requests ≡ d.requests
    pub blocked : e.blocked ≡ d.blocked

  pub welcome-IsWelcomed :
      IsHelloCoded h.json v
      → v.header.types ≡ message_id_hello
      → h.write con (h.json.marshal_hello (hello_response h.pid v.header)) ≡ true
      → IsWelcomed welcome
  unfolding process_ipc_srv_message message_hello_handler send_ipc_to_client
  welcome-IsWelcomed codec kind open_con =
      let kept = lookup-insert_self v.header.source_id (newcomer h con v) d.server.clients in
      record {
        registered = ground (arith, codec, kind, open_con, kept);
        answered = ground (arith, codec, kind, open_con, kept);
        requests = ground (arith, codec, kind, open_con, kept);
        blocked = ground (arith, codec, kind, open_con, kept);
      }
