-- ===== src/Rmanager/Service.antt =====
-- rmanager/: a request on its way through the whole resource manager, from the connection on which
-- it comes to the answer.
use go_test_cluster.Prelude.{
  ℕ, ◌≡◌, ap, ◌∙◌, Bool, true, false, [], ◌∷◌, ◌++◌, none, some, arith, int_key,
}
use go_test_cluster.Prelude.Int.{ℤ, pos, int_eq, is_negative}
use go_test_cluster.Prelude.Dict.{lookup}
use go_test_cluster.Consts.{controller_id}
use go_test_cluster.Message.{MessageResourceControllRequest, IsRequestCoded, message_id_resource}
use go_test_cluster.Ipcs.{ClientConnect, wrote, send_ipc_to_client}
use go_test_cluster.Chhandler.{Loop}
use go_test_cluster.Rmanager.Table.{Execrsc}
use go_test_cluster.Rmanager.Exec.{Request, Rman, result}
use go_test_cluster.Rmanager.Monitor.{agent_ret}
use go_test_cluster.Rmanager.Handlers.{Desk, Host, request_of, response_of, process_rsc_op_event}
use go_test_cluster.Rmanager.Process.{Process, blocked, run}
use go_test_cluster.Rmanager.Way.{service, IsWaiting, once-Way, way-run, delivered}
use go_test_cluster.Rmanager.Turns.{run-nil, at_place, process_of, free-process}

-- The message is a well-formed request for one run of an agent.
pub record IsPlain (h : Host) (v : MessageResourceControllRequest) (q : Request) : Type 0 where
  pub codec : IsRequestCoded h.json v
  pub kind : v.header.types ≡ message_id_resource
  pub asked : request_of v ≡ some q
  pub once : int_eq q.interval (pos 0) ≡ true

module _ (h : Host) (con : ℕ) (v : MessageResourceControllRequest) (q : Request) (pid : ℤ)
    (ok : Bool) (m : Rman) (d : Desk) (l : Loop Process) where
  abbrev pub answer : Execrsc
  answer = result q pid (agent_ret ok) none (pos 0)

  -- A well-formed request for one run of an agent, which comes to a resource manager that has
  -- nothing to do, is answered once: two turns of the event loop take it in, the agent is started and
  -- exits beside the loop, and a third turn writes the answer to the connection under which the
  -- controller is registered. The answer has the number of the request and CL_OK or CL_ERROR as the
  -- agent ended. Nothing else is written, and the event loop is free again at the head of its list.
  pub service_answers :
      (to : ClientConnect)
      → IsWaiting m d l
      → IsPlain h v q
      → is_negative pid ≡ false
      → lookup controller_id d.server.clients ≡ some to
      → h.write to.con (h.json.marshal_response (response_of h.pid answer)) ≡ true
      → let bytes = h.json.marshal_response (response_of h.pid answer) in
        let e = run h (service h con v m.next_job pid ok) (at_place 0 (process_of m d []) l) in
        (e.state.desk.server.net ≡ d.server.net ++ wrote to.con bytes ∷ [])
        × (blocked e.state ≡ false)
        × (e.idx ≡ 0)
        × (e.state.desk.requests ≡ [])
  unfolding process_rsc_op_event send_ipc_to_client
  service_answers to w p forked registered open_con =
      let k = once-Way q pid ok m p.once forked w.idle in
      let done = process_rsc_op_event h answer (record d { requests = [] }) in
      let f = delivered answer k.over in
      let went =
        way-run h con v q pid ok answer m d l [] w
          (record { codec = p.codec; kind = p.kind; asked = p.asked }) k
        ∙ run-nil h (at_place 0 (process_of f done []) l) in
      (
        ap (λ (x : Loop Process). x.state.desk.server.net) went
            ∙ ground (arith, registered, open_con),
        ap (λ (x : Loop Process). blocked x.state) went
            ∙ free-process f done [] w.open_desk k.alive k.free,
        ap (λ (x : Loop Process). x.idx) went,
        ap (λ (x : Loop Process). x.state.desk.requests) went,
      )
