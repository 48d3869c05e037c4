-- ===== src/Exchange.antt =====
-- The controller and the resource manager together: the first request of `_resourceControl`
-- (controller/control.go) on its way through ipcc/ipcc.go, ipcs/ipcs.go and rmanager/, and back.
pub mod Parts
pub mod Session
mod Tests
use go_test_cluster.Prelude.{
  ℕ, ◌≤◌, ◌≡◌, refl, sym, ap, ◌∙◌, Bool, true, false, List, [], ◌∷◌, ◌++◌, Option, none, some,
  arith, length, int_key, nat_eq,
}
use go_test_cluster.Prelude.Int.{ℤ, pos, is_negative}
use go_test_cluster.Prelude.Text.{Bytes, codes}
use go_test_cluster.Prelude.Dict.{lookup}
use go_test_cluster.Consts.{controller_id, buff_max}
use go_test_cluster.Message.{
  MessageHeader, MessageResourceControllRequest, MessageResourceControllResponse, IsRequestCoded,
  IsResponseCoded, parameters_to_string-take,
}
use go_test_cluster.Ipcc.{IpcClientMsg, Client, get_seqno, contents}
use go_test_cluster.Ipcc as Ipcc
use go_test_cluster.Ipcc.Exchange as Call
use go_test_cluster.Ipcc.Exchange.{exchange, exchange_returns}
use go_test_cluster.Ipcs.{ClientConnect, wrote}
use go_test_cluster.Chhandler.{Loop}
use go_test_cluster.Controller.Control.{start_request}
use go_test_cluster.Rmanager.Exec.{Request, Rman, result}
use go_test_cluster.Rmanager.Monitor.{agent_ret}
use go_test_cluster.Rmanager.Handlers.{Desk, Host, request_of, response_of}
use go_test_cluster.Rmanager.Process.{Process}
use go_test_cluster.Rmanager.Process as Process
use go_test_cluster.Rmanager.Way.{service, IsWaiting}
use go_test_cluster.Rmanager.Service.{service_answers}
use go_test_cluster.Rmanager.Turns.{at_place, process_of}

-- The call of `ExecRscOp` that the start request leads to.
abbrev pub start_call : ℕ → Request
start_call n = record {
  seqno = n;
  rscid = pos 1;
  rsc = codes "/usr/lib/ocf/resource.d/heartbeat/Dummy2";
  parameters = codes "start=0" ∷ [];
  op = codes "start";
  interval = pos 0;
  timeout = pos 30000;
  delay_ms = pos 0;
  async = false;
}

pub start_asked : (n : ℕ) → request_of (start_request n) ≡ some (start_call n)
unfolding request_of
start_asked n = rw (parameters_to_string-take (pos 1) (start_request n).parameters, request_of) refl

-- The answer that the resource manager `h` makes.
abbrev pub start_response : Host → ℕ → ℤ → Bool → MessageResourceControllResponse
start_response h n pid ok =
    response_of h.pid (result (start_call n) pid (agent_ret ok) none (pos 0))

module _ (h : Host) (c : Client) (con : ℕ) (pid : ℤ) (ok : Bool) (m : Rman) (d : Desk)
    (l : Loop Process) where
  abbrev pub number : ℕ
  number = (get_seqno c).0

  abbrev pub answer : Bytes
  answer = h.json.marshal_response (start_response h number pid ok)

  -- What the codec has to do: carry this request and this answer.
  pub record IsCarried : Type 0 where
    pub request_coded : IsRequestCoded h.json (start_request number)
    pub response_coded : IsResponseCoded h.json (start_response h number pid ok)
    pub fits : length answer ≤ buff_max

  -- The first request of the controller comes back answered. Let nothing be under way in the socket
  -- client and in the resource manager, the controller be registered there, and the codec carry the
  -- two messages. The call puts the start request on the socket, under the number it draws; those
  -- bytes make the resource manager run the agent and write one answer to the controller; and when
  -- that answer arrives, the call returns with a message that decodes to it: the same number, the
  -- resource and the operation of the request, and the code that tells how the agent ended.
  pub start_answered :
      (to : ClientConnect)
      → Call.IsIdle c
      → IsWaiting m d l
      → IsCarried
      → is_negative pid ≡ false
      → lookup number c.sync_map ≡ none
      → lookup controller_id d.server.clients ≡ some to
      → h.write to.con answer ≡ true
      → let v = start_request number in
        let e =
          Ipcc.run h.json
            (exchange (λ n. h.json.marshal_request (start_request n)) answer c.next_chan)
            c in
        let s =
          Process.run h (service h con v m.next_job pid ok) (at_place 0 (process_of m d []) l) in
        (e.written ≡ c.written ++ h.json.marshal_request v ∷ [])
        × (s.state.desk.server.net ≡ d.server.net ++ wrote to.con answer ∷ [])
        × (e.ipcrecv_ch
            ≡ record { head = (start_response h number pid ok).header; all = length answer } ∷ [])
        × (h.json.unmarshal_response (contents (length answer) e)
            ≡ some (start_response h number pid ok))
        × ((start_response h number pid ok).header.seq_no ≡ number)
  start_answered to idle w k forked fresh registered open_con =
      let f : ℕ → Bytes = λ n. h.json.marshal_request (start_request n) in
      let head = k.response_coded.common in
      let (net, free, place, taken) =
        service_answers h con (start_request number) (start_call number) pid ok m d l to w
          (record { codec = k.request_coded; kind = refl; asked = start_asked number; once = refl })
          forked registered open_con in
      let (written, received, shown, forgotten, no_reply) =
        exchange_returns h.json f c idle answer k.fits fresh
          (ap (λ (x : MessageHeader). x.seq_no) head) in
      (
        written,
        net,
        received
            ∙ ap
                (λ (x : MessageHeader).
                  let r : IpcClientMsg = record { head = x; all = length answer } in r ∷ [])
                head,
        ap h.json.unmarshal_response shown ∙ k.response_coded.whole,
        refl,
      )
