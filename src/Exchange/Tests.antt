-- ===== src/Exchange/Tests.antt =====
-- The first request of the controller and its answer, under a small encoding.
use go_test_cluster.Prelude.{
  ℕ, ◌≡◌, refl, true, false, [], ◌∷◌, Option, none, some, arith, int_key, nat_eq, ◌==◌,
  if◌then◌else◌,
}
use go_test_cluster.Prelude.Int.{pos, int_eq}
use go_test_cluster.Prelude.Text.{Bytes}
use go_test_cluster.Prelude.Dict.{lookup}
use go_test_cluster.Consts.{cl_ok}
use go_test_cluster.Message.{
  MessageHeader, MessageHello, MessageResourceControllRequest, MessageResourceControllResponse,
  Json,
}
use go_test_cluster.Samples.{sample_json}
use go_test_cluster.Ipcc.{Client, contents, get_seqno}
use go_test_cluster.Ipcc as Ipcc
use go_test_cluster.Ipcc.Exchange.{exchange}
use go_test_cluster.Ipcs.{ClientConnect, wrote}
use go_test_cluster.Chhandler.{Loop}
use go_test_cluster.Controller.Control.{hello_request, start_request, monitor_request}
use go_test_cluster.Rmanager.Exec.{new, result}
use go_test_cluster.Rmanager.Handlers.{Desk, Host, hello_response, response_of}
use go_test_cluster.Rmanager.Process as Process
use go_test_cluster.Rmanager.Way.{service}
use go_test_cluster.Rmanager.Turns.{at_place, process_of}
use go_test_cluster.Exchange.{start_call, start_response, start_answered}
use go_test_cluster.Exchange.Parts.{monitor_response}
use go_test_cluster.Exchange.Session.{after_monitor, plan_answered}

abbrev done : ℕ → MessageResourceControllResponse
done n = response_of (pos 9) (result (start_call n) (pos 77) cl_ok none (pos 0))

-- The first byte is the number of the message, the second its type.
abbrev header : Bytes → MessageHeader
header (n ∷ t ∷ _) = if t == 1 then (start_request n).header else (done n).header
header _ = (done 0).header

abbrev decode_request : Bytes → Option MessageResourceControllRequest
decode_request (n ∷ _) = some (start_request n)
decode_request [] = none

abbrev decode_response : Bytes → Option MessageResourceControllResponse
decode_response (n ∷ _) = some (done n)
decode_response [] = none

abbrev codec : Json
codec = record sample_json {
  marshal_request = λ m. m.header.seq_no ∷ 1 ∷ [];
  marshal_response = λ m. m.header.seq_no ∷ 2 ∷ [];
  unmarshal_common = λ b. (record { header = header b; body = [] }, true);
  unmarshal_request = decode_request;
  unmarshal_response = decode_response;
}

abbrev manager : Host
manager = record { json = codec; write = λ c b. true; pid = pos 9 }

-- The connection of the controller.
abbrev controller : ClientConnect
controller = record { con = 3; message = [] }

abbrev desk : Desk
desk = record {
  server = record { clients = (pos 1, controller) ∷ []; net = [] };
  requests = [];
  blocked = false;
}

abbrev at_head : Loop Process.Process
at_head = record {
  idx = 0;
  signal_ch = [];
  wait = none;
  hung = false;
  state = process_of new desk [];
}

start_answered_example :
    let e = Ipcc.run codec (exchange (λ n. n ∷ 1 ∷ []) (1 ∷ 2 ∷ []) 0) Ipcc.new in
    let s =
      Process.run manager
        (service manager 3 (start_request 1) 0 (pos 77) true)
        (at_place 0 (process_of new desk []) at_head) in
    (e.written ≡ (1 ∷ 1 ∷ []) ∷ [])
    × (s.state.desk.server.net ≡ wrote 3 (1 ∷ 2 ∷ []) ∷ [])
    × (e.ipcrecv_ch ≡ record { head = (done 1).header; all = 2 } ∷ [])
    × (decode_response (contents 2 e) ≡ some (done 1))
    × ((done 1).header.seq_no ≡ 1)
unfolding Ipcc.new get_seqno new lookup
start_answered_example =
    start_answered manager Ipcc.new 3 (pos 77) true new desk at_head controller
      (record {
        no_call = refl;
        no_write = refl;
        no_slice = refl;
        listening = refl;
        no_read = refl;
        no_reply = refl;
        no_message = refl;
      })
      (record {
        quiet = refl;
        going = refl;
        idle = record { alive = refl; free = refl; drained = refl; older = tt; earlier = tt };
        empty = refl;
        open_desk = refl;
      })
      (record {
        request_coded = record { common = refl; whole = refl };
        response_coded = record { common = refl; whole = refl };
        fits = omega arith;
      })
      refl refl refl refl

-- A code for the messages of the whole plan: the second byte is 1 for a request, 2 for its answer, 3
-- for a hello and 4 for the answer to it.
abbrev answer_numbered : ℕ → MessageResourceControllResponse
answer_numbered n =
    if n == 1 then start_response manager 1 (pos 77) true else monitor_response manager 2 (pos 78)

abbrev request_numbered : ℕ → MessageResourceControllRequest
request_numbered n = if n == 1 then start_request 1 else monitor_request 2

abbrev hello_marked : ℕ → MessageHello
hello_marked t =
    if t == 3 then hello_request (pos 5) else hello_response (pos 9) (hello_request (pos 5)).header

abbrev header_marked : Bytes → MessageHeader
header_marked (n ∷ t ∷ _) =
    if t == 1
    then (request_numbered n).header
    else if t == 2
    then (answer_numbered n).header
    else (hello_marked t).header
header_marked _ = (hello_marked 3).header

abbrev second_byte : Bytes → ℕ
second_byte (n ∷ t ∷ _) = t
second_byte _ = 0

abbrev first_byte : Bytes → ℕ
first_byte (n ∷ _) = n
first_byte [] = 0

abbrev plan_codec : Json
plan_codec = record sample_json {
  marshal_hello = λ m. 0 ∷ (if int_eq m.header.destination_id (pos 2) then 3 else 4) ∷ [];
  marshal_request = λ m. m.header.seq_no ∷ 1 ∷ [];
  marshal_response = λ m. m.header.seq_no ∷ 2 ∷ [];
  unmarshal_common = λ b. (record { header = header_marked b; body = [] }, true);
  unmarshal_hello = λ b. some (hello_marked (second_byte b));
  unmarshal_request = λ b. some (request_numbered (first_byte b));
  unmarshal_response = λ b. some (answer_numbered (first_byte b));
}

abbrev plan_manager : Host
plan_manager = record { json = plan_codec; write = λ c b. true; pid = pos 9 }

plan_answered_example :
    let c = after_monitor plan_manager (pos 5) 3 (pos 77) (pos 78) true in
    c.written ≡ (0 ∷ 3 ∷ []) ∷ (1 ∷ 1 ∷ []) ∷ (2 ∷ 1 ∷ []) ∷ []
plan_answered_example =
    (plan_answered plan_manager (pos 5) 3 (pos 77) (pos 78) true 7
      (record {
        hello = record { common = refl; whole = refl };
        start = record { common = refl; whole = refl };
        monitor = record { common = refl; whole = refl };
        hello_back = record { common = refl; whole = refl };
        start_back = record { common = refl; whole = refl };
        monitor_back = record { common = refl; whole = refl };
        fits₀ = omega arith;
        fits₁ = omega arith;
        fits₂ = omega arith;
      })
      (λ b. refl) refl refl (omega arith)).0
