-- ===== src/Rmanager/Handlers.antt =====
-- rmanager/main.go: the handlers of the resource manager's three channels.
use go_test_cluster.Prelude.{
  ℕ, ◌≡◌, ◌<◌, Bool, true, List, [], ◌∷◌, ◌++◌, Option, none, some, arith, int_key, length,
  if◌then◌else◌,
}
use go_test_cluster.Prelude.Int.{ℤ, int_eq}
use go_test_cluster.Prelude.Text.{Bytes, codes}
use go_test_cluster.Prelude.Dict.{lookup, insert, lookup-insert_self}
use go_test_cluster.Prelude.Channel.{push}
use go_test_cluster.Consts.{controller_id, rmanager_id}
use go_test_cluster.Message.{
  MessageHeader, MessageHello, MessageResourceControllRequest, MessageResourceControllResponse,
  Json, IsHelloCoded, IsRequestCoded, message_id_hello, message_id_resource,
  message_id_resource_response, parameters_to_string,
}
use go_test_cluster.Ipcs.{ClientConnect, wrote, Server, Received, client, text, send_ipc_to_client}
use go_test_cluster.Rmanager.Table.{Execrsc}
use go_test_cluster.Rmanager.Exec.{Request, Rman, exec_rsc_op}

-- The socket's server with `rscOpRecvMessage_ch`. `blocked`: the event loop has sent on it when it
-- was full, and is its only receiver.
pub record Desk : Type 0 where
  pub server : Server
  pub requests : List MessageResourceControllRequest
  pub blocked : Bool

abbrev pub request_cap : ℕ
request_cap = 128

-- The arguments with which the handlers are called: what the program asks of its surroundings.
pub record Host : Type 0 where
  pub json : Json
  pub write : ℕ → Bytes → Bool
  pub pid : ℤ

abbrev pub hello_response : ℤ → MessageHeader → MessageHello
hello_response pid head = record {
  header = record {
    seq_no = head.seq_no;
    destination_id = head.source_id;
    source_id = controller_id;
    types = message_id_hello;
  };
  pid = pid;
  message = codes "HELLO";
}

-- `_messageHelloHandler`: both branches of the source put the client into the map.
unfoldable pub message_hello_handler : Host → ClientConnect → Bytes → MessageHeader → Desk → Desk
message_hello_handler h c recv head d = elim (h.json.unmarshal_hello recv) [
  | none ↦ d
  | some ms ↦
      let s = record d.server { clients = insert ms.header.source_id c d.server.clients } in
      record d {
        server =
            send_ipc_to_client h.write head.source_id
              (h.json.marshal_hello (hello_response h.pid head)) s;
      }
]

-- `_messageResourceHandler`
unfoldable pub message_resource_handler : Host → Bytes → Desk → Desk
message_resource_handler h recv d = elim (h.json.unmarshal_request recv) [
  | none ↦ d
  | some ms ↦ elim (push request_cap ms d.requests) [
    | none ↦ record d { blocked = true }
    | some q ↦ record d { requests = q }
  ]
]

-- `_processIpcSrvMessage`: the table of handlers by message type; an error of the first
-- `Unmarshal` is only printed.
unfoldable pub process_ipc_srv_message : Host → Received → Desk → Desk
process_ipc_srv_message h (text t) d = d
process_ipc_srv_message h (client c) d =
    let head = (h.json.unmarshal_common c.message).0.header in
    if int_eq message_id_hello head.types
    then message_hello_handler h c c.message head d
    else if int_eq message_id_resource head.types
    then message_resource_handler h c.message d
    else d

-- The call of `ExecRscOp` in `_processRscOpMessage`; `none` is a panic of `ParametersToString`.
unfoldable pub request_of : MessageResourceControllRequest → Option Request
request_of v = elim (parameters_to_string v.param_len v.parameters) [
  | none ↦ none
  | some ps ↦ some (record {
    seqno = v.header.seq_no;
    rscid = v.rscid;
    rsc = v.resource_name;
    parameters = ps;
    op = v.operation;
    interval = v.interval;
    timeout = v.timeout;
    delay_ms = v.delay;
    async = v.async;
  })
]

-- `_processRscOpMessage`
unfoldable pub process_rsc_op_message : MessageResourceControllRequest → Rman → Option Rman
unfolding request_of
process_rsc_op_message v m = elim (request_of v) [ none ↦ none | some q ↦ some (exec_rsc_op q m) ]

abbrev pub response_of : ℤ → Execrsc → MessageResourceControllResponse
response_of pid r = record {
  header = record {
    seq_no = r.seqno;
    destination_id = controller_id;
    source_id = rmanager_id;
    types = message_id_resource_response;
  };
  pid = pid;
  rscid = r.rscid;
  operation = r.op;
  resource_name = r.rsc;
  result_code = r.ret;
  message = codes "OK";
}

-- `_processRscOpEvent`
unfoldable pub process_rsc_op_event : Host → Execrsc → Desk → Desk
process_rsc_op_event h r d = record d {
  server =
      send_ipc_to_client h.write controller_id (h.json.marshal_response (response_of h.pid r))
        d.server;
}

-- A request that a peer has encoded, whose header says that it is one, comes out of the handler as
-- the same request, behind those that wait, if there is room on the channel; nothing else changes.
pub resource_request_arrives :
    (h : Host) (c : ℕ) (v : MessageResourceControllRequest) (d : Desk)
    → IsRequestCoded h.json v
    → v.header.types ≡ message_id_resource
    → length d.requests < request_cap
    → process_ipc_srv_message h (client (record { con = c; message = h.json.marshal_request v })) d
      ≡ record d { requests = d.requests ++ v ∷ [] }
unfolding process_ipc_srv_message message_resource_handler
resource_request_arrives h c v d codec kind room = ground (arith, codec)

-- A hello registers its sender's connection under the sender's id and is answered there, under the
-- number of the hello; the answer states the controller's id as its source.
pub hello_answered :
    (h : Host) (c : ℕ) (m : MessageHello) (d : Desk)
    → IsHelloCoded h.json m
    → m.header.types ≡ message_id_hello
    → ((b : Bytes) → h.write c b ≡ true)
    → let bytes = h.json.marshal_hello m in
      let answer = h.json.marshal_hello (hello_response h.pid m.header) in
      let e = process_ipc_srv_message h (client (record { con = c; message = bytes })) d in
      (lookup m.header.source_id e.server.clients ≡ some (record { con = c; message = bytes }))
      × (e.server.net ≡ d.server.net ++ wrote c answer ∷ [])
      × (e.requests ≡ d.requests)
unfolding process_ipc_srv_message message_hello_handler send_ipc_to_client
hello_answered h c m d codec kind open_con = ground (
  arith,
  codec,
  open_con (h.json.marshal_hello (hello_response h.pid m.header)),
  lookup-insert_self m.header.source_id
      (let x : ClientConnect = record { con = c; message = h.json.marshal_hello m } in x)
      d.server.clients,
)

-- A message that neither decoder accepts changes nothing, though its broken header reads as a
-- hello or a request.
pub broken_message_ignored :
    (h : Host) (c : ClientConnect) (d : Desk)
    → h.json.unmarshal_hello c.message ≡ none
    → h.json.unmarshal_request c.message ≡ none
    → process_ipc_srv_message h (client c) d ≡ d
unfolding process_ipc_srv_message message_hello_handler message_resource_handler
broken_message_ignored h c d bad_hello bad_request = ground arith
