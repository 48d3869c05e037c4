-- ===== src/Controller/Clients.antt =====
-- controller/main.go: the handlers for the controller's own socket, on which its clients register.
use go_test_cluster.Prelude.{ℕ, ◌≡◌, Bool, [], ◌∷◌, ◌++◌, none, some, arith, int_key, if◌then◌else◌}
use go_test_cluster.Prelude.Int.{ℤ, int_eq, int_eq_iff}
use go_test_cluster.Prelude.Text.{Bytes, codes}
use go_test_cluster.Prelude.Dict.{lookup, insert, lookup-insert, lookup-delete}
use go_test_cluster.Consts.{controller_id}
use go_test_cluster.Message.{MessageHeader, MessageHello, Json, IsHelloCoded, message_id_hello}
use go_test_cluster.Ipcs.{
  ClientConnect, wrote, closed, Server, Received, client, text, send_ipc_to_client,
}

-- The answer to a hello: its number is 0, whatever the number of the hello.
abbrev pub hello_response : ℤ → MessageHeader → MessageHello
hello_response pid head = record {
  header = record {
    seq_no = 0;
    destination_id = head.source_id;
    source_id = controller_id;
    types = message_id_hello;
  };
  pid = pid;
  message = codes "HELLO";
}

module _ (j : Json) (write : ℕ → Bytes → Bool) (pid : ℤ) where
  -- `_messageHelloHandler`: both branches of the source put the client into the map.
  pub message_hello_handler : ClientConnect → Bytes → MessageHeader → Server → Server
  message_hello_handler c recv head s = elim (j.unmarshal_hello recv) [
    | none ↦ s
    | some ms ↦
        let known = record s { clients = insert ms.header.source_id c s.clients } in
        send_ipc_to_client write head.source_id (j.marshal_hello (hello_response pid head)) known
  ]

  -- `_processIpcSrvMessage`: the table has one handler; an error of the first `Unmarshal` is only
  -- printed.
  unfoldable pub process_ipc_srv_message : Received → Server → Server
  unfolding message_hello_handler
  process_ipc_srv_message (text t) s = s
  process_ipc_srv_message (client c) s =
      let head = (j.unmarshal_common c.message).0.header in
      if int_eq message_id_hello head.types then message_hello_handler c c.message head s else s

  -- A hello that a peer has encoded registers the sender's connection under the sender's id, and no
  -- other client changes. It is answered on that connection alone, under the number 0; if the
  -- write fails, the connection is closed and the sender is not registered.
  pub hello_registered :
      (c : ℕ) (m : MessageHello) (s : Server) (other : ℤ)
      → IsHelloCoded j m
      → m.header.types ≡ message_id_hello
      → let bytes = j.marshal_hello m in
        let answer = j.marshal_hello (hello_response pid m.header) in
        let e = process_ipc_srv_message (client (record { con = c; message = bytes })) s in
        (lookup other e.clients ≡ (
          if int_eq m.header.source_id other
          then (if write c answer then some (record { con = c; message = bytes }) else none)
          else lookup other s.clients))
        × (e.net ≡ s.net ++ (if write c answer then wrote c answer else closed c) ∷ [])
  unfolding process_ipc_srv_message send_ipc_to_client
  hello_registered c m s other codec kind =
      let x : ClientConnect = record { con = c; message = j.marshal_hello m } in
      ground (
        arith,
        codec,
        int_eq_iff m.header.source_id m.header.source_id,
        lookup-insert m.header.source_id other x s.clients,
        lookup-insert m.header.source_id m.header.source_id x s.clients,
        lookup-delete m.header.source_id other (insert m.header.source_id x s.clients),
      )
