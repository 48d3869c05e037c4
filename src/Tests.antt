-- ===== src/Tests.antt =====
-- The theorems about the shared parts, at concrete inputs.
use go_test_cluster.Prelude.{
  ℕ, ◌++◌, List, ◌==◌, if◌then◌else◌, ◌≡◌, refl, false, [], ◌∷◌, some, none, int_key,
}
use go_test_cluster.Ipcs.{
  Read, Server, closed, chunk, failed, send_ipc_to_client, ipc_server_start,
  send_ipc_to_client-lookup,
}
use go_test_cluster.Ipcs.Order.{begin, receives, of_connection, chunks, receives-in_order}
use go_test_cluster.Prelude.Text.{codes}
use go_test_cluster.Prelude.Int.{pos}
use go_test_cluster.Prelude.Dict.{lookup}
use go_test_cluster.Consts.{process_text, controller_id}
use go_test_cluster.Message.{Parameter, parameters_to_string, parameters_to_string-take}

process_text_controller : process_text controller_id ≡ codes "Controller"
unfolding process_text
process_text_controller = refl

accepted : ipc_server_start (some 3 ∷ none ∷ some 4 ∷ []) ≡ 3 ∷ 4 ∷ []
unfolding ipc_server_start
accepted = refl

abbrev two : Parameter
two = record { name = codes "a"; value = codes "1" }

parameters_to_string-take_example : parameters_to_string (pos 3) (two ∷ []) ≡ none
parameters_to_string-take_example = parameters_to_string-take (pos 3) (two ∷ [])

abbrev served : Server
served = record { clients = (pos 2, record { con = 3; message = [] }) ∷ []; net = [] }

send_ipc_to_client-lookup_example :
    let d = send_ipc_to_client (λ c b. false) (pos 2) (codes "x") served in
    (d.net ≡ closed 3 ∷ []) × (lookup (pos 2) d.clients ≡ none)
unfolding lookup
send_ipc_to_client-lookup_example =
    send_ipc_to_client-lookup (λ c b. false) (pos 2) (pos 2) (codes "x") served

-- Two connections, the third of which fails after one message.
abbrev reads : ℕ → List Read
reads c = if c == 3 then chunk (codes "ab") ∷ failed ∷ [] else chunk (codes "cd") ∷ []

receives-in_order_example :
    let t = receives (4 ∷ 3 ∷ 4 ∷ []) (begin reads) in
    of_connection 3 t.received ++ of_connection 3 (t.pending 3) ≡ codes "ab" ∷ []
unfolding chunks
receives-in_order_example = receives-in_order reads (4 ∷ 3 ∷ 4 ∷ []) 3
