-- ===== src/TestIpcClient/Tests.antt =====
-- The theorems about the test client, at concrete inputs.
use go_test_cluster.Prelude.{ℕ, zero, suc, ◌≤◌, ◌≡◌, refl, [], ◌∷◌, Option, none, some, replicate}
use go_test_cluster.Prelude.Int.{pos}
use go_test_cluster.Prelude.Text.{Bytes}
use go_test_cluster.Samples.{sample_json, sample_hello}
use go_test_cluster.TestIpcClient.{
  hello, controller_sock, echo_sock, connect, ipc_recv_process, main_handlers,
  message_hello_handler,
}
use go_test_cluster.TestIpcClient.Dispatch.{
  ipc_recv_process-by_types, main_handlers-IsIndexed, by_types,
}
use go_test_cluster.TestIpcClient.Connect.{connect-dialled}

ipc_recv_process-by_types_example :
    ipc_recv_process sample_json (main_handlers sample_json) (7 ∷ 0 ∷ [])
    ≡ some (by_types (pos 0) (main_handlers sample_json) (7 ∷ 0 ∷ []))
ipc_recv_process-by_types_example =
    ipc_recv_process-by_types sample_json (main_handlers sample_json) (7 ∷ 0 ∷ [])
      (main_handlers-IsIndexed sample_json)

printed_hello : by_types (pos 0) (main_handlers sample_json) (7 ∷ 0 ∷ []) ≡ hello sample_hello
unfolding by_types main_handlers message_hello_handler
printed_hello = refl

-- Only the second redial gives a connection.
abbrev dial : Bytes → ℕ → Option ℕ
dial path zero = none
dial path (suc zero) = none
dial path (suc (suc k)) = some k

connect-dialled_example :
    let r = connect dial in
    (r.conn ≡ some 0)
    × (r.dialled ≡ controller_sock ∷ replicate r.sleeps echo_sock)
    × (r.sleeps ≤ 3)
connect-dialled_example = connect-dialled dial
