-- ===== src/TestIpcClient/Connect.antt =====
-- test_ipc_client/main.go: `connect` and its retries.
use go_test_cluster.Prelude.{ℕ, ◌≤◌, ◌≡◌, ◌∷◌, Option, none, some, arith, replicate}
use go_test_cluster.Prelude.Text.{Bytes}
use go_test_cluster.TestIpcClient.{controller_sock, echo_sock, redial, connect}

infixr 5 ◌or_else◌
abbrev pub ◌or_else◌ : Option ℕ → Option ℕ → Option ℕ
none or_else b = b
some a or_else b = some a

-- The connection is the first that one of four calls gives: one of the controller's socket and then
-- three of another one, /tmp/echo.sock. There is a sleep before each of the three that is made, and
-- none of them dials the controller again; if all fail, the client panics.
pub connect-dialled :
    (dial : Bytes → ℕ → Option ℕ)
    → let r = connect dial in
      (r.conn
        ≡ dial controller_sock 0
          or_else (dial echo_sock 1 or_else (dial echo_sock 2 or_else dial echo_sock 3)))
      × (r.dialled ≡ controller_sock ∷ replicate r.sleeps echo_sock)
      × (r.sleeps ≤ 3)
unfolding connect redial
connect-dialled dial = ground arith
