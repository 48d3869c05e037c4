-- ===== src/TestIpcClient.antt =====
-- test_ipc_client/main.go: a client of the controller's socket, and errs/errs.go, which it calls.
pub mod Dispatch
pub mod Connect
mod Tests
use go_test_cluster.Prelude.{
  ℕ, zero, suc, Bool, true, false, List, [], ◌∷◌, ◌++◌, Option, none, some, ltb, length, get_elem?,
  if◌then◌else◌,
}
use go_test_cluster.Prelude.Int.{ℤ, pos, negsuc, int_eq}
use go_test_cluster.Prelude.Text.{Bytes, codes}
use go_test_cluster.Consts.{controller_id, rmanager_id}
use go_test_cluster.Message.{
  MessageHello, MessageResourceControllRequest, Json, message_id_hello, message_id_resource,
}
use go_test_cluster.Base.{Chan, nil, open_chan, close, ◌>>=◌}
use go_test_cluster.Chhandler.{Signal, sigterm, sigchld, other}

-- What the program prints of a message.
pub data Printed : Type 0 where
  hello : MessageHello → Printed
  resource : MessageResourceControllRequest → Printed
  unmarshal_error unknown_types : Printed

-- `IpcMessageHandler`
pub record IpcMessageHandler : Type 0 where
  pub types : ℤ
  pub handler : Bytes → Printed

-- `message_hello_handler`
unfoldable pub message_hello_handler : Json → Bytes → Printed
message_hello_handler j recv = elim (j.unmarshal_hello recv) [
  | none ↦ unmarshal_error
  | some ms ↦ hello ms
]

-- `message_resource_handler`
unfoldable pub message_resource_handler : Json → Bytes → Printed
message_resource_handler j recv = elim (j.unmarshal_request recv) [
  | none ↦ unmarshal_error
  | some ms ↦ resource ms
]

-- The table that `main` gives to `NewRmanager`.
unfoldable pub main_handlers : Json → List IpcMessageHandler
main_handlers j =
    record { types = message_id_hello; handler = message_hello_handler j }
    ∷ record { types = message_id_resource; handler = message_resource_handler j }
    ∷ []

-- `table[i]` for an `int`; `none` is the panic of an index out of range.
abbrev pub index : List IpcMessageHandler → ℤ → Option IpcMessageHandler
index table (pos n) = get_elem? table n
index table (negsuc n) = none

-- The loop of `ipc_recv_process`: does an entry have this type?
unfoldable pub has_types : ℤ → List IpcMessageHandler → Bool
has_types t [] = false
has_types t (x ∷ xs) = let rest = has_types t xs in if int_eq x.types t then true else rest

-- `ipc_recv_process`: where an entry has the type of the message, the code calls the handler whose
-- index is that type. `none` is a panic. An error of the first `Unmarshal` is only printed.
unfoldable pub ipc_recv_process : Json → List IpcMessageHandler → Bytes → Option Printed
unfolding has_types
ipc_recv_process j table msg =
    let t = (j.unmarshal_common msg).0.header.types in
    if has_types t table
    then elim (index table t) [ none ↦ none | some x ↦ some (x.handler msg) ]
    else some unknown_types

-- `CheckErrorPanic` and `CheckError` of errs/errs.go, which print an error; `none` is a panic.
abbrev pub check_error_panic : Bool → Option Bool
check_error_panic true = none
check_error_panic false = some false

abbrev pub check_error : Bool → Bool
check_error failed = failed

-- `connect`: the sockets that are dialled, how often it sleeps, and the connection; no connection
-- is a panic. `dial path k` is the answer of the `k`th call of `net.Dial`.
pub record Connected : Type 0 where
  pub dialled : List Bytes
  pub sleeps : ℕ
  pub conn : Option ℕ

abbrev pub controller_sock : Bytes
controller_sock = codes "/tmp/controller.sock"

abbrev pub echo_sock : Bytes
echo_sock = codes "/tmp/echo.sock"

-- The loop over the retries, from the `k`th call on.
unfoldable pub redial : (Bytes → ℕ → Option ℕ) → ℕ → ℕ → Connected
redial dial k zero = record { dialled = []; sleeps = 0; conn = none }
redial dial k (suc more) =
    let rest = redial dial (suc k) more in
    elim (dial echo_sock k) [
      | some c ↦ record { dialled = echo_sock ∷ []; sleeps = 1; conn = some c }
      | none ↦ record {
        dialled = echo_sock ∷ rest.dialled;
        sleeps = suc rest.sleeps;
        conn = rest.conn;
      }
    ]

unfoldable pub connect : (Bytes → ℕ → Option ℕ) → Connected
unfolding redial
connect dial =
    let rest = redial dial 1 3 in
    elim (dial controller_sock 0) [
      | some c ↦ record { dialled = controller_sock ∷ []; sleeps = 0; conn = some c }
      | none ↦ record rest { dialled = controller_sock ∷ rest.dialled }
    ]

-- `reader`, over the results of its reads: an error ends it.
unfoldable pub reader : List (Option Bytes) → List Bytes
reader [] = []
reader (none ∷ rs) = []
reader (some d ∷ rs) = d ∷ reader rs

-- A round of `writer`: what it finds on `send_ch`, and whether a write succeeds.
pub record Round : Type 0 where
  pub found : Option Bytes
  pub ok : Bool

-- `writer`: what it has written, and whether it still runs.
unfoldable pub writer : List Round → List Bytes × Bool
writer [] = ([], true)
writer (r ∷ rs) =
    let rest = writer rs in
    elim r.found [
      | none ↦ rest
      | some [] ↦ rest
      | some (b ∷ bs) ↦ if r.ok then ((b ∷ bs) ∷ rest.0, rest.1) else ([], false)
    ]

-- The hello that `Run` sends.
abbrev pub hello_request : ℤ → MessageHello
hello_request pid = record {
  header = record {
    seq_no = 0;
    destination_id = controller_id;
    source_id = rmanager_id;
    types = message_id_hello;
  };
  pid = pid;
  message = codes "HELLO";
}

-- `Rmanager`, as far as `Run` changes it: what is printed, what the main goroutine has received
-- from `exit_ch`, and whether the loop sends there again, or has panicked.
pub record Loop : Type 0 where
  pub printed : List Printed
  pub wait : Option ℕ
  pub hung : Bool
  pub panicked : Bool

-- A case of the `select` of `Run`.
pub data Case : Type 0 where
  signalled : Signal → Case
  received : Bytes → Case

unfoldable pub send_exit : Loop → Loop
send_exit l = elim l.wait [ none ↦ record l { wait = some 1 } | some _ ↦ record l { hung = true } ]

-- One case of `Run`, which a goroutine that waits or has panicked does not reach.
unfoldable pub run_case : Json → List IpcMessageHandler → Case → Loop → Loop
unfolding send_exit
run_case j table (signalled sigchld) l = l
run_case j table (signalled sigterm) l = if l.hung then l else send_exit l
run_case j table (signalled (other n)) l = if l.hung then l else send_exit l
run_case j table (received msg) l = if l.hung then l else elim (ipc_recv_process j table msg) [
  | none ↦ record l { panicked = true }
  | some p ↦ record l { printed = l.printed ++ p ∷ [] }
]

unfoldable pub run : Json → List IpcMessageHandler → List Case → Loop → Loop
unfolding run_case
run j table [] l = l
run j table (c ∷ cs) l = run j table cs (if l.panicked then l else run_case j table c l)

-- The channels: `Init` makes four, `Terminate` closes three.
pub record Channels : Type 0 where
  pub signal_ch : Chan
  pub exit_ch : Chan
  pub recv_ch : Chan
  pub send_ch : Chan

abbrev pub init : Channels
init = record {
  signal_ch = open_chan 1;
  exit_ch = open_chan 0;
  recv_ch = open_chan 0;
  send_ch = open_chan 0;
}

unfoldable pub terminate : Channels → Option Channels
unfolding close
terminate c = do
  e ← close c.exit_ch
  r ← close c.recv_ch
  s ← close c.send_ch
  some (record c { exit_ch = e; recv_ch = r; send_ch = s })
