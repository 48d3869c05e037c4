-- ===== src/Controller/Control.antt =====
-- controller/control.go and the event handlers of controller/main.go. The event loop is one
-- goroutine; an `Op` is a message that it takes, or what reaches the controller from outside.
use go_test_cluster.Prelude.{
  ℕ, ◌+◌, Bool, true, false, ◌||◌, ◌&&◌, List, [], ◌∷◌, ◌++◌, Option, none, some, ◌==◌, leb, length,
  if◌then◌else◌,
}
use go_test_cluster.Prelude.Int.{ℤ, pos, int_eq}
use go_test_cluster.Prelude.Text.{Bytes, codes}
use go_test_cluster.Prelude.Channel.{push}
use go_test_cluster.Consts.{
  buff_max, controller_id, rmanager_id, startup, all_client_up, control_resource, operational,
}
use go_test_cluster.Message.{
  MessageHeader, MessageHello, MessageResourceControllRequest, Json, message_id_hello,
  message_id_resource, message_id_resource_response,
}
use go_test_cluster.Ipcc.{Client, IpcClientMsg, get_seqno, contents, overwrite, chan_cap}
use go_test_cluster.Ipcc as Ipcc

-- A call that the controller makes on `rmanConnect`.
pub data Call : Type 0 where
  send_async : MessageHello → Call
  send_sync : MessageResourceControllRequest → Call

-- `Controll`, the variable `step` of control.go, the calls made on `rmanConnect` and the messages
-- multicast through Corosync. `waiting`: the event loop is in `SendRecv`. `stuck`: it has sent on
-- `Status_ch` when that was full, and it is itself the only receiver there.
pub record Controll : Type 0 where
  pub nodeid : ℕ  -- uint
  pub status : ℤ
  pub status_ch : List ℤ
  pub rman_connect : Client
  pub step : ℕ
  pub calls : List Call
  pub multicast : List Bytes
  pub waiting : Bool
  pub stuck : Bool

-- `InitBase` makes `Status_ch` with this capacity.
abbrev pub status_cap : ℕ
status_cap = 2

-- `Init`
unfoldable pub init : Controll
init = record {
  nodeid = 0;
  status = startup;
  status_ch = [];
  rman_connect = Ipcc.new;
  step = 1;
  calls = [];
  multicast = [];
  waiting = false;
  stuck = false;
}

-- `Status_ch <- s`, by the event loop.
unfoldable pub send_status : ℤ → Controll → Controll
send_status s c = elim (push status_cap s c.status_ch) [
  | none ↦ record c { stuck = true }
  | some q ↦ record c { status_ch = q }
]

abbrev pub resource_name : Bytes
resource_name = codes "/usr/lib/ocf/resource.d/heartbeat/Dummy2"

abbrev pub header_to_rmanager : ℕ → ℤ → MessageHeader
header_to_rmanager n types = record {
  seq_no = n;
  destination_id = rmanager_id;
  source_id = controller_id;
  types = types;
}

-- The two requests of `_resourceControl`, which differ in their operation and its intervals.
abbrev pub request_of : ℕ → Bytes → ℤ → ℤ → Bool → MessageResourceControllRequest
request_of n op interval timeout async = record {
  header = header_to_rmanager n message_id_resource;
  rscid = pos 1;
  operation = op;
  resource_name = resource_name;
  interval = interval;
  timeout = timeout;
  delay = pos 0;
  async = async;
  param_len = pos 1;
  parameters = record { name = op; value = codes "0" } ∷ [];
}

abbrev pub start_request : ℕ → MessageResourceControllRequest
start_request n = request_of n (codes "start") (pos 0) (pos 30000) false

abbrev pub monitor_request : ℕ → MessageResourceControllRequest
monitor_request n = request_of n (codes "monitor") (pos 5000) (pos 20000) true

-- `GetSeqno`, and `SendRecv` up to its wait.
send_recv : (ℕ → MessageResourceControllRequest) → Controll → Controll
send_recv f c =
    let (n, k) = get_seqno c.rman_connect in
    record c { rman_connect = k; calls = c.calls ++ send_sync (f n) ∷ []; waiting = true }

-- `_resourceControl`, with its result 1 (a request was sent) or 0. `step` is increased when
-- `SendRecv` returns.
unfoldable pub resource_control : Controll → Controll × ℕ
unfolding send_recv
resource_control c =
    if c.step == 1
    then (send_recv start_request c, 1)
    else if c.step == 2
    then (send_recv monitor_request c, 1)
    else (c, 0)

-- `SendRecv` returns: it puts the reply on `ipcClient_ch`, and `_resourceControl` goes on.
unfoldable pub send_recv_return : IpcClientMsg → Controll → Option Controll
send_recv_return m c =
    if c.waiting
    then elim (push chan_cap m c.rman_connect.ipcrecv_ch) [
      | none ↦ none
      | some q ↦ some (record c {
        rman_connect = record c.rman_connect { ipcrecv_ch = q };
        waiting = false;
        step = c.step + 1;
      })
    ]
    else none

abbrev pub hello_request : ℤ → MessageHello
hello_request pid = record {
  header = header_to_rmanager 0 message_id_hello;
  pid = pid;
  message = codes "HELLO";
}

-- `_processStatus`; `pid` is `os.Getpid()`.
unfoldable pub process_status : ℤ → ℤ → Controll → Controll
process_status pid v c =
    if int_eq v startup
    then record c { status = all_client_up; calls = c.calls ++ send_async (hello_request pid) ∷ [] }
    else if int_eq v control_resource
    then (let (d, r) = resource_control c in if r == 0 then send_status operational d else d)
    else c

-- `_processIpcClientMessage`
unfoldable pub process_ipc_client : Json → IpcClientMsg → Controll → Controll
process_ipc_client j m c =
    if int_eq m.head.types message_id_resource_response
    then elim (j.unmarshal_response (contents m.all c.rman_connect)) [
      | none ↦ c
      | some _ ↦ send_status control_resource c
    ]
    else if int_eq m.head.types message_id_hello
    then (if c.nodeid == 0 then send_status startup c else send_status control_resource c)
    else c

-- `_setNodeid`; `id` is `corosync.GetLocalId()`.
unfoldable pub set_nodeid : ℕ → Controll → Controll
set_nodeid id c = if c.nodeid == 0 then record c { nodeid = id } else c

-- `_processConfchgCallback`: what it prints is left out.
unfoldable pub process_confchg : ℕ → Controll → Controll
process_confchg id c =
    let d = set_nodeid id c in record d { multicast = d.multicast ++ codes "xyz----XYZ2" ∷ [] }

-- `_processMsgDeliverCallback` and `_processTotemchgCallback` print, besides. The callback for a
-- change of quorum only prints.
unfoldable pub process_deliver : ℕ → Controll → Controll
process_deliver id c = set_nodeid id c

unfoldable pub process_totemchg : ℕ → Controll → Controll
process_totemchg id c = set_nodeid id c

-- `boot` is the `STARTUP` that `ProcessRun` sends; `incoming` a message that the dispatcher of
-- `rmanConnect` puts on `ipcClient_ch`; `returns` the reply that ends `SendRecv`; `reads` a `Read` of
-- its receiver into the buffer whose slices the messages are.
pub data Op : Type 0 where
  boot take_status take_client : Op
  incoming returns : IpcClientMsg → Op
  confchg deliver totemchg : ℕ → Op
  reads : Bytes → Op

unfoldable pub loop_step : Json → ℤ → Op → Controll → Option Controll
loop_step j pid boot c = elim (push status_cap startup c.status_ch) [
  | none ↦ none
  | some q ↦ some (record c { status_ch = q })
]
loop_step j pid take_status c = elim c.status_ch [
  | [] ↦ none
  | v ∷ q ↦ some (process_status pid v (record c { status_ch = q }))
]
loop_step j pid take_client c = elim c.rman_connect.ipcrecv_ch [
  | [] ↦ none
  | m ∷ q ↦ some (
      process_ipc_client j m (record c { rman_connect = record c.rman_connect { ipcrecv_ch = q } }))
]
loop_step j pid (incoming m) c = elim (push chan_cap m c.rman_connect.ipcrecv_ch) [
  | none ↦ none
  | some q ↦ some (record c { rman_connect = record c.rman_connect { ipcrecv_ch = q } })
]
loop_step j pid (returns m) c = send_recv_return m c
loop_step j pid (confchg id) c = some (process_confchg id c)
loop_step j pid (deliver id) c = some (process_deliver id c)
loop_step j pid (totemchg id) c = some (process_totemchg id c)
loop_step j pid (reads b) c =
    if leb (length b) buff_max
    then some
        (record c { rman_connect = record c.rman_connect { buf = overwrite b c.rman_connect.buf } })
    else none

-- Does the event loop make this step?
abbrev pub is_loop : Op → Bool
is_loop boot = false
is_loop (incoming m) = false
is_loop (returns m) = false
is_loop (reads b) = false
is_loop _ = true

-- In `SendRecv`, or stuck, the event loop takes no message; what comes from outside still does.
unfoldable pub loop : Json → ℤ → Op → Controll → Option Controll
loop j pid o c = if (c.stuck || c.waiting) && is_loop o then none else loop_step j pid o c

-- Any interleaving; a step that cannot be taken leaves the state as it is.
unfoldable pub run : Json → ℤ → List Op → Controll → Controll
run j pid [] c = c
run j pid (o ∷ os) c = run j pid os (elim (loop j pid o c) [ none ↦ c | some d ↦ d ])
