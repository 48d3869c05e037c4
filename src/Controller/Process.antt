-- ===== src/Controller/Process.antt =====
-- controller/main.go: the controller as a whole. `_initialize` and `main` set seven channels with
-- their handlers, in this order, and `ProcessRun` polls them.
use go_test_cluster.Prelude.{
  ℕ, ◌+◌, Bool, ◌||◌, List, [], ◌∷◌, ◌++◌, Option, none, some, leb, length, if◌then◌else◌,
}
use go_test_cluster.Prelude.Int.{ℤ}
use go_test_cluster.Prelude.Text.{Bytes}
use go_test_cluster.Prelude.Channel.{push}
use go_test_cluster.Consts.{startup, buff_max}
use go_test_cluster.Message.{Json}
use go_test_cluster.Ipcc.{IpcClientMsg, overwrite, chan_cap}
use go_test_cluster.Ipcs.{Server, Received}
use go_test_cluster.Chhandler.{
  ChannelHandlerData, ChannelLists, Loop, Signal, set_channel_handler, poll_step,
}
use go_test_cluster.Chhandler as Chhandler
use go_test_cluster.Corosync.Callback.{
  Channels, Array, ListData, confchg_callback, deliver_callback, totemchg_callback,
  quorumchg_callback,
}
use go_test_cluster.Controller.Control.{
  Controll, status_cap, process_status, process_ipc_client, process_confchg, process_deliver,
  process_totemchg, send_recv_return,
}
use go_test_cluster.Controller.Clients as Clients

-- `srv` holds what the goroutines of the socket server want to send on its unbuffered channel;
-- `asked` counts the callbacks that may ask `corosync.GetLocalId()`.
pub record Process : Type 0 where
  pub control : Controll
  pub server : Server
  pub srv : List Received
  pub coro : Channels
  pub asked : ℕ

-- What the program asks of its surroundings: encoding/json, whether a write on a connection
-- succeeds, its process id, and what `corosync.GetLocalId()` gives each time.
pub record Host : Type 0 where
  pub json : Json
  pub write : ℕ → Bytes → Bool
  pub pid : ℤ
  pub local_id : ℕ → ℕ

module _ (h : Host) where
  -- `_cn.Status_ch`, `_processStatus`
  unfoldable pub status_slot : ChannelHandlerData Process
  unfolding Chhandler.new
  status_slot =
      Chhandler.new
        (λ p. elim p.control.status_ch [
          | [] ↦ none
          | v ∷ q ↦ some (v, record p { control = record p.control { status_ch = q } })
        ])
        (λ v p. record p { control = process_status h.pid v p.control })

  -- `_cn.ipcSrvRecv_ch`, `_processIpcSrvMessage`
  unfoldable pub server_slot : ChannelHandlerData Process
  unfolding Chhandler.new
  server_slot =
      Chhandler.new (λ p. elim p.srv [ [] ↦ none | m ∷ q ↦ some (m, record p { srv = q }) ])
        (λ m p. record p {
          server = Clients.process_ipc_srv_message h.json h.write h.pid m p.server;
        })

  -- `_cn.ipcClient_ch`, `_processIpcClientMessage`
  unfoldable pub client_slot : ChannelHandlerData Process
  unfolding Chhandler.new
  client_slot =
      Chhandler.new
        (λ p. elim p.control.rman_connect.ipcrecv_ch [
          | [] ↦ none
          | m ∷ q ↦ some (
            m,
            record p {
              control = record p.control {
                rman_connect = record p.control.rman_connect { ipcrecv_ch = q };
              };
            },
          )
        ])
        (λ m p. record p { control = process_ipc_client h.json m p.control })

  -- `_chConfchg`, `_processConfchgCallback`
  unfoldable pub confchg_slot : ChannelHandlerData Process
  unfolding Chhandler.new
  confchg_slot =
      Chhandler.new
        (λ p. elim p.coro.coro_cfg_chan [
          | [] ↦ none
          | m ∷ q ↦ some (m, record p { coro = record p.coro { coro_cfg_chan = q } })
        ])
        (λ m p. record p {
          control = process_confchg (h.local_id p.asked) p.control;
          asked = p.asked + 1;
        })

  -- `_chMsgDeliv`, `_processMsgDeliverCallback`
  unfoldable pub deliver_slot : ChannelHandlerData Process
  unfolding Chhandler.new
  deliver_slot =
      Chhandler.new
        (λ p. elim p.coro.coro_deliv_chan [
          | [] ↦ none
          | m ∷ q ↦ some (m, record p { coro = record p.coro { coro_deliv_chan = q } })
        ])
        (λ m p. record p {
          control = process_deliver (h.local_id p.asked) p.control;
          asked = p.asked + 1;
        })

  -- `_chTotemchg`, `_processTotemchgCallback`
  unfoldable pub totemchg_slot : ChannelHandlerData Process
  unfolding Chhandler.new
  totemchg_slot =
      Chhandler.new
        (λ p. elim p.coro.coro_totem_chan [
          | [] ↦ none
          | m ∷ q ↦ some (m, record p { coro = record p.coro { coro_totem_chan = q } })
        ])
        (λ m p. record p {
          control = process_totemchg (h.local_id p.asked) p.control;
          asked = p.asked + 1;
        })

  -- `_chQuorumchg`, `_processQuorumchgCallback`, which only prints
  unfoldable pub quorumchg_slot : ChannelHandlerData Process
  unfolding Chhandler.new
  quorumchg_slot =
      Chhandler.new
        (λ p. elim p.coro.coro_quorum_chan [
          | [] ↦ none
          | m ∷ q ↦ some (m, record p { coro = record p.coro { coro_quorum_chan = q } })
        ])
        (λ m p. p)

  -- `chhandler.ChannelList` after `_initialize` and the start of `main`.
  unfoldable pub channel_list : ChannelLists Process
  unfolding set_channel_handler
  channel_list =
      let l₁ = set_channel_handler [] status_slot in
      let l₂ = set_channel_handler l₁ server_slot in
      let l₃ = set_channel_handler l₂ client_slot in
      let l₄ = set_channel_handler l₃ confchg_slot in
      let l₅ = set_channel_handler l₄ deliver_slot in
      let l₆ = set_channel_handler l₅ totemchg_slot in set_channel_handler l₆ quorumchg_slot

-- A handler has not returned: it waits in `SendRecv`, or has sent on the full status channel.
unfoldable pub blocked : Process → Bool
blocked p = p.control.stuck || p.control.waiting

-- A turn of the event loop, or what comes from outside: a signal, the `STARTUP` of `ProcessRun`, a
-- message of a client, what the receiver of `rmanConnect` reads and its dispatcher hands over, and
-- Corosync's callbacks.
pub data Event : Type 0 where
  turn : Bool → Event
  signal : Signal → Event
  boot : Event
  accept : Received → Event
  incoming returns : IpcClientMsg → Event
  confchg : Array ListData → Array ListData → Array ListData → Event
  deliver : ℕ → ℕ → Bytes → Event
  totemchg : Array ℕ → Event
  quorumchg : ℕ → Event
  reads : Bytes → Event

abbrev pub with_control : Loop Process → Controll → Loop Process
with_control l c = record l { state = record l.state { control = c } }

abbrev pub with_coro : Loop Process → Channels → Loop Process
with_coro l c = record l { state = record l.state { coro = c } }

-- A step that has to wait for room on a channel is `none`. `Signal_ch` has room for one signal, and
-- `signal.Notify` drops what finds it full.
unfoldable pub step : Host → Event → Loop Process → Option (Loop Process)
unfolding blocked
step h (turn favour) l = poll_step blocked (channel_list h) favour l
step h (signal s) l = elim l.signal_ch [
  | [] ↦ some (record l { signal_ch = s ∷ [] })
  | _ ∷ _ ↦ some l
]
step h boot l = elim (push status_cap startup l.state.control.status_ch) [
  | none ↦ none
  | some q ↦ some (with_control l (record l.state.control { status_ch = q }))
]
step h (accept m) l = some (record l { state = record l.state { srv = l.state.srv ++ m ∷ [] } })
step h (incoming m) l = elim (push chan_cap m l.state.control.rman_connect.ipcrecv_ch) [
  | none ↦ none
  | some q ↦ some (
      with_control l (record l.state.control {
        rman_connect = record l.state.control.rman_connect { ipcrecv_ch = q };
      }))
]
step h (returns m) l = elim (send_recv_return m l.state.control) [
  | none ↦ none
  | some c ↦ some (with_control l c)
]
step h (reads b) l =
    if leb (length b) buff_max
    then some (
        with_control l (record l.state.control {
          rman_connect = record l.state.control.rman_connect {
            buf = overwrite b l.state.control.rman_connect.buf;
          };
        }))
    else none
step h (confchg ms ls js) l = elim (confchg_callback ms ls js l.state.coro) [
  | none ↦ none
  | some c ↦ some (with_coro l c)
]
step h (deliver n p msg) l = elim (deliver_callback n p msg l.state.coro) [
  | none ↦ none
  | some c ↦ some (with_coro l c)
]
step h (totemchg ms) l = elim (totemchg_callback ms l.state.coro) [
  | none ↦ none
  | some c ↦ some (with_coro l c)
]
step h (quorumchg q) l = elim (quorumchg_callback q l.state.coro) [
  | none ↦ none
  | some c ↦ some (with_coro l c)
]

-- Any interleaving; a step that cannot be taken leaves the state as it is.
unfoldable pub run : Host → List Event → Loop Process → Loop Process
unfolding step
run h [] l = l
run h (e ∷ es) l = run h es (elim (step h e l) [ none ↦ l | some d ↦ d ])
