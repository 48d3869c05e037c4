-- ===== src/Rmanager/Process.antt =====
-- rmanager/main.go: the resource manager as a whole. `_initialize` sets three channels with their
-- handlers, in this order, and `ProcessRun` polls them.
use go_test_cluster.Prelude.{
  Bool, true, false, ◌||◌, List, [], ◌∷◌, ◌++◌, Option, none, some, if◌then◌else◌,
}
use go_test_cluster.Ipcs.{Received}
use go_test_cluster.Chhandler.{
  ChannelHandlerData, ChannelLists, Loop, Signal, set_channel_handler, poll_step,
}
use go_test_cluster.Chhandler as Chhandler
use go_test_cluster.Rmanager.Exec.{Rman}
use go_test_cluster.Rmanager.Step.{Op}
use go_test_cluster.Rmanager.Step as Step
use go_test_cluster.Rmanager.Handlers.{
  Desk, Host, process_ipc_srv_message, process_rsc_op_message, process_rsc_op_event,
}

-- `srv` holds what the goroutines of the socket server want to send on its unbuffered channel.
pub record Process : Type 0 where
  pub rman : Rman
  pub desk : Desk
  pub srv : List Received

module _ (h : Host) where
  -- `_cn.ipcSrvRecv_ch`, `_processIpcSrvMessage`
  unfoldable pub server_slot : ChannelHandlerData Process
  unfolding Chhandler.new
  server_slot =
      Chhandler.new (λ p. elim p.srv [ [] ↦ none | m ∷ q ↦ some (m, record p { srv = q }) ])
        (λ m p. record p { desk = process_ipc_srv_message h m p.desk })

  -- `_cn.rscOpRecvMessage_ch`, `_processRscOpMessage`; a panic of the handler ends the process.
  unfoldable pub message_slot : ChannelHandlerData Process
  unfolding Chhandler.new
  message_slot =
      Chhandler.new
        (λ p. elim p.desk.requests [
          | [] ↦ none
          | v ∷ q ↦ some (v, record p { desk = record p.desk { requests = q } })
        ])
        (λ v p. record p {
          rman = elim (process_rsc_op_message v p.rman) [
            | none ↦ record p.rman { crashed = true }
            | some m ↦ m
          ];
        })

  -- `_cn.rscOp_ch`, `_processRscOpEvent`
  unfoldable pub event_slot : ChannelHandlerData Process
  unfolding Chhandler.new
  event_slot =
      Chhandler.new
        (λ p. elim p.rman.rsc_op_ch [
          | [] ↦ none
          | r ∷ q ↦ some (r, record p { rman = record p.rman { rsc_op_ch = q } })
        ])
        (λ r p. record p {
          rman = record p.rman { sent = p.rman.sent ++ r ∷ [] };
          desk = process_rsc_op_event h r p.desk;
        })

  -- `chhandler.ChannelList` after `_initialize`
  unfoldable pub channel_list : ChannelLists Process
  unfolding set_channel_handler
  channel_list =
      let l₁ = set_channel_handler [] server_slot in
      let l₂ = set_channel_handler l₁ message_slot in set_channel_handler l₂ event_slot

-- The event loop waits in a synchronous `ExecRscOp` or for room on `rscOpRecvMessage_ch`, or the
-- process has panicked.
unfoldable pub blocked : Process → Bool
blocked p = p.desk.blocked || (p.rman.crashed || elim p.rman.busy [ none ↦ false | some _ ↦ true ])

-- A turn of the event loop, or what goes on beside it: a signal, a message that a connection reads,
-- and the steps of the jobs and timers.
pub data Event : Type 0 where
  turn : Bool → Event
  signal : Signal → Event
  accept : Received → Event
  aside : Op → Event

-- Does the event loop make this step?
abbrev pub is_loop : Op → Bool
is_loop (Op.request q) = true
is_loop Op.deliver = true
is_loop _ = false

unfoldable pub step : Host → Event → Loop Process → Option (Loop Process)
unfolding blocked
step h (turn favour) l = poll_step blocked (channel_list h) favour l
step h (signal s) l = elim l.signal_ch [
  | [] ↦ some (record l { signal_ch = s ∷ [] })
  | _ ∷ _ ↦ some l
]
step h (accept m) l = some (record l { state = record l.state { srv = l.state.srv ++ m ∷ [] } })
step h (aside o) l = if is_loop o then none else elim (Step.step o l.state.rman) [
  | none ↦ none
  | some m ↦ some (record l { state = record l.state { rman = m } })
]

-- Any interleaving; a step that cannot be taken leaves the state as it is.
unfoldable pub run : Host → List Event → Loop Process → Loop Process
unfolding step
run h [] l = l
run h (e ∷ es) l = run h es (elim (step h e l) [ none ↦ l | some d ↦ d ])
