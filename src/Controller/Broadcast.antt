-- ===== src/Controller/Broadcast.antt =====
-- controller/main.go with corosync/corosync.go: a change of the membership, from the handler of one
-- controller to the event loop of another.
use go_test_cluster.Prelude.{
  ℕ, ◌<◌, ◌≡◌, refl, ap, ◌∙◌, Bool, false, List, [], ◌∷◌, ◌++◌, some, arith, length,
}
use go_test_cluster.Prelude.Text.{Bytes, codes}
use go_test_cluster.Chhandler.{Loop, set_channel_handler}
use go_test_cluster.Chhandler.Pass.{serve_once, poll-quiet}
use go_test_cluster.Chhandler.Turn.{poll_step-free}
use go_test_cluster.Corosync.Callback.{Channels, CorosyncConfchg, coro_cap, go_string}
use go_test_cluster.Corosync.Send.{send_cluster_message, deliver-send}
use go_test_cluster.Controller.Control.{process_confchg, set_nodeid}
use go_test_cluster.Controller.Process.{
  Process, Host, Event, status_slot, server_slot, client_slot, confchg_slot, deliver_slot,
  totemchg_slot, quorumchg_slot, channel_list, blocked, step, with_coro,
}

-- The text that the handler sends.
abbrev pub announcement : Bytes
announcement = codes "xyz----XYZ2"

announcement-text : go_string announcement ≡ announcement
unfolding go_string
announcement-text = refl

abbrev pub delivered : ℕ → ℕ → Channels → Channels
delivered nodeid pid c = record c {
  coro_deliv_chan =
      c.coro_deliv_chan ++ record { nodeid = nodeid; pid = pid; msg = announcement } ∷ [];
}

arrives :
    (g : Host) (l : Loop Process) (nodeid pid : ℕ) (behind : Bytes)
    → length l.state.coro.coro_deliv_chan < coro_cap
    → step g (Event.deliver nodeid pid (send_cluster_message announcement ++ behind)) l
      ≡ some (with_coro l (delivered nodeid pid l.state.coro))
unfolding step
arrives g l nodeid pid behind room =
    ground
      (arith, room, announcement-text, deliver-send announcement behind nodeid pid l.state.coro)

announces :
    (h : Host) (p : Process) (m : CorosyncConfchg) (ms : List CorosyncConfchg)
    → p.coro.coro_cfg_chan ≡ m ∷ ms
    → let d = serve_once (confchg_slot h) p in
      (d.control.multicast ≡ p.control.multicast ++ announcement ∷ []) × (d.coro.coro_cfg_chan ≡ ms)
unfolding confchg_slot process_confchg set_nodeid
announces h p m ms held = ground (arith, held)

confchg-turn :
    (h : Host) (favour : Bool) (k : Loop Process)
    → k.idx ≡ 3
    → k.signal_ch ≡ []
    → k.hung ≡ false
    → blocked k.state ≡ false
    → step h (Event.turn favour) k
      ≡ some (record k { idx = 4; state = serve_once (confchg_slot h) k.state })
unfolding step channel_list set_channel_handler
confchg-turn h favour k at quiet going free =
    poll_step-free blocked (channel_list h) favour k going free
    ∙ ap some (
        poll-quiet (status_slot h ∷ server_slot h ∷ client_slot h ∷ []) (confchg_slot h)
          (deliver_slot h ∷ totemchg_slot h ∷ quorumchg_slot h ∷ []) favour k at quiet)

-- A change of the membership that waits for a controller is announced to the group. When the event
-- loop of that controller comes to the channel of the changes, with no signal and no handler in the
-- way, the turn takes the change from the channel and sends one message to the group. When the library
-- hands the bytes of that message to the callback of another controller, or of the same one, with
-- room on its channel and whatever stands in memory behind those bytes, then its event loop gets the
-- text that was sent, whole, under the id and the pid of the sender, behind what waits there, and
-- nothing else of that controller changes.
pub confchg_announced :
    (h g : Host) (favour : Bool) (k : Loop Process) (m : CorosyncConfchg)
    (ms : List CorosyncConfchg) (l : Loop Process) (nodeid pid : ℕ) (behind : Bytes)
    → k.idx ≡ 3
    → k.signal_ch ≡ []
    → k.hung ≡ false
    → blocked k.state ≡ false
    → k.state.coro.coro_cfg_chan ≡ m ∷ ms
    → length l.state.coro.coro_deliv_chan < coro_cap
    → ((d : Loop Process) × (step h (Event.turn favour) k ≡ some d)
        × (d.state.control.multicast ≡ k.state.control.multicast ++ announcement ∷ [])
        × (d.state.coro.coro_cfg_chan ≡ ms))
      × (step g (Event.deliver nodeid pid (send_cluster_message announcement ++ behind)) l
          ≡ some (with_coro l (delivered nodeid pid l.state.coro)))
confchg_announced h g favour k m ms l nodeid pid behind at quiet going free held room =
    let (sent, taken) = announces h k.state m ms held in
    (
      (
        record k { idx = 4; state = serve_once (confchg_slot h) k.state },
        confchg-turn h favour k at quiet going free,
        sent,
        taken,
      ),
      arrives g l nodeid pid behind room,
    )
