-- ===== src/Controller/Wired.antt =====
-- controller/: what holds of any run of the event loop, in the controller as the program wires it.
use go_test_cluster.Prelude.{◌≡◌, ◌≤◌, ◌≢◌, ◌∙◌, ap, true, List, length}
use go_test_cluster.Ipcc.{chan_cap}
use go_test_cluster.Chhandler.{Loop}
use go_test_cluster.Controller.Control.{Controll}
use go_test_cluster.Controller.Process.{Process, Host, Event, run}
use go_test_cluster.Controller.Refine.{run-Follows}
use go_test_cluster.Controller.Blocked.{full_channel_blocks}
use go_test_cluster.Controller.Identity.{run-nodeid}

-- When the event loop waits in `SendRecv` while `ipcrecv_ch` is full, which twelve messages that are
-- no replies bring about, then the controller waits for ever: whatever its channels, Corosync, its
-- clients, signals and the reply itself bring, `SendRecv` does not return, no further call is made,
-- and the plan does not go on.
pub wired_full_channel_blocks :
    (h : Host) (es : List Event) (l : Loop Process)
    → l.state.control.waiting ≡ true
    → chan_cap ≤ length l.state.control.rman_connect.ipcrecv_ch
    → let d = (run h es l).state.control in
      (d.waiting ≡ true) × (d.calls ≡ l.state.control.calls) × (d.step ≡ l.state.control.step)
wired_full_channel_blocks h es l waits full =
    let (os, same) = run-Follows h es l in
    let (waiting, calls, step) = full_channel_blocks h.json h.pid os l.state.control waits full in
    (
      ap (λ (c : Controll). c.waiting) same ∙ waiting,
      ap (λ (c : Controll). c.calls) same ∙ calls,
      ap (λ (c : Controll). c.step) same ∙ step,
    )

-- Once the controller has a node id that is not 0 it keeps it, whatever ids the later callbacks get: an
-- id that the first one got wrong is never corrected.
pub wired_nodeid_stays :
    (h : Host) (es : List Event) (l : Loop Process)
    → l.state.control.nodeid ≢ 0
    → (run h es l).state.control.nodeid ≡ l.state.control.nodeid
wired_nodeid_stays h es l known =
    let (os, same) = run-Follows h es l in
    ap (λ (c : Controll). c.nodeid) same ∙ run-nodeid h.json h.pid os l.state.control known
