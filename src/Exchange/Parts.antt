-- ===== src/Exchange/Parts.antt =====
-- The controller and the resource manager together: the monitor request of `_resourceControl` as
-- rmanager/ gets it, and the two parts at their start.
use go_test_cluster.Prelude.{ℕ, ◌≡◌, refl, true, false, [], ◌∷◌, none, some, int_key, nat_eq}
use go_test_cluster.Prelude.Int.{ℤ, pos}
use go_test_cluster.Prelude.Text.{codes}
use go_test_cluster.Consts.{cl_ok}
use go_test_cluster.Message.{MessageResourceControllResponse, parameters_to_string-take}
use go_test_cluster.Ipcc.{Client}
use go_test_cluster.Chhandler.{Loop}
use go_test_cluster.Controller.Control.{monitor_request}
use go_test_cluster.Rmanager.Exec.{Request, new, result}
use go_test_cluster.Rmanager.Handlers.{Desk, Host, request_of, response_of}
use go_test_cluster.Rmanager.Process.{Process}
use go_test_cluster.Rmanager.Turns.{process_of}

-- The call of `ExecRscOp` that the monitor request leads to.
abbrev pub monitor_call : ℕ → Request
monitor_call n = record {
  seqno = n;
  rscid = pos 1;
  rsc = codes "/usr/lib/ocf/resource.d/heartbeat/Dummy2";
  parameters = codes "monitor=0" ∷ [];
  op = codes "monitor";
  interval = pos 5000;
  timeout = pos 20000;
  delay_ms = pos 0;
  async = true;
}

pub monitor_asked : (n : ℕ) → request_of (monitor_request n) ≡ some (monitor_call n)
unfolding request_of
monitor_asked n =
    rw (parameters_to_string-take (pos 1) (monitor_request n).parameters, request_of) refl

abbrev pub monitor_response : Host → ℕ → ℤ → MessageResourceControllResponse
monitor_response h n pid = response_of h.pid (result (monitor_call n) pid cl_ok none (pos 0))

-- The event loop of the controller has taken the message.
abbrev pub emptied : Client → Client
emptied c = record c { ipcrecv_ch = [] }

-- The resource manager at its start.
abbrev pub first_desk : Desk
first_desk = record { server = record { clients = []; net = [] }; requests = []; blocked = false }

abbrev pub first_loop : Loop Process
first_loop = record {
  idx = 0;
  signal_ch = [];
  wait = none;
  hung = false;
  state = process_of new first_desk [];
}
