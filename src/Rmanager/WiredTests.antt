-- ===== src/Rmanager/WiredTests.antt =====
-- Runs of the resource manager as the program wires it, and the theorems at concrete inputs.
use go_test_cluster.Message.{MessageResourceControllRequest, parameters_to_string}
use go_test_cluster.Rmanager.Step.{start, exits, report, calls, Op}
use go_test_cluster.Ipcs.{text, ClientConnect, wrote, client}
use go_test_cluster.Prelude.Text.{codes}
use go_test_cluster.Prelude.{
  ◌≡◌, refl, true, false, List, [], ◌∷◌, none, some, All, map, int_key, bytes_key,
}
use go_test_cluster.Prelude.Int.{pos}
use go_test_cluster.Prelude.Dict.{lookup}
use go_test_cluster.Samples.{sample_json, sample_request}
use go_test_cluster.Rmanager.Step as Step
use go_test_cluster.Rmanager.Exec.{Request, new, exec_rsc_op}
use go_test_cluster.Recipe.{no_resources, no_config}
use go_test_cluster.Chhandler.{Loop, poll_step}
use go_test_cluster.Rmanager.Process as Process
use go_test_cluster.Rmanager.Way.{service}
use go_test_cluster.Rmanager.Service.{service_answers}
use go_test_cluster.Rmanager.Turns.{at_place, process_of}
use go_test_cluster.Rmanager.Startup.{Surroundings, main, main-never_exits}
use go_test_cluster.Rmanager.Progress.{IsStepOf}
use go_test_cluster.Rmanager.Wired.{wired_wait_ends}
use go_test_cluster.Rmanager.Waits.{Ended}
use go_test_cluster.Rmanager.Handlers.{
  Desk, Host, request_of, message_resource_handler, process_rsc_op_message, process_ipc_srv_message,
}

abbrev host : Host
host = record { json = sample_json; write = λ c b. true; pid = pos 9 }

-- The connection of the controller.
abbrev controller : ClientConnect
controller = record { con = 4; message = [] }

abbrev registered : Desk
registered = record {
  server = record { clients = (pos 1, controller) ∷ []; net = [] };
  requests = [];
  blocked = false;
}

abbrev sample_call : Request
sample_call = record {
  seqno = 8;
  rscid = pos 1;
  rsc = codes "Dummy";
  parameters = [];
  op = codes "start";
  interval = pos 0;
  timeout = pos 20;
  delay_ms = pos 0;
  async = false;
}

abbrev at_head : Loop Process.Process
at_head = record {
  idx = 0;
  signal_ch = [];
  wait = none;
  hung = false;
  state = process_of new registered [];
}

service_answers_example :
    let e =
      Process.run host
        (service host 3 sample_request 0 (pos 77) true)
        (at_place 0 (process_of new registered []) at_head) in
    (e.state.desk.server.net ≡ wrote 4 (8 ∷ 2 ∷ []) ∷ [])
    × (Process.blocked e.state ≡ false)
    × (e.idx ≡ 0)
    × (e.state.desk.requests ≡ [])
unfolding new request_of parameters_to_string lookup
service_answers_example =
    service_answers host 3 sample_request sample_call (pos 77) true new registered at_head
      controller
      (record {
        quiet = refl;
        going = refl;
        idle = record { alive = refl; free = refl; drained = refl; older = tt; earlier = tt };
        empty = refl;
        open_desk = refl;
      })
      (record {
        codec = record { common = refl; whole = refl };
        kind = refl;
        asked = refl;
        once = refl;
      })
      refl refl refl

abbrev files_there : Surroundings
files_there = record {
  files = record {
    read_file = λ f. some [];
    unmarshal_resources = λ b r. (no_resources, false);
    unmarshal_config = λ b c. (no_config, false);
  };
  syslog = true;
}

main-never_exits_example : main files_there ≡ none
main-never_exits_example = main-never_exits files_there

-- A request for a start comes and is taken in: the event loop waits for its agent.
abbrev asked : List Process.Event
asked =
    Process.accept (client (record { con = 3; message = 8 ∷ 1 ∷ [] }))
    ∷ Process.turn false
    ∷ Process.turn false
    ∷ []

wired_wait_ends_example :
    (more : List Op) × (All (IsStepOf 0) more)
    × Ended (Process.run host (map Process.aside more) (Process.run host asked at_head)).state.rman
unfolding Process.run Process.step poll_step new Process.channel_list Process.server_slot
    process_ipc_srv_message message_resource_handler Process.message_slot process_rsc_op_message
    parameters_to_string exec_rsc_op
wired_wait_ends_example = wired_wait_ends host asked at_head 0 refl refl refl refl

-- A request to stop the resource waits for the event loop.
abbrev stop_message : MessageResourceControllRequest
stop_message = record sample_request { operation = codes "stop" }

abbrev stop_call : Request
stop_call = record sample_call { op = codes "stop" }

-- A timer of another resource is armed.
abbrev other_call : Request
other_call = record sample_call { rscid = pos 2; op = codes "monitor"; interval = pos 1000 }

abbrev stop_waits : Loop Process.Process
stop_waits = record at_head {
  state =
      process_of (record new { armed = (0, other_call) ∷ []; next_timer = 1 })
        (record registered { requests = stop_message ∷ [] }) [];
}

-- That timer's function passes its check before the stop is recorded, and makes its call then.
-- The stop is run to its end, while a connection is closed.
abbrev stopping : List Process.Event
stopping =
    Process.aside (start 0 (some (pos 77)))
    ∷ Process.accept (text (codes "exit"))
    ∷ Process.aside (exits 0 true)
    ∷ Process.aside (calls 0)
    ∷ Process.aside (report 0)
    ∷ Process.turn false
    ∷ []
