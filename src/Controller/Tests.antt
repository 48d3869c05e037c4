-- ===== src/Controller/Tests.antt =====
-- The theorems about the controller, at concrete inputs.
use go_test_cluster.Prelude.{
  replicate, int_key, length, ℕ, ◌≤◌, ◌≡◌, refl, true, false, List, [], ◌∷◌, ◌++◌, none, some,
  arith, inl, map, Bool,
}
use go_test_cluster.Ipcc.{chan_cap, IpcClientMsg, get_seqno}
use go_test_cluster.Samples.{sample_response, sample_json, sample_hello, header_of}
use go_test_cluster.Corosync.Callback.{CorosyncConfchg}
use go_test_cluster.Corosync.Node as Node
use go_test_cluster.Corosync.Send.{send_cluster_message}
use go_test_cluster.Controller.Plan.{IsReply, course, plan_completes}
use go_test_cluster.Controller.Control.{
  send_async, send_sync, hello_request, Controll, init, start_request, monitor_request,
  process_status, process_ipc_client, process_confchg, resource_control, send_recv_return,
  send_status, set_nodeid, Op, boot, take_status, take_client, incoming, returns, confchg,
  loop_step, loop, run,
}
use go_test_cluster.Controller.Wired.{wired_full_channel_blocks, wired_nodeid_stays}
use go_test_cluster.Consts.{control_resource, operational}
use go_test_cluster.Controller.Process.{
  blocked, channel_list, status_slot, client_slot, confchg_slot, deliver_slot, totemchg_slot,
  quorumchg_slot,
}
use go_test_cluster.Controller.Broadcast.{announcement, delivered, confchg_announced}
use go_test_cluster.Controller.Clients.{process_ipc_srv_message, hello_registered}
use go_test_cluster.Ipcs.{ClientConnect, Server, client, wrote}
use go_test_cluster.Prelude.Dict.{lookup}
use go_test_cluster.Prelude.Int.{pos}
use go_test_cluster.Prelude.Text.{Bytes, codes}
use go_test_cluster.Message.{MessageResourceControllRequest}
use go_test_cluster.Ipcc as Ipcc
use go_test_cluster.Recipe.{Files, no_resources, no_config}
use go_test_cluster.Chhandler.{Loop}
use go_test_cluster.Controller.Process as Wired
use go_test_cluster.Controller.Process.{Host, Event}
use go_test_cluster.Controller.Pass.{passed, pass-passed}
use go_test_cluster.Chhandler.{set_channel_handler}
use go_test_cluster.Controller.Startup.{Surroundings}
use go_test_cluster.Controller.Requests.{requests, requests_on_plan}
use go_test_cluster.Controller.Overflow.{turn, report_burst_blocks}
use go_test_cluster.Controller.Childs.{
  ChildInfo, spawned, failed, Started, process, child_start, child_stop, running,
  child_stop-running, child_start-failed,
}

abbrev hello : IpcClientMsg
hello = record { head = header_of (0 ∷ 0 ∷ []); all = 2 }

-- The node id comes, the resource manager answers the hello, and the start returns.
abbrev morning : List Op
morning =
    boot ∷ confchg 5 ∷ take_status ∷ incoming hello ∷ take_client ∷ take_status ∷ returns hello ∷ []

morning_step : (run sample_json (pos 9) morning init).step ≡ 2
unfolding run loop loop_step process_confchg process_status process_ipc_client resource_control
    send_recv_return send_status set_nodeid init get_seqno Ipcc.new
morning_step = refl

requests_on_plan_example :
    let c = run sample_json (pos 9) morning init in
    (rest : List MessageResourceControllRequest) × (requests c.calls ++ rest
      ≡ start_request 1 ∷ monitor_request 2 ∷ [])
    × (c.step ≤ 3)
    × (length (requests c.calls) ≤ c.step)
requests_on_plan_example = requests_on_plan sample_json (pos 9) morning

abbrev settled : Controll
settled = record init {
  nodeid = 5;
  step = 3;
  rman_connect = record Ipcc.new { ipcrecv_ch = hello ∷ hello ∷ hello ∷ hello ∷ [] };
}

report_burst_blocks_example :
    let os = take_status ∷ boot ∷ incoming hello ∷ [] in
    let d = run sample_json (pos 9) (turn ++ (turn ++ (turn ++ (turn ++ os)))) settled in
    (d.stuck ≡ true)
    × (d.calls ≡ settled.calls)
    × (d.step ≡ settled.step)
    × (d.status ≡ settled.status)
    × (d.status_ch ≡ control_resource ∷ operational ∷ [])
unfolding init Ipcc.new
report_burst_blocks_example =
    report_burst_blocks sample_json (pos 9) settled hello hello hello hello []
      (take_status ∷ boot ∷ incoming hello ∷ []) (omega arith) (omega arith) refl refl refl refl
      (inl refl) (inl refl) (inl refl) (inl refl)

abbrev child : ℕ → ChildInfo
child n = record { name = codes "controller"; path = codes "/bin/a"; pid = pos n }

child_stop-running_example :
    let cs = child 4 ∷ child 0 ∷ child 6 ∷ [] in
    let s = child_stop (λ p. process) 15 cs in
    (s.kills ≡ (pos 4, 15) ∷ (pos 6, 15) ∷ [])
    × (s.error ≡ none)
    × (s.childs ≡ child 0 ∷ child 0 ∷ child 0 ∷ [])
    × ((child_stop (λ p. process) 15 s.childs).kills ≡ [])
unfolding running
child_stop-running_example =
    child_stop-running (λ p. process) 15 (child 4 ∷ child 0 ∷ child 6 ∷ []) (λ p. refl)

-- Only the path "a" can be started.
abbrev only_a : Bytes → Started
only_a [] = failed (codes "no such file")
only_a (b ∷ s) = spawned (pos 7)

abbrev pathless : ChildInfo
pathless = record { name = []; path = []; pid = pos 0 }

child_start-failed_example :
    child_start only_a (λ p. process) (child 0 ∷ pathless ∷ child 0 ∷ [])
    ≡ (child 7 ∷ pathless ∷ child 0 ∷ [], some (codes "no such file"))
child_start-failed_example =
    child_start-failed only_a (λ p. process) (λ p. 6) (child 0 ∷ []) (child 0 ∷ []) pathless
      (codes "no such file") (λ p. refl) (refl, tt) refl

abbrev empty_desk : Server
empty_desk = record { clients = []; net = [] }

hello_registered_example :
    let x : ClientConnect = record { con = 3; message = 7 ∷ 0 ∷ [] } in
    let e = process_ipc_srv_message sample_json (λ c b. true) (pos 9) (client x) empty_desk in
    (lookup (pos 2) e.clients ≡ some x) × (e.net ≡ wrote 3 (0 ∷ 0 ∷ []) ∷ [])
hello_registered_example =
    hello_registered sample_json (λ c b. true) (pos 9) 3 sample_hello empty_desk (pos 2)
      (record { common = refl; whole = refl }) refl

-- The controller before its first turn.
abbrev fresh_loop : Loop Wired.Process
fresh_loop = record {
  idx = 0;
  signal_ch = [];
  wait = none;
  hung = false;
  state = record {
    control = init;
    server = empty_desk;
    srv = [];
    asked = 0;
    coro = record {
      coro_cfg_chan = [];
      coro_deliv_chan = [];
      coro_totem_chan = [];
      coro_quorum_chan = [];
    };
  };
}

abbrev host : Host
host = record { json = sample_json; write = λ c b. true; pid = pos 9; local_id = λ n. 5 }

abbrev seven_turns : List Bool
seven_turns = false ∷ false ∷ false ∷ false ∷ false ∷ false ∷ false ∷ []

-- A client's message and a change of the membership wait.
abbrev busy_loop : Loop Wired.Process
busy_loop = record fresh_loop {
  state = record fresh_loop.state {
    srv = client (record { con = 3; message = 7 ∷ 0 ∷ [] }) ∷ [];
    coro = record Node.init {
      coro_cfg_chan = record { member_list = []; left_list = []; join_list = [] } ∷ [];
    };
  };
}

pass-passed_example :
    Wired.run host (map Event.turn seven_turns) busy_loop
    ≡ record busy_loop { idx = 0; state = passed host busy_loop.state }
unfolding blocked init Ipcc.new channel_list set_channel_handler process_confchg set_nodeid
    status_slot Wired.server_slot client_slot confchg_slot deliver_slot totemchg_slot quorumchg_slot
pass-passed_example =
    pass-passed host seven_turns busy_loop refl refl refl refl
      (refl, (refl, (refl, (refl, (refl, (refl, (refl, tt)))))))

abbrev files : Files
files = record {
  read_file = λ f. some [];
  unmarshal_resources = λ b r. (no_resources, false);
  unmarshal_config = λ b c. (no_config, false);
}

abbrev surroundings : Surroundings
surroundings = record {
  files = files;
  syslog = true;
  dial = true;
  start = λ path. spawned (pos 7);
  find = λ pid. process;
}

-- The answer to a request.
abbrev reply : IpcClientMsg
reply = record { head = header_of (0 ∷ 2 ∷ []); all = 2 }

reply-IsReply : IsReply sample_json (0 ∷ 2 ∷ []) reply
reply-IsReply = record {
  kind = refl;
  all = refl;
  fits = omega arith;
  decoded = (sample_response, refl);
}

plan_completes_example :
    let c = run sample_json (pos 9) (course 5 hello (0 ∷ 2 ∷ []) reply (0 ∷ 2 ∷ []) reply) init in
    (c.calls
      ≡ send_async (hello_request (pos 9))
        ∷ send_sync (start_request 1)
        ∷ send_sync (monitor_request 2)
        ∷ [])
    × (c.step ≡ 3)
    × (c.waiting ≡ false)
    × (c.stuck ≡ false)
    × (c.status_ch ≡ [])
    × (c.rman_connect.ipcrecv_ch ≡ [])
unfolding init Ipcc.new
plan_completes_example =
    plan_completes sample_json (pos 9) 5 hello (0 ∷ 2 ∷ []) reply (0 ∷ 2 ∷ []) reply (omega arith)
      refl reply-IsReply reply-IsReply

-- The event loop waits in `SendRecv`, and twelve messages wait for it.
abbrev crowded : Loop Wired.Process
crowded = record fresh_loop {
  state = record fresh_loop.state {
    control = record init {
      nodeid = 5;
      waiting = true;
      rman_connect = record Ipcc.new { ipcrecv_ch = replicate chan_cap hello };
    };
  };
}

wired_full_channel_blocks_example :
    let d =
      (Wired.run host
        (Event.returns reply ∷ Event.turn false ∷ Event.boot ∷ [])
        crowded).state.control in
    (d.waiting ≡ true) × (d.calls ≡ []) × (d.step ≡ 1)
unfolding init Ipcc.new
wired_full_channel_blocks_example =
    wired_full_channel_blocks host (Event.returns reply ∷ Event.turn false ∷ Event.boot ∷ [])
      crowded refl (omega arith)

wired_nodeid_stays_example :
    (Wired.run host (Event.boot ∷ Event.turn false ∷ []) crowded).state.control.nodeid ≡ 5
wired_nodeid_stays_example =
    wired_nodeid_stays host (Event.boot ∷ Event.turn false ∷ []) crowded (omega arith)

abbrev change : CorosyncConfchg
change = record { member_list = []; left_list = []; join_list = [] }

abbrev changed : Loop Wired.Process
changed = record fresh_loop {
  idx = 3;
  state = record fresh_loop.state { coro = record Node.init { coro_cfg_chan = change ∷ [] } };
}

-- A byte that is no end stands behind the message.
confchg_announced_example :
    ((d : Loop Wired.Process) × (Wired.step host (Event.turn false) changed ≡ some d)
      × (d.state.control.multicast ≡ announcement ∷ [])
      × (d.state.coro.coro_cfg_chan ≡ []))
    × (Wired.step host (Event.deliver 5 9 (send_cluster_message announcement ++ 7 ∷ [])) fresh_loop
        ≡ some (Wired.with_coro fresh_loop (delivered 5 9 Node.init)))
unfolding init blocked
confchg_announced_example =
    confchg_announced host host false changed change [] fresh_loop 5 9 (7 ∷ []) refl refl refl refl
      refl (omega arith)
