-- ===== src/Rmanager/Tests.antt =====
-- Runs of the resource manager, and the theorems at concrete inputs.
use go_test_cluster.Prelude.{
  ◌≡◌, refl, true, false, List, [], ◌∷◌, none, some, arith, length, int_key, bytes_key,
}
use go_test_cluster.Rmanager.Table.{
  record_rsc_op, set_rsc_terminate, is_rsc_terminate, is_rsc_stop, stop_timer, get_count,
}
use go_test_cluster.Rmanager.View.{Call, records, marks, calls, meaning, calls-meaning}
use go_test_cluster.Prelude.Int.{ℤ, pos}
use go_test_cluster.Prelude.Text.{Bytes, codes, bytes_eq}
use go_test_cluster.Prelude.Dict.{lookup, insert}
use go_test_cluster.Consts.{cl_ok}
use go_test_cluster.Message.{Parameter, parameters_to_string}
use go_test_cluster.Samples.{sample_json}
use go_test_cluster.Rmanager.Env.{agent_env, last_value, index_equals, agent_env-lookup}
use go_test_cluster.Rmanager.Exec.{
  Request, starting, Rman, new, result, exec_rsc_op, fire, after_report, wait_child,
}
use go_test_cluster.Rmanager.Step.{
  Op, request, deliver, start, exits, report, find_job, job_step, step, run,
}
use go_test_cluster.Rmanager.LateCall.{late_call_starts}
use go_test_cluster.Rmanager.Step as Step
use go_test_cluster.Rmanager.Step.{checks, take_timer}
use go_test_cluster.Rmanager.Exec.{Job}
use go_test_cluster.Rmanager.Race.{late_monitor_revives}
use go_test_cluster.Rmanager.Repeat.{rounds, monitor_reported_once}
use go_test_cluster.Rmanager.Handlers.{Desk, Host}

abbrev call : Bytes → ℤ → Request
call op interval = record {
  seqno = 1;
  rscid = pos 1;
  rsc = codes "Dummy";
  parameters = codes "start=0" ∷ [];
  op = op;
  interval = interval;
  timeout = pos 20000;
  delay_ms = pos 0;
  async = true;
}

abbrev stop_call : Request
stop_call = call (codes "stop") (pos 0)

abbrev monitor_call : Request
monitor_call = call (codes "monitor") (pos 5000)

-- A stop, run to its end.
abbrev stopping : List Op
stopping = start 0 (some (pos 77)) ∷ exits 0 true ∷ report 0 ∷ deliver ∷ []

stopping_sent : length (run (request stop_call ∷ stopping) new).sent ≡ 1
unfolding run step new bytes_eq lookup insert record_rsc_op set_rsc_terminate is_rsc_terminate
    stop_timer get_count exec_rsc_op job_step wait_child
stopping_sent = refl

abbrev start_call : Request
start_call = call (codes "start") (pos 0)

-- A stopped resource and its monitor, which ends only now.
abbrev stopped : Rman
stopped = record new { on_rsc = (pos 1, result stop_call (pos 0) (pos 0) none (pos 0)) ∷ [] }

late_monitor_revives_example :
    let q = monitor_call in
    let r = result q (pos 78) cl_ok none (pos 0) in
    let d = after_report q r (record stopped { rsc_op_ch = r ∷ [] }) in
    (is_rsc_stop (pos 1) d.on_rsc ≡ false) × (d.armed ≡ (0, q) ∷ []) × (fire q d ≡ exec_rsc_op q d)
unfolding new wait_child is_rsc_terminate lookup bytes_eq
late_monitor_revives_example =
    late_monitor_revives monitor_call (result monitor_call (pos 78) cl_ok none (pos 0)) stopped refl
      refl refl refl

-- The timer of a repeated monitor is armed.
abbrev armed_monitor : Rman
armed_monitor = record new { armed = (0, monitor_call) ∷ []; next_timer = 1 }

late_call_starts_example :
    let d = run (checks 0 ∷ request stop_call ∷ Step.calls 0 ∷ []) armed_monitor in
    let stop_job : Job = record { id = 0; req = stop_call; stage = starting } in
    let late_job : Job = record { id = 1; req = monitor_call; stage = starting } in
    (is_rsc_stop (pos 1) d.on_rsc ≡ true) × (d.jobs ≡ stop_job ∷ late_job ∷ [])
unfolding new take_timer is_rsc_stop bytes_eq lookup
late_call_starts_example =
    late_call_starts 0 monitor_call stop_call [] armed_monitor refl refl refl refl refl refl refl
      refl

-- A monitor whose resource was started before.
abbrev monitored : Rman
monitored = record new {
  on_rsc = (pos 1, result (call (codes "start") (pos 0)) (pos 0) (pos 0) none (pos 0)) ∷ [];
  jobs = record { id = 0; req = monitor_call; stage = starting } ∷ [];
  next_job = 1;
}

monitor_reported_once_example :
    (run (rounds 3 0 0 1 (pos 79)) monitored).rsc_op_ch
    ≡ result monitor_call (pos 79) cl_ok none (pos 0) ∷ []
unfolding new find_job is_rsc_terminate get_count lookup
monitor_reported_once_example =
    monitor_reported_once 2 0 monitor_call (pos 79) monitored
      (record { named = refl; repeated = refl })
      (record {
        at = record { alive = refl; found = refl; older = omega arith; earlier = tt };
        live = refl;
      })
      refl refl (omega arith)

abbrev hold : Parameter
hold = record { name = codes "hold"; value = codes "a=b" }

agent_env-lookup_example :
    (ts : List Bytes) × (parameters_to_string (pos 1) (hold ∷ []) ≡ some ts)
    × (lookup (codes "OCF_RESKEY_hold") (agent_env ts []) ≡ some (codes "a=b"))
unfolding last_value bytes_eq index_equals
agent_env-lookup_example =
    agent_env-lookup (codes "OCF_RESKEY_hold") (hold ∷ []) [] ((λ e. cc, refl), tt)

abbrev desk : Desk
desk = record { server = record { clients = []; net = [] }; requests = []; blocked = false }

abbrev host : Host
host = record { json = sample_json; write = λ c b. true; pid = pos 9 }

-- The record of a stop and the mark of its end.
abbrev stop_calls : List Call
stop_calls =
    records (result stop_call (pos 0) (pos 0) none (pos 0)) ∷ marks (pos 1) (codes "stop") ∷ []

calls-meaning_example :
    let d = calls stop_calls [] in
    (is_rsc_stop (pos 1) d ≡ true)
    × (is_rsc_terminate (pos 1) d ≡ true)
    × (get_count (pos 1) d ≡ pos 0)
    × (stop_timer (pos 1) (codes "stop") d ≡ none)
unfolding meaning bytes_eq lookup
calls-meaning_example = calls-meaning stop_calls [] (pos 1) (codes "stop")
