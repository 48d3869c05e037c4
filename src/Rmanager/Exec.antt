-- ===== src/Rmanager/Exec.antt =====
-- rmanager/rman.go: `ExecRscOp` and `setMonitor`. Every call of `ExecRscOp` is a job of two
-- goroutines, one that runs the agent and one that waits; an `Op` is one step of a job, of a timer
-- or of the event loop, and `step` is `none` where that step cannot be taken.
-- A timer's check and its call of `ExecRscOp` can also be two steps, and so can the send of a result and
-- the `setMonitor` and `setRscTerminate` behind it, with anything in between. Else what a goroutine
-- does from one channel operation to the next is one step, though the source takes the lock
-- several times in it: `stopTimer`, `RecordRscOp` and the new job in `ExecRscOp`, and the two records
-- of `setMonitor`.
use go_test_cluster.Prelude.{
  ℕ, ◌+◌, Bool, true, false, not, ◌&&◌, ◌||◌, List, [], ◌∷◌, ◌++◌, Option, none, some, ◌==◌,
  if◌then◌else◌,
}
use go_test_cluster.Prelude.Int.{ℤ, pos, int_eq, is_positive, is_negative}
use go_test_cluster.Prelude.Text.{Bytes, codes, bytes_eq}
use go_test_cluster.Prelude.Dict.{Dict}
use go_test_cluster.Prelude.Channel.{push}
use go_test_cluster.Consts.{cl_ok, cl_error, cl_not_fork}
use go_test_cluster.Rmanager.Env.{agent_env}
use go_test_cluster.Rmanager.Table.{
  Execrsc, Table, new_execrsc, record_rsc_op, set_rsc_terminate, is_rsc_terminate, is_rsc_stop,
  stop_timer, get_count,
}

-- The arguments of `ExecRscOp`.
pub record Request : Type 0 where
  pub seqno : ℕ
  pub rscid : ℤ
  pub rsc : Bytes
  pub parameters : List Bytes
  pub op : Bytes
  pub interval : ℤ  -- int64, in milliseconds
  pub timeout : ℤ
  pub delay_ms : ℤ
  pub async : Bool

-- What the waiting goroutine receives: from `_fin_ch` or from `_timeout_ch`.
pub data Signal : Type 0 where
  fin timed_out : Execrsc → Signal

-- Before the agent runs (the delay included), while it runs, when a channel holds the signal, and
-- when its result has been sent on `rscOp_ch`, or kept back.
pub data Stage : Type 0 where
  starting : Stage
  running : ℤ → Stage
  finished : Signal → Stage
  told : Execrsc → Stage

pub record Job : Type 0 where
  pub id : ℕ
  pub req : Request
  pub stage : Stage

-- What `ExecRscOp` reads and writes. `armed` holds the timers of `setMonitor` that have neither
-- fired nor been stopped, `due` the calls of timers whose function has passed its check, `busy` the job for which the event loop waits in a synchronous call,
-- `sent` the results that the event loop has taken from `rscOp_ch`.
pub record Rman : Type 0 where
  pub on_rsc : Table
  pub armed : List (ℕ × Request)
  pub due : List Request
  pub next_timer : ℕ
  pub rsc_op_ch : List Execrsc
  pub env : Dict Bytes Bytes
  pub jobs : List Job
  pub next_job : ℕ
  pub busy : Option ℕ
  pub killed : List ℤ
  pub sent : List Execrsc
  pub crashed : Bool

unfoldable pub new : Rman
new = record {
  on_rsc = [];
  armed = [];
  due = [];
  next_timer = 0;
  rsc_op_ch = [];
  env = [];
  jobs = [];
  next_job = 0;
  busy = none;
  killed = [];
  sent = [];
  crashed = false;
}

abbrev pub rsc_op_cap : ℕ
rsc_op_cap = 128

-- The result of a request, with the fields that vary.
abbrev pub result : Request → ℤ → ℤ → Option ℕ → ℤ → Execrsc
result q pid ret tm count = new_execrsc q.seqno q.rscid pid q.rsc q.parameters q.op ret tm count

unfoldable pub disarm : Option ℕ → List (ℕ × Request) → List (ℕ × Request)
disarm none ts = ts
disarm (some t) [] = []
disarm (some t) ((i, q) ∷ ts) =
    let rest = disarm (some t) ts in if i == t then rest else (i, q) ∷ rest

-- `ExecRscOp`'s calls of `stopTimer` and of `RecordRscOp`.
abbrev pub exec_timer : Request → Rman → Rman
exec_timer q m = record m { armed = disarm (stop_timer q.rscid q.op m.on_rsc) m.armed }

abbrev pub exec_record : Request → Rman → Rman
exec_record q m = record m {
  on_rsc = record_rsc_op (result q (pos 0) (pos 0) none (pos 0)) m.on_rsc;
}

-- The start of `ExecRscOp`, up to the delay: stop the timer and record the operation, unless it is
-- a repeated one.
unfoldable pub exec_begin : Request → Rman → Rman
unfolding disarm
exec_begin q m = if int_eq q.interval (pos 0) then exec_record q (exec_timer q m) else m

-- The new job; a synchronous call makes its caller, the event loop, wait.
abbrev pub exec_job : Request → Rman → Rman
exec_job q m = record m {
  jobs = m.jobs ++ record { id = m.next_job; req = q; stage = starting } ∷ [];
  next_job = m.next_job + 1;
  busy = if q.async then m.busy else some m.next_job;
}

-- `ExecRscOp`
unfoldable pub exec_rsc_op : Request → Rman → Rman
unfolding exec_begin
exec_rsc_op q m = exec_job q (exec_begin q m)

-- `setMonitor`
unfoldable pub set_monitor : Request → Rman → Rman
set_monitor q m =
    let first = record_rsc_op (result q (pos 0) (pos 0) none (pos 1)) m.on_rsc in
    record m {
      armed = m.armed ++ (m.next_timer, record q { async = true }) ∷ [];
      next_timer = m.next_timer + 1;
      on_rsc = record_rsc_op (result q (pos 0) (pos 0) (some m.next_timer) (pos 1)) first;
    }

-- The check of the function of `time.AfterFunc` in `setMonitor`, with its call of `ExecRscOp` left to
-- be made.
unfoldable pub check_stop : Request → Rman → Rman
check_stop q m =
    if not (is_rsc_stop q.rscid m.on_rsc) then record m { due = m.due ++ q ∷ [] } else m

-- The function as a whole, when nothing comes in between.
unfoldable pub fire : Request → Rman → Rman
unfolding exec_rsc_op
fire q m = if not (is_rsc_stop q.rscid m.on_rsc) then exec_rsc_op q m else m

-- The agent's goroutine up to the start of the process: the stage that the job goes to. `none` is
-- an error of `os.StartProcess`, whose process is nil, and the code reads its field `Pid`.
unfoldable pub launch : Request → Option ℤ → Rman → Rman × Stage
launch q none m = (record m { env = agent_env q.parameters m.env; crashed = true }, starting)
launch q (some pid) m = (
  record m { env = agent_env q.parameters m.env },
  if is_negative pid
      then finished (timed_out (result q pid cl_not_fork none (pos 0)))
      else running pid,
)

-- The agent has exited: the signal on `_fin_ch`.
unfoldable pub exit_signal : Request → ℤ → Bool → Rman → Signal
exit_signal q pid success m =
    fin (result q pid (if success then cl_ok else cl_error) none (get_count q.rscid m.on_rsc))

-- The timeout of the agent: the signal on `_timeout_ch`.
abbrev pub timeout_signal : Request → ℤ → Signal
timeout_signal q pid = timed_out (result q pid cl_error none (pos 0))

abbrev pub received : Signal → Execrsc
received (fin r) = r
received (timed_out r) = r

-- A monitor that is repeated and was fine again is not reported.
abbrev pub is_silent : Request → Execrsc → Bool
is_silent q r =
    bytes_eq r.op (codes "monitor")
    && (is_positive r.count && (int_eq r.ret cl_ok && is_positive q.interval))

-- The `select` of `waitChildFunc`: kill the agent that timed out, and report on `rscOp_ch`.
unfoldable pub report_signal : Request → Signal → Rman → Option Rman
report_signal q (fin r) m =
    if is_rsc_terminate r.rscid m.on_rsc || is_silent q r
    then some m
    else elim (push rsc_op_cap r m.rsc_op_ch) [
      | none ↦ none
      | some ch ↦ some (record m { rsc_op_ch = ch })
    ]
report_signal q (timed_out r) m = elim (push rsc_op_cap r m.rsc_op_ch) [
  | none ↦ none
  | some ch ↦ some (record m { rsc_op_ch = ch; killed = m.killed ++ r.pid ∷ [] })
]

-- The rest of `waitChildFunc`: repeat the monitor, mark the stopped resource.
unfoldable pub after_report : Request → Execrsc → Rman → Rman
unfolding set_monitor
after_report q r m =
    let d = if int_eq r.ret cl_ok && is_positive q.interval then set_monitor q m else m in
    record d { on_rsc = set_rsc_terminate q.rscid q.op d.on_rsc }

unfoldable pub wait_child : Request → Signal → Rman → Option Rman
unfolding report_signal after_report
wait_child q s m = elim (report_signal q s m) [
  | none ↦ none
  | some d ↦ some (after_report q (received s) d)
]
