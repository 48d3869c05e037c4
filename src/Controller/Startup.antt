-- ===== src/Controller/Startup.antt =====
-- controller/main.go: `_initialize`, `_terminate` and `main`, as far as they can end the program.
use go_test_cluster.Prelude.{
  ◌||◌, ℕ, ◌≡◌, Bool, true, false, not, ◌&&◌, List, [], ◌∷◌, Option, none, some, arith,
  Option-cases, inl, inr, if◌then◌else◌,
}
use go_test_cluster.Prelude.Int.{is_negative, int_eq, ℤ, pos}
use go_test_cluster.Prelude.Text.{Bytes, codes}
use go_test_cluster.Recipe.{Files, recipe_new, configure_new, dump}
use go_test_cluster.Base.{Chan, open_chan, unborn, Process, controll_init, terminate, closed_chan}
use go_test_cluster.Controller.ChildControll.{ChildControll, new_child_controll, start, stop}
use go_test_cluster.Controller.Childs.{ChildInfo, Started, Found, Kill, spawned, failed}

-- What the program asks of its surroundings when it starts: the files, whether syslog and the
-- resource manager's socket can be reached, and the starts of processes.
pub record Surroundings : Type 0 where
  pub files : Files
  pub syslog : Bool
  pub dial : Bool
  pub start : Bytes → Started
  pub find : ℤ → Found

-- How `_initialize` ends: with a panic, with nil, or with the two controllers.
pub data Startup : Type 0 where
  panics : Startup
  no_connection : Startup
  ready : ChildControll → Startup

abbrev pub child_path : Bytes
child_path = codes "/home/yamauchi/test.sh"

-- The children that `_initialize` makes.
abbrev pub childs : List ChildInfo
childs = record { name = codes "controller"; path = child_path; pid = pos 0 } ∷ []

-- The controller of the children, with this table.
abbrev pub with_childs : Surroundings → List ChildInfo → ChildControll
with_childs s cs = new_child_controll s.start s.find cs none none

abbrev pub config_file : Bytes
config_file = codes "../configure/config.json"

abbrev pub resource_file : Bytes
resource_file = codes "../recipe/resource.json"

-- The end of `_initialize`: connect, and start the children, whose error is a panic.
unfoldable pub connect_and_start : Surroundings → Startup
connect_and_start s =
    if s.dial
    then (let (ch, error) = start (with_childs s childs) in
        elim error [ none ↦ ready ch | some e ↦ panics ])
    else no_connection

-- `_initialize`
unfoldable pub initialize : Surroundings → Startup
unfolding connect_and_start
initialize s = if not s.syslog then panics else elim (dump (configure_new s.files config_file)) [
  | none ↦ panics
  | some config ↦ elim (dump (recipe_new s.files resource_file none).0) [
    | none ↦ panics
    | some resources ↦ connect_and_start s
  ]
]

-- The end of `main`, which `_terminate` makes: stop the children, whose error is not looked at, and
-- close the channels. `ch` and `channels` are what there is when the event loop has ended; `none` is
-- a panic.
unfoldable pub finish : ℕ → ChildControll → Process → Option (List Kill × Process)
finish sigterm ch channels =
    let s = stop sigterm ch in
    elim (terminate channels) [ none ↦ none | some p ↦ some (s.kills, p) ]

-- Are the two files there, and can the recipe be decoded? The configuration may be broken.
abbrev pub has_files : Files → Bool
has_files f =
    (elim (f.read_file config_file) as (λ x. Bool) [ none ↦ false | some c ↦ true ])
    && (elim (recipe_new f resource_file none).0 as (λ x. Bool) [ none ↦ false | some r ↦ true ])

-- `_initialize` panics if syslog cannot be reached or one of the two files is missing, or the recipe
-- cannot be decoded: the nil that `New` returns for that is printed. A configuration that cannot be
-- decoded does not stop it, and whether the resource manager answers is looked at only then.
pub initialize-files :
    (s : Surroundings)
    → initialize s ≡ (if s.syslog && has_files s.files then connect_and_start s else panics)
unfolding initialize configure_new
initialize-files s = elim (Option-cases (s.files.read_file config_file)) [
  | inl missing ↦ ground (arith, missing)
  | inr (file, found) ↦ elim (Option-cases (recipe_new s.files resource_file none).0) [
    | inl e ↦ ground (arith, found, e)
    | inr (r, e) ↦ ground (arith, found, e)
  ]
]

-- `NewControll`, with the package's `instance` before it.
unfoldable pub new_controll : Option Process → Chan → Process
unfolding controll_init
new_controll none srv = controll_init srv unborn
new_controll (some p) srv = p

abbrev pub is_closed : Chan → Bool
is_closed (closed_chan size) = true
is_closed _ = false

-- Does a turn of the polling goroutine of `ProcessRun` panic that takes the signal channel behind
-- `Terminate`? That goroutine never ends. A receive from the closed `Signal_ch` gives nil at once, which
-- is neither SIGTERM nor SIGCHLD, so it sends on `Exit_ch`; a send on a closed channel panics.
unfoldable pub late_turn_panics : Process → Bool
late_turn_panics p = is_closed p.base.signal_ch && is_closed p.base.exit_ch

-- `main`: its exit code, and the signals that are sent at the end; `none` is a panic. `NewControll`
-- initialises a new `Controll` with the receive channel of `ipcs.New`, which is unbuffered. `ProcessRun`
-- is taken to have returned, after a signal. `late` says that the polling goroutine takes the signal
-- channel once more between `Terminate` and `os.Exit(0)`.
unfoldable pub main : Surroundings → ℕ → Bool → Option (ℕ × List Kill)
unfolding late_turn_panics
main s sigterm late = elim (initialize s) [
  | panics ↦ none
  | no_connection ↦ some (1, [])
  | ready ch ↦ elim (finish sigterm ch (new_controll none (open_chan 0))) [
    | none ↦ none
    | some (kills, channels) ↦ if late && late_turn_panics channels then none else some (0, kills)
  ]
]

-- The one child, with a pid.
abbrev child_of : ℤ → ChildInfo
child_of pid = record { name = codes "controller"; path = child_path; pid = pid }

-- How `main` goes on when the child was started or not.
abbrev pub exit_of : ℕ → Started → Option (ℕ × List Kill)
exit_of sigterm (failed e) = none
exit_of sigterm (spawned pid) =
    some (0, if is_negative pid || int_eq pid (pos 0) then [] else (pid, sigterm) ∷ [])

abbrev start_of : Surroundings → Started → Startup
start_of s (failed e) = panics
start_of s (spawned pid) =
    ready (with_childs s (child_of (if is_negative pid then pos 0 else pid) ∷ []))

-- The channels when `_terminate` has closed them.
abbrev all_closed : Process
all_closed = record {
  base = record { signal_ch = closed_chan 1; exit_ch = closed_chan 0; status_ch = closed_chan 2 };
  ipc_srv_recv_ch = closed_chan 0;
}
