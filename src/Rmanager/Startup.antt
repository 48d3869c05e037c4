-- ===== src/Rmanager/Startup.antt =====
-- rmanager/main.go: `_initialize`, `_terminate` and `main`, with `NewRmanager`, `Run` and `Terminate`
-- of rmanager/rman.go, as far as they can end the program.
use go_test_cluster.Prelude.{
  ℕ, ◌≡◌, Bool, Option, none, some, arith, Option-cases, inl, inr, if◌then◌else◌,
}
use go_test_cluster.Prelude.Int.{ℤ}
use go_test_cluster.Prelude.Text.{Bytes, codes}
use go_test_cluster.Consts.{cl_ok, cl_error}
use go_test_cluster.Recipe.{Files, configure_new, dump}
use go_test_cluster.Base.{
  Chan, nil, open_chan, Process, init_base, close, ◌>>=◌, rmanager_init, unborn, terminate,
  terminate-all_open,
}

-- What the program asks of its surroundings when it starts; an error of `os.Mkdir` is only logged.
pub record Surroundings : Type 0 where
  pub files : Files
  pub syslog : Bool

abbrev pub config_file : Bytes
config_file = codes "../configure/config.json"

-- `NewRmanager`, with the package's `instance` before it; `none` is a panic.
unfoldable pub new_rmanager : Option Process → Chan → Option Process
unfolding rmanager_init
new_rmanager none srv = rmanager_init srv unborn
new_rmanager (some p) srv = some p

-- `Rmanager.Run`: its result, which `main` does not look at; `run_func` says whether one is set.
abbrev pub run : Bool → ℤ
run run_func = if run_func then cl_ok else cl_error

-- `_initialize`; `none` is a panic. The receive channel of `ipcs.New` is unbuffered.
unfoldable pub initialize : Surroundings → Option Process
unfolding new_rmanager
initialize s =
    if s.syslog
    then (do _ ← dump (configure_new s.files config_file); new_rmanager none (open_chan 0))
    else none

-- `main`: its exit code; `none` is a panic. The event loop is taken to have ended by a signal.
unfoldable pub main : Surroundings → Option ℕ
unfolding initialize
main s = do p ← initialize s; _ ← terminate p; some 0

initialize-status :
    (s : Surroundings) (p : Process) → initialize s ≡ some p → p.base.status_ch ≡ nil
unfolding initialize new_rmanager rmanager_init close init_base
initialize-status s p e = elim (Option-cases (dump (configure_new s.files config_file))) [
  | inl none_there ↦ ground (arith, none_there)
  | inr (c, there) ↦ ground (arith, there)
]

-- The resource manager never exits with 0: where syslog and the configuration are there its event
-- loop runs, but when that has ended `Terminate` panics on the status channel, which `Init` has set to
-- nil; and else it panics at the start.
pub main-never_exits : (s : Surroundings) → main s ≡ none
unfolding main
main-never_exits s = elim (Option-cases (initialize s)) [
  | inl e ↦ ground (arith, e)
  | inr (p, e) ↦ ground (arith, e, terminate-all_open p, initialize-status s p e)
]
