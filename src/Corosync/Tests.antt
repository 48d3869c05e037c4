-- ===== src/Corosync/Tests.antt =====
-- Turns of the main loop of `runs`, and the theorems at concrete inputs.
use go_test_cluster.Corosync.Node.{init, confchg, IsTold, confchg-IsTold}
use go_test_cluster.Prelude.{
  arith, ℕ, zero, suc, ◌+◌, ◌≡◌, refl, true, false, [], ◌∷◌, ◌++◌, none, some,
}
use go_test_cluster.Corosync.Rejoin.{turns-rejoined}
use go_test_cluster.Corosync.Retry.{
  CsError, cs_ok, cs_err_try_again, cs_err_library, is_busy, is_busy_init, cs_repeat,
  cs_repeat_init, attempts, IsBusy, IsBusyInit, IsOutcome, repeats-first, turns_behind,
}
use go_test_cluster.Corosync.Session.{Session, Turn, Quorum, begin, turns, is_ok}
use go_test_cluster.Corosync.Join.{IsStanding, seconds, turns-joined, turns-failing}
use go_test_cluster.Corosync.Callback.{ListData, Array}

-- Busy twice, then ready.
abbrev busy_twice : ℕ → CsError
busy_twice zero = cs_err_try_again
busy_twice (suc zero) = cs_err_try_again
busy_twice (suc (suc n)) = cs_ok

abbrev no_type : Quorum
no_type = record { initialize = cs_ok; is_set = false; getquorate = cs_ok; trackstart = cs_ok }

abbrev calm : Turn
calm = record {
  initialize = busy_twice;
  local_get = λ n. cs_ok;
  nodeid = 7;
  join = λ n. cs_ok;
  membership = λ n. cs_ok;
  quorum = no_type;
  cpg_dispatch = some cs_ok;
  left = none;
  quorum_dispatch = none;
}

-- Corosync is not there: joining fails.
abbrev refused : Turn
refused = record calm { join = λ n. cs_err_library }

-- This process leaves the group.
abbrev leaving : Turn
leaving = record calm { left = some 7 }

retried : attempts is_busy busy_twice 0 turns_behind ≡ (cs_ok, 2)
unfolding attempts is_busy
retried = refl

rejoined : (turns (refused ∷ calm ∷ leaving ∷ calm ∷ []) begin).nodeid_start ≡ 7
unfolding turns begin is_ok cs_repeat_init attempts is_busy_init cs_repeat is_busy
rejoined = refl

repeats-first_example :
    IsOutcome IsBusy busy_twice 1 (cs_repeat busy_twice)
    × IsOutcome IsBusyInit busy_twice 1 (cs_repeat_init busy_twice)
repeats-first_example = repeats-first busy_twice 1

turns-joined_example : let ts = refused ∷ calm ∷ calm ∷ [] in IsStanding ts (turns ts begin)
turns-joined_example = turns-joined (refused ∷ calm ∷ calm ∷ [])

turns-failing_example :
    let e = turns (refused ∷ refused ∷ []) begin in
    (e.restart ≡ true)
    × (e.recnt ≡ begin.recnt + 2)
    × (e.dispatched ≡ begin.dispatched)
    × (e.slept ≡ begin.slept ++ seconds begin.recnt 2)
unfolding begin is_ok cs_repeat_init attempts is_busy_init cs_repeat is_busy
turns-failing_example = turns-failing (refused ∷ refused ∷ []) begin (refl, (refl, tt)) refl

abbrev nodes : Array ListData
nodes = record { at = λ i. record { nodeid = 7 + i; pid = 40 + i }; entries = 3 }

-- Joined under the node id 7.
abbrev member : Session
member = record begin { restart = false; nodeid_start = 7; joined = true }

confchg-IsTold_example :
    IsTold 40 nodes nodes nodes member init (2, 3, 0) (confchg 40 nodes nodes nodes member init)
confchg-IsTold_example = confchg-IsTold 40 nodes nodes nodes member init 2 3 0

turns-rejoined_example :
    ((turns (leaving ∷ []) member).joined ≡ false)
    × ((turns (leaving ∷ calm ∷ []) member).joined ≡ true)
    × ((turns (leaving ∷ calm ∷ []) member).restart ≡ false)
    × ((turns (leaving ∷ calm ∷ []) member).nodeid_start ≡ 7)
    × ((turns (leaving ∷ calm ∷ []) member).recnt ≡ 0)
unfolding begin is_ok cs_repeat_init attempts is_busy_init cs_repeat is_busy
turns-rejoined_example =
    turns-rejoined leaving calm member cs_ok refl (omega arith) refl refl refl
      (record { left = refl; cpg = refl; quorum = refl })
