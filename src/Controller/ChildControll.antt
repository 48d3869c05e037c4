-- ===== src/Controller/ChildControll.antt =====
-- controller/childs.go: `ChildControll`, which holds the table of children with its two functions.
use go_test_cluster.Prelude.{ℕ, List, Option, none, some}
use go_test_cluster.Prelude.Int.{ℤ}
use go_test_cluster.Prelude.Text.{Bytes}
use go_test_cluster.Controller.Childs.{
  ChildInfo, Started, Found, Outcome, Stopped, child_start, child_stop,
}

pub record ChildControll : Type 0 where
  pub childs : List ChildInfo
  pub func_start : List ChildInfo → Outcome
  pub func_stop : ℕ → List ChildInfo → Stopped

-- `NewChildControll`: nil, `none`, stands for `_childStart` and `_childStop`.
abbrev pub new_child_controll :
    (Bytes → Started)
    → (ℤ → Found)
    → List ChildInfo
    → Option (List ChildInfo → Outcome)
    → Option (ℕ → List ChildInfo → Stopped)
    → ChildControll
new_child_controll start find chinfo fn_start fn_stop = record {
  childs = chinfo;
  func_start = elim fn_start [ none ↦ child_start start find | some f ↦ f ];
  func_stop = elim fn_stop [ none ↦ child_stop find | some f ↦ f ];
}

-- `Start`: the controller after it, and its error.
abbrev pub start : ChildControll → ChildControll × Option Bytes
start chl = let (cs, error) = chl.func_start chl.childs in (record chl { childs = cs }, error)

-- `Stop`
abbrev pub stop : ℕ → ChildControll → Stopped
stop sig chl = chl.func_stop sig chl.childs

abbrev pub sigkill : ℕ
sigkill = 9

-- `_childKill`
abbrev pub child_kill : (ℤ → Found) → List ChildInfo → Stopped
child_kill find cs = child_stop find sigkill cs
