-- ===== src/Controller/Childs.antt =====
-- controller/childs.go: the child processes of the controller. The operating system's answers are
-- arguments: `os.StartProcess` gives a process or an error, `os.FindProcess` a process, nil with an
-- error, or nil without one, and `syscall.Kill` an error or none, which is only logged.
use go_test_cluster.Prelude.{
  ℕ, suc, ◌≡◌, refl, List, [], ◌∷◌, ◌++◌, map, Option, none, some, arith, All, if◌then◌else◌,
}
use go_test_cluster.Prelude.Int.{ℤ, pos, int_eq, is_negative}
use go_test_cluster.Prelude.Text.{Bytes}

pub record ChildInfo : Type 0 where
  pub name : Bytes
  pub path : Bytes
  pub pid : ℤ

abbrev pub with_pid : (Bytes → ℤ) → ChildInfo → ChildInfo
with_pid f c = record c { pid = f c.path }

-- The error of `os.StartProcess`, or the pid of the new process.
pub data Started : Type 0 where
  failed : Bytes → Started
  spawned : ℤ → Started

pub data Found : Type 0 where
  process missing : Found
  lookup_error : Bytes → Found

-- The table of children after the call, and the error that the call returns; nil is `none`.
abbrev pub Outcome : Type 0
Outcome = List ChildInfo × Option Bytes

abbrev pub after_child : ChildInfo → Outcome → Outcome
after_child c (cs, e) = (c ∷ cs, e)

module _ (start : Bytes → Started) (find : ℤ → Found) where
  -- `_childStart`. A process with a negative pid ends the loop, and the error is nil all the same.
  unfoldable pub child_start : List ChildInfo → Outcome
  child_start [] = ([], none)
  child_start (c ∷ cs) =
      let rest = child_start cs in
      elim (start c.path) [
        | failed e ↦ (c ∷ cs, some e)
        | spawned pid ↦ if is_negative pid then (c ∷ cs, none) else elim (find pid) [
          | process ↦ after_child (record c { pid = pid }) rest
          | missing ↦ (record c { pid = pid } ∷ cs, none)
          | lookup_error e ↦ (record c { pid = pid } ∷ cs, some e)
        ]
      ]

-- A signal sent: the pid and the signal.
abbrev pub Kill : Type 0
Kill = ℤ × ℕ

-- The table, the error, and the signals that were sent.
pub record Stopped : Type 0 where
  pub childs : List ChildInfo
  pub error : Option Bytes
  pub kills : List Kill

module _ (find : ℤ → Found) (signal : ℕ) where
  -- `_childStop`; `_childKill` is this with SIGKILL.
  unfoldable pub child_stop : List ChildInfo → Stopped
  child_stop [] = record { childs = []; error = none; kills = [] }
  child_stop (c ∷ cs) =
      let rest = child_stop cs in
      let cleared : ChildInfo = record c { pid = pos 0 } in
      if int_eq c.pid (pos 0)
      then record { childs = c ∷ rest.childs; error = rest.error; kills = rest.kills }
      else elim (find c.pid) [
        | process ↦ record {
          childs = cleared ∷ rest.childs;
          error = rest.error;
          kills = (c.pid, signal) ∷ rest.kills;
        }
        | missing ↦ record {
          childs = cleared ∷ rest.childs;
          error = rest.error;
          kills = rest.kills;
        }
        | lookup_error e ↦ record { childs = c ∷ cs; error = some e; kills = [] }
      ]

-- `os.FindProcess` on Unix always succeeds.
abbrev pub IsUnix : (ℤ → Found) → Type 0
IsUnix find = (pid : ℤ) → find pid ≡ process

-- The pids of the children that run.
unfoldable pub running : List ChildInfo → List ℤ
running [] = []
running (c ∷ cs) = let rest = running cs in if int_eq c.pid (pos 0) then rest else c.pid ∷ rest

-- On Unix, stopping sends the signal once to each child that runs, in the order of the table, and
-- returns no error; then no child is recorded as running, the table is otherwise as it was, and
-- stopping again sends nothing.
pub child_stop-running :
    (find : ℤ → Found) (signal : ℕ) (cs : List ChildInfo)
    → IsUnix find
    → let s = child_stop find signal cs in
      (s.kills ≡ map (λ (p : ℤ). (p, signal)) (running cs))
      × (s.error ≡ none)
      × (s.childs ≡ map (with_pid (λ _. pos 0)) cs)
      × ((child_stop find signal s.childs).kills ≡ [])
unfolding child_stop running
child_stop-running find signal [] unix = (refl, refl, refl, refl)
child_stop-running find signal (c ∷ cs) unix =
    ground (arith, unix c.pid, child_stop-running find signal cs unix)

-- On Unix, when every start gives a process with a positive pid, starting returns no error, all
-- children are recorded with the pids that they got, and all of them run.
pub child_start-running :
    (start : Bytes → Started) (find : ℤ → Found) (pid : Bytes → ℕ) (cs : List ChildInfo)
    → IsUnix find
    → ((p : Bytes) → start p ≡ spawned (pos (suc (pid p))))
    → (child_start start find cs ≡ (map (with_pid (λ p. pos (suc (pid p)))) cs, none))
      × (running (child_start start find cs).0 ≡ map (λ (c : ChildInfo). pos (suc (pid c.path))) cs)
unfolding child_start running
child_start-running start find pid [] unix ok = (refl, refl)
child_start-running start find pid (c ∷ cs) unix ok =
    ground (
      arith,
      unix (pos (suc (pid c.path))),
      ok c.path,
      child_start-running start find pid cs unix ok,
    )

-- A start that fails ends the call with its error: the children before it are started and recorded,
-- and it and the ones behind it are as they were.
pub child_start-failed :
    (start : Bytes → Started) (find : ℤ → Found) (pid : Bytes → ℕ) (before after : List ChildInfo)
    (c : ChildInfo) (e : Bytes)
    → IsUnix find
    → All (λ (b : ChildInfo). start b.path ≡ spawned (pos (suc (pid b.path)))) before
    → start c.path ≡ failed e
    → child_start start find (before ++ c ∷ after)
      ≡ (map (with_pid (λ p. pos (suc (pid p)))) before ++ c ∷ after, some e)
unfolding child_start
child_start-failed start find pid [] after c e unix ok bad = ground arith
child_start-failed start find pid (b ∷ before) after c e unix ok bad = ground (
  arith,
  unix (pos (suc (pid b.path))),
  ok.0,
  child_start-failed start find pid before after c e unix ok.1 bad,
)
