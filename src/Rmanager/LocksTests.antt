-- ===== src/Rmanager/LocksTests.antt =====
-- The methods of `ExecrscMap` under their mutex, on two goroutines.
use go_test_cluster.Prelude.{◌≢◌, true, [], ◌∷◌, List, some, refl, arith}
use go_test_cluster.Rmanager.Locks.{
  MethodCall, recording, asking_stop, read, write, accesses, program, act, hold_after, set_at, step,
  run, begin, next, is_locked,
}
use go_test_cluster.Rmanager.Apart.{locked_calls_apart}

-- A goroutine that records an operation, and one that asks whether the resource was stopped.
abbrev goroutines : List (List MethodCall)
goroutines = (recording ∷ []) ∷ (asking_stop true ∷ []) ∷ []

locked_calls_apart_example :
    (next 1 (run (0 ∷ 1 ∷ []) (begin goroutines)) ≢ some read)
    × (next 1 (run (0 ∷ 1 ∷ []) (begin goroutines)) ≢ some write)
unfolding run step begin program accesses act hold_after set_at next is_locked
locked_calls_apart_example =
    locked_calls_apart goroutines (0 ∷ 1 ∷ []) 0 1 ((refl, tt), ((refl, tt), tt)) (omega arith) refl
