-- ===== src/Rmanager/Locks.antt =====
-- rmanager/rman.go: the methods of `ExecrscMap` and its `mapMutex`, as goroutines call them. Here a
-- method is the list of what it does to the mutex and to the table, one access after the other.
use go_test_cluster.Prelude.{
  ℕ, zero, suc, ◌+◌, ◌-◌, Bool, true, false, not, List, [], ◌∷◌, ◌++◌, Option, none, some,
  get_elem?, map, ◌==◌, if◌then◌else◌,
}

-- `sync.RWMutex`, and reads and writes of `onRsc` and of what it points to.
pub data Access : Type 0 where
  rlock runlock lock unlock read write : Access

-- A call of `RecordRscOp`, `setRscTerminate`, `stopTimer`, `isRscTerminate`, `isRscStop` or
-- `getCount`. Whether `op` is "stop" and whether the resource is in the table are given,
-- as far as the method looks.
pub data MethodCall : Type 0 where
  recording : MethodCall
  terminating stopping_timer : Bool → Bool → MethodCall
  asking_terminate asking_stop counting : Bool → MethodCall

-- What is done only for a resource that is in the table.
abbrev if_there : Bool → List Access → List Access
if_there present as' = if present then as' else []

-- The accesses of each method in their order; a deferred unlock comes last. Looks at one field in a
-- row are one access.
unfoldable pub accesses : MethodCall → List Access
accesses recording = lock ∷ write ∷ unlock ∷ []
accesses (terminating stop present) =
    if stop then lock ∷ read ∷ (if_there present (read ∷ write ∷ []) ++ unlock ∷ []) else []
accesses (asking_terminate present) =
    rlock ∷ read ∷ (if_there present (read ∷ read ∷ []) ++ runlock ∷ [])
accesses (asking_stop present) =
    rlock ∷ read ∷ (if_there present (read ∷ read ∷ []) ++ runlock ∷ [])
accesses (stopping_timer stop present) =
    if stop then read ∷ if_there present (rlock ∷ read ∷ read ∷ runlock ∷ []) else []
accesses (counting present) = read ∷ if_there present (read ∷ read ∷ [])

-- The calls of a goroutine, one after the other.
unfoldable pub program : List MethodCall → List Access
unfolding accesses
program [] = []
program (c ∷ cs) = accesses c ++ program cs

-- How a goroutine holds the mutex.
pub data Hold : Type 0 where
  free shared exclusive : Hold

pub record Goroutine : Type 0 where
  pub hold : Hold
  pub todo : List Access

pub record Mutex : Type 0 where
  pub readers : ℕ
  pub locked : Bool

-- One access; `none` where the goroutine waits for the mutex.
unfoldable pub act : Access → Mutex → Option Mutex
act rlock m = if m.locked then none else some (record m { readers = m.readers + 1 })
act runlock m = some (record m { readers = m.readers - 1 })
act lock m =
    if m.locked then none else (if m.readers == 0 then some (record m { locked = true }) else none)
act unlock m = some (record m { locked = false })
act read m = some m
act write m = some m

unfoldable pub hold_after : Access → Hold → Hold
hold_after rlock h = shared
hold_after lock h = exclusive
hold_after runlock h = free
hold_after unlock h = free
hold_after _ h = h

pub record Running : Type 0 where
  pub mutex : Mutex
  pub goroutines : List Goroutine

unfoldable pub set_at : ℕ → Goroutine → List Goroutine → List Goroutine
set_at i g [] = []
set_at zero g (x ∷ xs) = g ∷ xs
set_at (suc i) g (x ∷ xs) = x ∷ set_at i g xs

-- The goroutine `i` makes its next access.
unfoldable pub step : ℕ → Running → Option Running
unfolding act hold_after set_at
step i t = elim (get_elem? t.goroutines i) [
  | none ↦ none
  | some g ↦ elim g.todo [
    | [] ↦ none
    | a ∷ rest ↦ elim (act a t.mutex) [
      | none ↦ none
      | some m ↦ some (record {
        mutex = m;
        goroutines = set_at i (record { hold = hold_after a g.hold; todo = rest }) t.goroutines;
      })
    ]
  ]
]

-- Any interleaving; a goroutine that waits is passed over.
unfoldable pub run : List ℕ → Running → Running
unfolding step
run [] t = t
run (i ∷ is) t = run is (elim (step i t) [ none ↦ t | some d ↦ d ])

-- Goroutines with these calls to make, before any of them has begun.
unfoldable pub begin : List (List MethodCall) → Running
unfolding program
begin css = record {
  mutex = record { readers = 0; locked = false };
  goroutines = map (λ cs. record { hold = free; todo = program cs }) css;
}

-- The next access of the goroutine `i`.
unfoldable pub next : ℕ → Running → Option Access
next i t = elim (get_elem? t.goroutines i) [
  | none ↦ none
  | some g ↦ elim g.todo [ [] ↦ none | a ∷ rest ↦ some a ]
]

-- Does the method hold the mutex at each of its accesses? `getCount` never takes it, and `stopTimer`
-- looks into the table before it does.
unfoldable pub is_locked : MethodCall → Bool
is_locked (counting present) = false
is_locked (stopping_timer stop present) = not stop
is_locked _ = true
