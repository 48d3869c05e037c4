-- ===== src/Rmanager/Guard.antt =====
-- rmanager/rman.go: how one goroutine holds `mapMutex` at its accesses.
use go_test_cluster.Prelude.{
  ℕ, zero, suc, ◌+◌, ◌≤◌, ◌≡◌, ◌≢◌, refl, ap, ◌∙◌, Bool, true, false, List, [], ◌∷◌, ◌++◌, some,
  arith, get_elem?, All, Bool-cases, inl, inr, if◌then◌else◌,
}
use go_test_cluster.Rmanager.Locks.{
  Access, rlock, runlock, lock, unlock, read, write, MethodCall, recording, terminating,
  stopping_timer, asking_terminate, asking_stop, counting, accesses, program, Hold, free, shared,
  exclusive, Goroutine, Mutex, act, hold_after, set_at, is_locked,
}

-- Every access to the table comes while the mutex is held for it, and the mutex is given back.
unfoldable pub guarded : Hold → List Access → Bool
guarded free [] = true
guarded free (rlock ∷ as') = guarded shared as'
guarded free (lock ∷ as') = guarded exclusive as'
guarded shared (read ∷ as') = guarded shared as'
guarded shared (runlock ∷ as') = guarded free as'
guarded exclusive (read ∷ as') = guarded exclusive as'
guarded exclusive (write ∷ as') = guarded exclusive as'
guarded exclusive (unlock ∷ as') = guarded free as'
guarded _ _ = false

accesses-guarded :
    (c : MethodCall) (as' : List Access)
    → is_locked c ≡ true
    → guarded free (accesses c ++ as') ≡ guarded free as'
unfolding guarded accesses is_locked
accesses-guarded recording as' h = refl
accesses-guarded (terminating true true) as' h = refl
accesses-guarded (terminating true false) as' h = refl
accesses-guarded (terminating false p) as' h = refl
accesses-guarded (stopping_timer true p) as' h = ground arith
accesses-guarded (stopping_timer false p) as' h = refl
accesses-guarded (asking_terminate true) as' h = refl
accesses-guarded (asking_terminate false) as' h = refl
accesses-guarded (asking_stop true) as' h = refl
accesses-guarded (asking_stop false) as' h = refl
accesses-guarded (counting p) as' h = ground arith

unfoldable pub AllLocked : List MethodCall → Type 0
AllLocked cs = All (λ c. is_locked c ≡ true) cs

pub program-guarded : (cs : List MethodCall) → AllLocked cs → guarded free (program cs) ≡ true
unfolding program AllLocked guarded
program-guarded [] h = refl
program-guarded (c ∷ cs) h = accesses-guarded c (program cs) h.0 ∙ program-guarded cs h.1

-- How many goroutines hold the mutex like this.
unfoldable pub is_shared : Hold → ℕ
is_shared shared = 1
is_shared _ = 0

unfoldable pub is_exclusive : Hold → ℕ
is_exclusive exclusive = 1
is_exclusive _ = 0

unfoldable pub holders : (Hold → ℕ) → List Goroutine → ℕ
holders f [] = 0
holders f (g ∷ gs) = f g.hold + holders f gs

pub holders-set_at :
    (f : Hold → ℕ) (i : ℕ) (x : Goroutine) (gs : List Goroutine) {g : Goroutine}
    → get_elem? gs i ≡ some g
    → holders f (set_at i x gs) + f g.hold ≡ holders f gs + f x.hold
unfolding holders set_at
holders-set_at f i x [] e = ground arith
holders-set_at f zero x (y ∷ gs) e = ground arith
holders-set_at f (suc i) x (y ∷ gs) {g} e = ground (arith, holders-set_at f i x gs {g = g} e)

unfoldable pub IsGuarded : Goroutine → Type 0
IsGuarded g = guarded g.hold g.todo ≡ true

pub set_at-IsGuarded :
    (i : ℕ) (x : Goroutine) (gs : List Goroutine)
    → IsGuarded x
    → All IsGuarded gs
    → All IsGuarded (set_at i x gs)
unfolding set_at
set_at-IsGuarded i x [] h k = tt
set_at-IsGuarded zero x (y ∷ gs) h k = (h, k.1)
set_at-IsGuarded (suc i) x (y ∷ gs) h k = (k.0, set_at-IsGuarded i x gs h k.1)

pub get_elem-IsGuarded :
    (i : ℕ) (gs : List Goroutine) {g : Goroutine}
    → get_elem? gs i ≡ some g
    → All IsGuarded gs
    → IsGuarded g
unfolding IsGuarded
get_elem-IsGuarded i [] e k = ground arith
get_elem-IsGuarded zero (y ∷ gs) e k = ground (arith, k.0)
get_elem-IsGuarded (suc i) (y ∷ gs) {g} e k = get_elem-IsGuarded i gs {g = g} e k.1

-- What an access of a goroutine that keeps to the mutex does to it.
pub act-guarded :
    (a : Access) (h : Hold) (rest : List Access) (m d : Mutex)
    → guarded h (a ∷ rest) ≡ true
    → act a m ≡ some d
    → is_shared h ≤ m.readers
    → is_exclusive h ≤ (if m.locked then 1 else 0)
    → (m.locked ≡ true → m.readers ≡ 0)
    → (guarded (hold_after a h) rest ≡ true)
      × (d.readers + is_shared h ≡ m.readers + is_shared (hold_after a h))
      × ((if d.locked then 1 else 0) + is_exclusive h
          ≡ (if m.locked then 1 else 0) + is_exclusive (hold_after a h))
      × (d.locked ≡ true → d.readers ≡ 0)
unfolding guarded act hold_after is_shared is_exclusive
act-guarded rlock free rest m d g e n x k = elim (Bool-cases m.locked) [
  | inl w ↦ ground (arith, w, k)
  | inr w ↦ ground (arith, w)
]
act-guarded rlock shared rest m d g e n x k = ground arith
act-guarded rlock exclusive rest m d g e n x k = ground arith
act-guarded runlock free rest m d g e n x k = ground arith
act-guarded runlock shared rest m d g e n x k = elim (Bool-cases m.locked) [
  | inl w ↦ ground (arith, w, k)
  | inr w ↦ ground (arith, w)
]
act-guarded runlock exclusive rest m d g e n x k = ground arith
act-guarded lock free rest m d g e n x k = elim (Bool-cases m.locked) [
  | inl w ↦ ground (arith, w, k)
  | inr w ↦ ground (arith, w)
]
act-guarded lock shared rest m d g e n x k = ground arith
act-guarded lock exclusive rest m d g e n x k = ground arith
act-guarded unlock free rest m d g e n x k = ground arith
act-guarded unlock shared rest m d g e n x k = ground arith
act-guarded unlock exclusive rest m d g e n x k = elim (Bool-cases m.locked) [
  | inl w ↦ ground (arith, w, k)
  | inr w ↦ ground (arith, w)
]
act-guarded read free rest m d g e n x k = ground arith
act-guarded read shared rest m d g e n x k = elim (Bool-cases m.locked) [
  | inl w ↦ ground (arith, w, k)
  | inr w ↦ ground (arith, w)
]
act-guarded read exclusive rest m d g e n x k = elim (Bool-cases m.locked) [
  | inl w ↦ ground (arith, w, k)
  | inr w ↦ ground (arith, w)
]
act-guarded write free rest m d g e n x k = ground arith
act-guarded write shared rest m d g e n x k = ground arith
act-guarded write exclusive rest m d g e n x k = elim (Bool-cases m.locked) [
  | inl w ↦ ground (arith, w, k)
  | inr w ↦ ground (arith, w)
]

pub holders-one :
    (f : Hold → ℕ) (i : ℕ) (gs : List Goroutine) {g : Goroutine}
    → get_elem? gs i ≡ some g
    → f g.hold ≤ holders f gs
unfolding holders
holders-one f i [] e = ground arith
holders-one f zero (y ∷ gs) e = ground arith
holders-one f (suc i) (y ∷ gs) {g} e = ground (arith, holders-one f i gs {g = g} e)

pub holders-two :
    (f : Hold → ℕ) (i j : ℕ) (gs : List Goroutine) {g x : Goroutine}
    → i ≢ j
    → get_elem? gs i ≡ some g
    → get_elem? gs j ≡ some x
    → f g.hold + f x.hold ≤ holders f gs
unfolding holders
holders-two f i j [] h e k = ground arith
holders-two f zero zero (y ∷ gs) h e k = absurd (h refl)
holders-two f zero (suc j) (y ∷ gs) {g} {x} h e k = ground (arith, holders-one f j gs {g = x} k)
holders-two f (suc i) zero (y ∷ gs) {g} {x} h e k = ground (arith, holders-one f i gs {g = g} e)
holders-two f (suc i) (suc j) (y ∷ gs) {g} {x} h e k =
    ground (arith, holders-two f i j gs {g = g} {x = x} (λ s. h (ap suc s)) e k)
