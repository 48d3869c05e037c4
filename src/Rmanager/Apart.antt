-- ===== src/Rmanager/Apart.antt =====
-- rmanager/rman.go: goroutines that call the methods of `ExecrscMap` together, and what `mapMutex`
-- keeps apart.
use go_test_cluster.Prelude.{
  ℕ, ◌+◌, ◌≡◌, ◌≢◌, refl, ap, subst, sym, ◌∙◌, true, false, List, [], ◌∷◌, some, arith, get_elem?,
  All, Option-cases, List-cases, Bool-cases, inl, inr, if◌then◌else◌,
}
use go_test_cluster.Rmanager.Locks.{
  Access, read, write, MethodCall, recording, terminating, stopping_timer, asking_terminate,
  asking_stop, counting, accesses, program, Hold, free, shared, exclusive, Goroutine, Mutex, act,
  hold_after, Running, set_at, step, run, begin, next, is_locked,
}
use go_test_cluster.Rmanager.Guard.{
  guarded, AllLocked, program-guarded, is_shared, is_exclusive, holders, holders-set_at, IsGuarded,
  set_at-IsGuarded, get_elem-IsGuarded, act-guarded, holders-one, holders-two,
}

-- The mutex counts its holders, and a writer is alone.
record IsKept (t : Running) : Type 0 where
  shares : t.mutex.readers ≡ holders is_shared t.goroutines
  excludes : (if t.mutex.locked then 1 else 0) ≡ holders is_exclusive t.goroutines
  alone : t.mutex.locked ≡ true → t.mutex.readers ≡ 0
  held : All IsGuarded t.goroutines

-- The state after the access `a` of the goroutine `i`.
abbrev acted : ℕ → Access → Hold → List Access → Running → Mutex → Running
acted i a h rest t m = record {
  mutex = m;
  goroutines = set_at i (record { hold = hold_after a h; todo = rest }) t.goroutines;
}

acted-IsKept :
    (i : ℕ) (a : Access) (h : Hold) (rest : List Access) (t : Running) (m : Mutex)
    → IsKept t
    → get_elem? t.goroutines i ≡ some (record { hold = h; todo = a ∷ rest })
    → act a t.mutex ≡ some m
    → IsKept (acted i a h rest t m)
unfolding IsGuarded
acted-IsKept i a h rest t m k at acts =
    let g : Goroutine = record { hold = h; todo = a ∷ rest } in
    let x : Goroutine = record { hold = hold_after a h; todo = rest } in
    let gs = t.goroutines in
    let one = holders-one is_shared i gs {g = g} at in
    let sole = holders-one is_exclusive i gs {g = g} at in
    let (ok, counts, writes, lone) =
      act-guarded a h rest t.mutex m (get_elem-IsGuarded i gs {g = g} at k.held) acts
        (omega (arith, one, k.shares)) (omega (arith, sole, k.excludes)) k.alone in
    let set_shared = holders-set_at is_shared i x gs {g = g} at in
    let set_exclusive = holders-set_at is_exclusive i x gs {g = g} at in
    record {
      shares = omega (arith, counts, set_shared, k.shares);
      excludes = omega (arith, writes, set_exclusive, k.excludes);
      alone = lone;
      held = set_at-IsGuarded i x gs ok k.held;
    }

step-IsKept : (i : ℕ) (t : Running) {d : Running} → step i t ≡ some d → IsKept t → IsKept d
unfolding step
step-IsKept i t {d} e k = elim (Option-cases (get_elem? t.goroutines i)) [
  | inl out ↦ absurd (ground (arith, e, out))
  | inr (g, at) ↦ elim (List-cases g.todo) [
    | inl done ↦ absurd (ground (arith, e, at, done))
    | inr (a, rest, more) ↦ elim (Option-cases (act a t.mutex)) [
      | inl waits ↦ absurd (ground (arith, e, at, more, waits))
      | inr (m, acts) ↦
          let here =
            at
            ∙ ap (λ todo. let x : Goroutine = record { hold = g.hold; todo = todo } in some x)
                more in
          let went : acted i a g.hold rest t m ≡ d = ground (arith, e, at, more, acts) in
          subst IsKept went (acted-IsKept i a g.hold rest t m k here acts)
    ]
  ]
]

run-IsKept : (is : List ℕ) (t : Running) → IsKept t → IsKept (run is t)
unfolding run
run-IsKept [] t k = k
run-IsKept (i ∷ is) t k = elim (Option-cases (step i t)) [
  | inl e ↦ rw (e, run) (run-IsKept is t k)
  | inr (d, e) ↦ rw (e, run) (run-IsKept is d (step-IsKept i t {d = d} e k))
]

begin-holders :
    (f : Hold → ℕ) (css : List (List MethodCall))
    → f free ≡ 0
    → holders f (begin css).goroutines ≡ 0
unfolding begin holders
begin-holders f [] h = refl
begin-holders f (cs ∷ css) h = ground (arith, begin-holders f css h)

begin-IsGuarded :
    (css : List (List MethodCall)) → All AllLocked css → All IsGuarded (begin css).goroutines
unfolding begin IsGuarded
begin-IsGuarded [] h = tt
begin-IsGuarded (cs ∷ css) h = (program-guarded cs h.0, begin-IsGuarded css h.1)

begin-IsKept : (css : List (List MethodCall)) → All AllLocked css → IsKept (begin css)
unfolding begin is_shared is_exclusive
begin-IsKept css h = record {
  shares = sym (begin-holders is_shared css refl);
  excludes = sym (begin-holders is_exclusive css refl);
  alone = λ w. refl;
  held = begin-IsGuarded css h;
}

writes-exclusive :
    (h : Hold) (rest : List Access) → guarded h (write ∷ rest) ≡ true → is_exclusive h ≡ 1
unfolding guarded is_exclusive
writes-exclusive free rest g = ground arith
writes-exclusive shared rest g = ground arith
writes-exclusive exclusive rest g = refl

reads-hold :
    (h : Hold) (rest : List Access)
    → guarded h (read ∷ rest) ≡ true
    → is_shared h + is_exclusive h ≡ 1
unfolding guarded is_exclusive is_shared
reads-hold free rest g = ground arith
reads-hold shared rest g = refl
reads-hold exclusive rest g = refl

next-guarded :
    (i : ℕ) (a : Access) (t : Running)
    → next i t ≡ some a
    → IsKept t
    → (g : Goroutine) × (get_elem? t.goroutines i ≡ some g)
      × (rest : List Access) × (guarded g.hold (a ∷ rest) ≡ true)
unfolding next IsGuarded
next-guarded i a t e k = elim (Option-cases (get_elem? t.goroutines i)) [
  | inl out ↦ absurd (ground (arith, e, out))
  | inr (g, at) ↦ elim (List-cases g.todo) [
    | inl done ↦ absurd (ground (arith, e, at, done))
    | inr (b, rest, more) ↦
        let same : b ≡ a = ground (arith, e, at, more) in
        (
          g,
          at,
          rest,
          ap (λ c. guarded g.hold (c ∷ rest)) (sym same)
              ∙ ap (guarded g.hold) (sym more)
              ∙ get_elem-IsGuarded i t.goroutines {g = g} at k.held,
        )
  ]
]

IsKept-apart :
    (i j : ℕ) (t : Running)
    → IsKept t
    → i ≢ j
    → next i t ≡ some write
    → (next j t ≢ some read) × (next j t ≢ some write)
IsKept-apart i j t k other writes =
    let (g, at, rest, ok) = next-guarded i write t writes k in
    let own = writes-exclusive g.hold rest ok in
    (
      λ e.
          (let (x, at', rest', ok') = next-guarded j read t e k in
            let own' = reads-hold x.hold rest' ok' in
            let shares = holders-one is_shared j t.goroutines {g = x} at' in
            let excludes = holders-two is_exclusive i j t.goroutines {g = g} {x = x} other at at' in
            elim (Bool-cases t.mutex.locked) [
              | inl w ↦ ground (arith, w, k, own, own', shares, excludes)
              | inr w ↦ ground (arith, w, k, own, own', excludes)
            ]),
      λ e.
          (let (x, at', rest', ok') = next-guarded j write t e k in
            let own' = writes-exclusive x.hold rest' ok' in
            let excludes = holders-two is_exclusive i j t.goroutines {g = g} {x = x} other at at' in
            elim (Bool-cases t.mutex.locked) [
              | inl w ↦ ground (arith, w, k, own, own', excludes)
              | inr w ↦ ground (arith, w, k, own, own', excludes)
            ]),
    )

-- The mutex of the table does its work, for the methods that keep to it. Whatever goroutines call
-- `RecordRscOp`, `setRscTerminate`, `isRscTerminate` and `isRscStop`, and `stopTimer` for another
-- operation than a stop, in whatever interleaving: while one of them is about to write into the table,
-- no other is about to read or write there.
pub locked_calls_apart :
    (css : List (List MethodCall)) (is : List ℕ) (i j : ℕ)
    → All (λ cs. All (λ c. is_locked c ≡ true) cs) css
    → i ≢ j
    → next i (run is (begin css)) ≡ some write
    → (next j (run is (begin css)) ≢ some read) × (next j (run is (begin css)) ≢ some write)
unfolding AllLocked
locked_calls_apart css is i j h other writes =
    IsKept-apart i j (run is (begin css)) (run-IsKept is (begin css) (begin-IsKept css h)) other
      writes

-- Each of the other calls, `getCount` and `stopTimer` for a stop, can come to read the table while a
-- `RecordRscOp` is about to write into it.
pub unlocked_call_races :
    (c : MethodCall)
    → is_locked c ≡ false
    → let t = run (0 ∷ []) (begin ((recording ∷ []) ∷ (c ∷ []) ∷ [])) in
      (next 0 t ≡ some write) × (next 1 t ≡ some read)
unfolding run step begin program accesses act set_at next is_locked hold_after
unlocked_call_races recording h = ground arith
unlocked_call_races (terminating s p) h = ground arith
unlocked_call_races (stopping_timer s p) h = ground arith
unlocked_call_races (asking_terminate p) h = ground arith
unlocked_call_races (asking_stop p) h = ground arith
unlocked_call_races (counting p) h = ground arith
