-- ===== src/Corosync/Retry.antt =====
-- corosync/corosync.go: the macros `cs_repeat_init` and `cs_repeat`.
use go_test_cluster.Prelude.{
  ℕ, zero, suc, refl, ◌+◌, ◌≤◌, ◌<◌, ◌≡◌, Bool, true, false, arith, if◌then◌else◌, ◌⊎◌, inl, inr,
  Bool-cases, ltb, not, ◌&&◌,
}
use go_test_cluster.Prelude.Int.{ℤ}

-- `cs_error_t`: the codes that the code names, and the others. No code is 0.
pub data CsError : Type 0 where
  cs_ok cs_err_try_again cs_err_queue_full cs_err_library : CsError
  cs_err_other : ℤ → CsError

-- The results after which `cs_repeat` tries again.
unfoldable pub is_busy : CsError → Bool
is_busy cs_err_try_again = true
is_busy cs_err_queue_full = true
is_busy _ = false

-- The results after which `cs_repeat_init` tries again.
unfoldable pub is_busy_init : CsError → Bool
is_busy_init cs_err_try_again = true
is_busy_init cs_err_queue_full = true
is_busy_init cs_err_library = true
is_busy_init _ = false

-- The loop of the macros from `counter` on, with at most `more` turns behind this one: the last
-- result and the last counter. The call of turn `i` gives `f i`; a turn that tries again sleeps for
-- as many seconds as the new counter says.
unfoldable pub attempts : (CsError → Bool) → (ℕ → CsError) → ℕ → ℕ → CsError × ℕ
attempts again f counter zero = (f counter, if again (f counter) then suc counter else counter)
attempts again f counter (suc more) =
    let rest = attempts again f (suc counter) more in
    if again (f counter) then rest else (f counter, counter)

-- The third argument of the macros at each call, and the loop from the counter 0: it is tested
-- after a turn, so there are `max` turns.
abbrev pub turns_behind : ℕ
turns_behind = 29

unfoldable pub cs_repeat_init : (ℕ → CsError) → CsError × ℕ
cs_repeat_init f = attempts is_busy_init f 0 turns_behind

unfoldable pub cs_repeat : (ℕ → CsError) → CsError × ℕ
cs_repeat f = attempts is_busy f 0 turns_behind

-- How a loop with this result and counter ended: with the first definite answer, or with the turns
-- used up.
abbrev pub IsEnd : (CsError → Bool) → (ℕ → CsError) → ℕ → CsError × ℕ → Type 0
IsEnd again f last r =
    ((again r.0 ≡ false) × (r.0 ≡ f r.1) × (r.1 ≤ last))
    ⊎ ((again r.0 ≡ true) × (r.0 ≡ f last) × (r.1 ≡ suc last))

attempts-IsEnd :
    (again : CsError → Bool) (f : ℕ → CsError) (counter more : ℕ)
    → IsEnd again f (counter + more) (attempts again f counter more)
unfolding attempts
attempts-IsEnd again f counter zero = elim (Bool-cases (again (f counter))) [
  | inl busy ↦ inr (ground arith)
  | inr done ↦ inl (ground arith)
]
attempts-IsEnd again f counter (suc more) = elim (Bool-cases (again (f counter))) [
  | inl busy ↦ ground (arith, attempts-IsEnd again f (suc counter) more)
  | inr done ↦ inl (ground arith)
]

attempts-busy :
    (again : CsError → Bool) (f : ℕ → CsError) (counter more i : ℕ)
    → counter ≤ i
    → i < (attempts again f counter more).1
    → again (f i) ≡ true
unfolding attempts
attempts-busy again f counter zero i low high = ground arith
attempts-busy again f counter (suc more) i low high =
    ground (arith, attempts-busy again f (suc counter) more i)

attempts-first :
    (again : CsError → Bool) (f : ℕ → CsError) (i : ℕ)
    → let r = attempts again f 0 turns_behind in
      IsEnd again f turns_behind r × ((ltb i r.1 && not (again (f i))) ≡ false)
attempts-first again f i =
    (attempts-IsEnd again f 0 turns_behind, ground (arith, attempts-busy again f 0 turns_behind i))

-- The answers after which one tries again, by the names of the codes.
abbrev pub IsBusy : CsError → Type 0
IsBusy e = (e ≡ cs_err_try_again) ⊎ (e ≡ cs_err_queue_full)

abbrev pub IsBusyInit : CsError → Type 0
IsBusyInit e = (e ≡ cs_err_try_again) ⊎ (e ≡ cs_err_queue_full) ⊎ (e ≡ cs_err_library)

is_busy_cases : (e : CsError) → ((is_busy e ≡ true) × IsBusy e) ⊎ ((is_busy e ≡ false) × ¬ IsBusy e)
unfolding is_busy
is_busy_cases cs_ok = inr (refl, λ h. ground (arith, h))
is_busy_cases cs_err_try_again = inl (refl, inl refl)
is_busy_cases cs_err_queue_full = inl (refl, inr refl)
is_busy_cases cs_err_library = inr (refl, λ h. ground (arith, h))
is_busy_cases (cs_err_other c) = inr (refl, λ h. ground (arith, h))

is_busy_init_cases :
    (e : CsError)
    → ((is_busy_init e ≡ true) × IsBusyInit e) ⊎ ((is_busy_init e ≡ false) × ¬ IsBusyInit e)
unfolding is_busy_init
is_busy_init_cases cs_ok = inr (refl, λ h. ground (arith, h))
is_busy_init_cases cs_err_try_again = inl (refl, inl refl)
is_busy_init_cases cs_err_queue_full = inl (refl, inr (inl refl))
is_busy_init_cases cs_err_library = inl (refl, inr (inr refl))
is_busy_init_cases (cs_err_other c) = inr (refl, λ h. ground (arith, h))

-- A macro has made at most 30 calls, the answers of which are `f 0` to `f 29`; `i` is the number of
-- any call.
abbrev pub IsOutcome : (CsError → Type 0) → (ℕ → CsError) → ℕ → CsError × ℕ → Type 0
IsOutcome Again f i r =
    (((r.1 ≤ 29) × (r.0 ≡ f r.1) × ¬ Again r.0) ⊎ ((r.1 ≡ 30) × (r.0 ≡ f 29) × Again r.0))
    × ((r.1 ≤ i) ⊎ Again (f i))

outcome :
    (again : CsError → Bool) (Again : CsError → Type 0) (f : ℕ → CsError) (i : ℕ)
    → ((e : CsError) → ((again e ≡ true) × Again e) ⊎ ((again e ≡ false) × ¬ Again e))
    → IsOutcome Again f i (attempts again f 0 turns_behind)
outcome again Again f i decides =
    let (ended, earlier) = attempts-first again f i in
    (
      settle ended (decides (attempts again f 0 turns_behind).0),
      before (attempts again f 0 turns_behind) earlier (decides (f i)),
    )
  where
    settle :
        {r : CsError × ℕ}
        → IsEnd again f turns_behind r
        → ((again r.0 ≡ true) × Again r.0) ⊎ ((again r.0 ≡ false) × ¬ Again r.0)
        → ((r.1 ≤ 29) × (r.0 ≡ f r.1) × ¬ Again r.0) ⊎ ((r.1 ≡ 30) × (r.0 ≡ f 29) × Again r.0)
    settle (inl e) (inl b) = absurd (ground (arith, e.0, b.0))
    settle (inl e) (inr b) = inl (e.2, e.1, b.1)
    settle (inr e) (inl b) = inr (e.2, e.1, b.1)
    settle (inr e) (inr b) = absurd (ground (arith, e.0, b.0))

    before :
        (r : CsError × ℕ)
        → (ltb i r.1 && not (again (f i))) ≡ false
        → ((again (f i) ≡ true) × Again (f i)) ⊎ ((again (f i) ≡ false) × ¬ Again (f i))
        → (r.1 ≤ i) ⊎ Again (f i)
    before r e (inl b) = inr b.1
    before r e (inr b) = inl (ground (arith, e, b.0))

-- Both macros make at most 30 calls. They return the first answer that is none to try again after,
-- with the number of sleeps, and every answer before it was one; or all 30 answers were, and the last
-- is returned after 30 sleeps. `cs_repeat` tries again after CS_ERR_TRY_AGAIN and CS_ERR_QUEUE_FULL
-- only, `cs_repeat_init` after CS_ERR_LIBRARY, too.
pub repeats-first :
    (f : ℕ → CsError) (i : ℕ)
    → IsOutcome IsBusy f i (cs_repeat f) × IsOutcome IsBusyInit f i (cs_repeat_init f)
unfolding cs_repeat cs_repeat_init
repeats-first f i = (
  outcome is_busy IsBusy f i is_busy_cases,
  outcome is_busy_init IsBusyInit f i is_busy_init_cases,
)
