-- ===== src/Rmanager/View.antt =====
-- rmanager/rman.go: `ExecrscMap` as the program means it, one operation for each resource.
use mathlib.Core.Path.{fun_ext}
use go_test_cluster.Prelude.{
  List, [], ◌∷◌, ℕ, sym, ap, ◌∙◌, ◌≡◌, refl, Bool, true, false, Option, none, some, arith, int_key,
  if◌then◌else◌, Option-cases, inl, inr,
}
use go_test_cluster.Prelude.Int.{ℤ, pos, int_eq, int_eq_iff}
use go_test_cluster.Prelude.Text.{Bytes}
use go_test_cluster.Prelude.Dict.{lookup, lookup-insert}
use go_test_cluster.Rmanager.Table.{
  Execrsc, Table, is_stop, record_rsc_op, set_rsc_terminate, is_rsc_terminate, is_rsc_stop,
  stop_timer, get_count,
}

-- The last operation of each resource.
abbrev pub Operations : Type 0
Operations = ℤ → Option Execrsc

abbrev pub operations : Table → Operations
operations t k = lookup k t

-- One resource has a new last operation.
abbrev pub with_last : Execrsc → Operations → Operations
with_last r f k = if int_eq r.rscid k then some r else f k

-- The last operation of a resource is marked as finished.
abbrev pub with_mark : ℤ → Operations → Operations
with_mark i f k =
    if int_eq i k
    then elim (f k) [ none ↦ none | some r ↦ some (record r { terminate = true }) ]
    else f k

pub operations-record :
    (r : Execrsc) (t : Table) → operations (record_rsc_op r t) ≡ with_last r (operations t)
unfolding record_rsc_op
operations-record r t = fun_ext λ k. lookup-insert r.rscid k r t

pub operations-mark :
    (i : ℤ) (op : Bytes) (t : Table)
    → operations (set_rsc_terminate i op t)
      ≡ (if is_stop op then with_mark i (operations t) else operations t)
unfolding set_rsc_terminate
operations-mark i op t = fun_ext λ k. elim (Option-cases (lookup i t)) [
  | inl e ↦ ground (arith, e, int_eq_iff i k)
  | inr (r, e) ↦
      ground (arith, e, int_eq_iff i k, lookup-insert i k (record r { terminate = true }) t)
]

-- The calls that change the table: `RecordRscOp` and `setRscTerminate`.
pub data Call : Type 0 where
  records : Execrsc → Call
  marks : ℤ → Bytes → Call

unfoldable pub calls : List Call → Table → Table
calls [] t = t
calls (records r ∷ cs) t = calls cs (record_rsc_op r t)
calls (marks i op ∷ cs) t = calls cs (set_rsc_terminate i op t)

-- What the calls mean.
unfoldable pub meaning : List Call → Operations → Operations
meaning [] f = f
meaning (records r ∷ cs) f = meaning cs (with_last r f)
meaning (marks i op ∷ cs) f = meaning cs (if is_stop op then with_mark i f else f)

operations-calls :
    (cs : List Call) (t : Table) → operations (calls cs t) ≡ meaning cs (operations t)
unfolding calls meaning
operations-calls [] t = refl
operations-calls (records r ∷ cs) t =
    operations-calls cs (record_rsc_op r t) ∙ ap (meaning cs) (operations-record r t)
operations-calls (marks i op ∷ cs) t =
    operations-calls cs (set_rsc_terminate i op t) ∙ ap (meaning cs) (operations-mark i op t)

-- Is the last operation a stop, one that is marked as finished, and how often was it repeated?
abbrev pub stops : Option Execrsc → Bool
stops none = false
stops (some r) = is_stop r.op

abbrev pub is_marked : Option Execrsc → Bool
is_marked none = false
is_marked (some r) = r.terminate

abbrev pub count_of : Option Execrsc → ℤ
count_of none = pos 0
count_of (some r) = r.count

abbrev pub timer_of : Option Execrsc → Option ℕ
timer_of none = none
timer_of (some r) = r.tm

answers :
    (k : ℤ) (op : Bytes) (t : Table) (f : Operations)
    → operations t ≡ f
    → (is_rsc_stop k t ≡ stops (f k))
      × (is_rsc_terminate k t ≡ is_marked (f k))
      × (get_count k t ≡ count_of (f k))
      × (stop_timer k op t ≡ (if is_stop op then timer_of (f k) else none))
unfolding is_rsc_stop is_rsc_terminate get_count stop_timer
answers k op t f e =
    let at : lookup k t ≡ f k = ap (λ (g : Operations). g k) e in
    elim (Option-cases (lookup k t)) [
      | inl missing ↦ let gone : f k ≡ none = sym at ∙ missing in ground (arith, missing, gone)
      | inr (r, there) ↦ let found : f k ≡ some r = sym at ∙ there in ground (arith, there, found)
    ]

-- The table refines a function from resources to their last operations. After any sequence of its
-- changing calls, all four questions that the resource manager asks of it (is the last operation a
-- stop, has a stop finished, how often was the monitor repeated, which timer does a stop end) have the
-- answer of that function, in which a record replaces the operation of its own resource, the mark of a
-- finished stop changes nothing but that mark, and no call changes another resource.
pub calls-meaning :
    (cs : List Call) (t : Table) (k : ℤ) (op : Bytes)
    → let d = calls cs t in
      let r = meaning cs (operations t) k in
      (is_rsc_stop k d ≡ stops r)
      × (is_rsc_terminate k d ≡ is_marked r)
      × (get_count k d ≡ count_of r)
      × (stop_timer k op d ≡ (if is_stop op then timer_of r else none))
calls-meaning cs t k op =
    answers k op (calls cs t) (meaning cs (operations t)) (operations-calls cs t)
