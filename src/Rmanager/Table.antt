-- ===== src/Rmanager/Table.antt =====
-- rmanager/rman.go: `Execrsc`, the last operation of a resource, and `ExecrscMap`, the table of
-- them. Each method is one step here; what they do to the mutex is in Locks. `*Execrsc` pointers are
-- not shared, so the table holds values.
use go_test_cluster.Prelude.{
  ℕ, ◌≡◌, Bool, true, false, List, Option, none, some, arith, inl, inr, Option-cases, int_key,
  if◌then◌else◌,
}
use go_test_cluster.Prelude.Int.{ℤ, pos, int_eq, int_eq_iff}
use go_test_cluster.Prelude.Text.{Bytes, codes, bytes_eq}
use go_test_cluster.Prelude.Dict.{Dict, lookup, insert, lookup-insert}

-- A `*time.Timer` is known by its number; nil is `none`.
pub record Execrsc : Type 0 where
  pub seqno : ℕ  -- uint64
  pub rscid : ℤ
  pub pid : ℤ
  pub rsc : Bytes
  pub param : List Bytes
  pub op : Bytes
  pub ret : ℤ
  pub tm : Option ℕ
  pub count : ℤ
  pub terminate : Bool

abbrev pub Table : Type 0
Table = Dict ℤ Execrsc

-- `_NewExecrsc`
abbrev pub new_execrsc : ℕ → ℤ → ℤ → Bytes → List Bytes → Bytes → ℤ → Option ℕ → ℤ → Execrsc
new_execrsc seqno rscid pid rsc parameters op ret tm count = record {
  seqno = seqno;
  rscid = rscid;
  pid = pid;
  rsc = rsc;
  param = parameters;
  op = op;
  ret = ret;
  tm = tm;
  count = count;
  terminate = false;
}

-- `RecordRscOp`
unfoldable pub record_rsc_op : Execrsc → Table → Table
record_rsc_op r t = insert r.rscid r t

abbrev pub is_stop : Bytes → Bool
is_stop op = bytes_eq op (codes "stop")

-- `setRscTerminate`
unfoldable pub set_rsc_terminate : ℤ → Bytes → Table → Table
set_rsc_terminate rscid op t =
    if is_stop op
    then elim (lookup rscid t) [
      | none ↦ t
      | some r ↦ insert rscid (record r { terminate = true }) t
    ]
    else t

-- `isRscTerminate`
unfoldable pub is_rsc_terminate : ℤ → Table → Bool
is_rsc_terminate rscid t = elim (lookup rscid t) [ none ↦ false | some r ↦ r.terminate ]

-- `isRscStop`
unfoldable pub is_rsc_stop : ℤ → Table → Bool
is_rsc_stop rscid t = elim (lookup rscid t) [ none ↦ false | some r ↦ is_stop r.op ]

-- `stopTimer`: the timer that it stops.
unfoldable pub stop_timer : ℤ → Bytes → Table → Option ℕ
stop_timer rscid op t =
    if is_stop op then elim (lookup rscid t) [ none ↦ none | some r ↦ r.tm ] else none

-- `getCount`
unfoldable pub get_count : ℤ → Table → ℤ
get_count rscid t = elim (lookup rscid t) [ none ↦ pos 0 | some r ↦ r.count ]

-- What a record changes, resource by resource.
pub is_rsc_stop-record :
    (k : ℤ) (r : Execrsc) (t : Table)
    → is_rsc_stop k (record_rsc_op r t)
      ≡ (if int_eq r.rscid k then is_stop r.op else is_rsc_stop k t)
unfolding is_rsc_stop record_rsc_op
is_rsc_stop-record k r t = ground (arith, lookup-insert r.rscid k r t)

pub is_rsc_terminate-record :
    (k : ℤ) (r : Execrsc) (t : Table)
    → is_rsc_terminate k (record_rsc_op r t)
      ≡ (if int_eq r.rscid k then r.terminate else is_rsc_terminate k t)
unfolding is_rsc_terminate record_rsc_op
is_rsc_terminate-record k r t = ground (arith, lookup-insert r.rscid k r t)

pub get_count-record :
    (k : ℤ) (r : Execrsc) (t : Table)
    → get_count k (record_rsc_op r t) ≡ (if int_eq r.rscid k then r.count else get_count k t)
unfolding get_count record_rsc_op
get_count-record k r t = ground (arith, lookup-insert r.rscid k r t)

-- The mark of a stopped resource leaves its operation and its count.
pub set_rsc_terminate-keeps :
    (k i : ℤ) (op : Bytes) (t : Table)
    → (is_rsc_stop k (set_rsc_terminate i op t) ≡ is_rsc_stop k t)
      × (get_count k (set_rsc_terminate i op t) ≡ get_count k t)
unfolding is_rsc_stop get_count set_rsc_terminate
set_rsc_terminate-keeps k i op t = elim (Option-cases (lookup i t)) [
  | inl e ↦ ground arith
  | inr (r, e) ↦ ground (arith, int_eq_iff i k, lookup-insert i k (record r { terminate = true }) t)
]

pub set_rsc_terminate-other :
    (i : ℤ) (op : Bytes) (t : Table) → is_stop op ≡ false → set_rsc_terminate i op t ≡ t
unfolding set_rsc_terminate
set_rsc_terminate-other i op t h = ground arith
