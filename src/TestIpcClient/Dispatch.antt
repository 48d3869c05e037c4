-- ===== src/TestIpcClient/Dispatch.antt =====
-- test_ipc_client/main.go: `ipc_recv_process` against the dispatch that its loop looks for.
use go_test_cluster.Prelude.{
  ℕ, zero, suc, ◌+◌, ◌≡◌, refl, subst, false, List, [], ◌∷◌, none, some, arith, get_elem?,
  if◌then◌else◌,
}
use go_test_cluster.Prelude.Int.{ℤ, pos, negsuc, int_eq}
use go_test_cluster.Prelude.Text.{Bytes}
use go_test_cluster.Message.{Json}
use go_test_cluster.TestIpcClient.{
  Printed, unknown_types, IpcMessageHandler, index, has_types, ipc_recv_process, main_handlers,
  Case, Loop, run_case, run, send_exit, signalled, received,
}
use go_test_cluster.Chhandler.{sigterm, sigchld, other}

-- The handler of the first entry that has the type of the message.
unfoldable pub by_types : ℤ → List IpcMessageHandler → Bytes → Printed
by_types t [] msg = unknown_types
by_types t (x ∷ xs) msg =
    let rest = by_types t xs msg in if int_eq x.types t then x.handler msg else rest

-- From the index `i` on, every entry has its index as its type.
abbrev pub IsIndexed : ℕ → List IpcMessageHandler → Type 0
IsIndexed i [] = Unit
IsIndexed i (x ∷ xs) = (x.types ≡ pos i) × IsIndexed (suc i) xs

-- The handler that is called for the type `i + k`, if an entry has it.
indexed-by_types :
    (k i : ℕ) (xs : List IpcMessageHandler) (msg : Bytes)
    → IsIndexed i xs
    → (if has_types (pos (i + k)) xs
        then elim (get_elem? xs k) [ none ↦ none | some x ↦ some (x.handler msg) ]
        else some unknown_types)
      ≡ some (by_types (pos (i + k)) xs msg)
unfolding has_types by_types
indexed-by_types k i [] msg h = refl
indexed-by_types zero i (x ∷ xs) msg h = ground (arith, h.0)
indexed-by_types (suc k) i (x ∷ xs) msg h =
    let rest = indexed-by_types k (suc i) xs msg h.1 in
    let later : int_eq x.types (pos (suc i + k)) ≡ false = ground (arith, h.0) in
    let same : suc i + k ≡ i + suc k = omega arith in
    subst
      (λ t.
        (if has_types (pos t) (x ∷ xs)
          then elim (get_elem? xs k) [ none ↦ none | some y ↦ some (y.handler msg) ]
          else some unknown_types)
        ≡ some (by_types (pos t) (x ∷ xs) msg))
      same (ground (arith, later, rest))

indexed-negative :
    (n i : ℕ) (xs : List IpcMessageHandler) → IsIndexed i xs → has_types (negsuc n) xs ≡ false
unfolding has_types
indexed-negative n i [] h = refl
indexed-negative n i (x ∷ xs) h = ground (arith, h.0, indexed-negative n (suc i) xs h.1)

negative-by_types :
    (n i : ℕ) (xs : List IpcMessageHandler) (msg : Bytes)
    → IsIndexed i xs
    → by_types (negsuc n) xs msg ≡ unknown_types
unfolding by_types
negative-by_types n i [] msg h = refl
negative-by_types n i (x ∷ xs) msg h = ground (arith, h.0, negative-by_types n (suc i) xs msg h.1)

dispatch-types :
    (t : ℤ) (table : List IpcMessageHandler) (msg : Bytes)
    → IsIndexed 0 table
    → (if has_types t table
        then elim (index table t) [ none ↦ none | some x ↦ some (x.handler msg) ]
        else some unknown_types)
      ≡ some (by_types t table msg)
dispatch-types (pos n) table msg h =
    let same : 0 + n ≡ n = omega arith in
    subst
      (λ t.
        (if has_types (pos t) table
          then elim (get_elem? table n) [ none ↦ none | some x ↦ some (x.handler msg) ]
          else some unknown_types)
        ≡ some (by_types (pos t) table msg))
      same (indexed-by_types n 0 table msg h)
dispatch-types (negsuc n) table msg h =
    ground (arith, indexed-negative n 0 table h, negative-by_types n 0 table msg h)

-- In a table whose entries stand at the index that is their type, as in that of `main`, the call of
-- the handler at the index of the message's type is the call of the handler of that type: for every
-- message, the broken ones and unknown or negative types included, and it never panics.
pub ipc_recv_process-by_types :
    (j : Json) (table : List IpcMessageHandler) (msg : Bytes)
    → IsIndexed 0 table
    → ipc_recv_process j table msg
      ≡ some (by_types (j.unmarshal_common msg).0.header.types table msg)
unfolding ipc_recv_process
ipc_recv_process-by_types j table msg h =
    dispatch-types (j.unmarshal_common msg).0.header.types table msg h

pub main_handlers-IsIndexed : (j : Json) → IsIndexed 0 (main_handlers j)
unfolding main_handlers
main_handlers-IsIndexed j = (refl, (refl, tt))

run_case-panicked :
    (j : Json) (c : Case) (l : Loop)
    → l.panicked ≡ false
    → (run_case j (main_handlers j) c l).panicked ≡ false
unfolding run_case send_exit
run_case-panicked j (signalled sigchld) l h = h
run_case-panicked j (signalled sigterm) l h = ground (arith, h)
run_case-panicked j (signalled (other n)) l h = ground (arith, h)
run_case-panicked j (received msg) l h =
    ground (arith, h, ipc_recv_process-by_types j (main_handlers j) msg (main_handlers-IsIndexed j))

-- With the table of `main` the program never panics on what it receives: no sequence of signals and
-- messages, whatever their bytes, brings it down.
pub run-panicked :
    (j : Json) (cs : List Case) (l : Loop)
    → l.panicked ≡ false
    → (run j (main_handlers j) cs l).panicked ≡ false
unfolding run
run-panicked j [] l h = h
run-panicked j (c ∷ cs) l h =
    let d = run_case j (main_handlers j) c l in
    let kept : (if l.panicked then l else d).panicked ≡ false =
      ground (arith, h, run_case-panicked j c l h) in
    run-panicked j cs (if l.panicked then l else d) kept
