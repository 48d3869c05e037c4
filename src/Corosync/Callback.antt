-- ===== src/Corosync/Callback.antt =====
-- corosync/corosync.go: the callbacks of the Corosync library, which hand what they get over to the
-- event loop of the controller.
use go_test_cluster.Prelude.{
  ℕ, zero, suc, ◌+◌, ◌≡◌, List, [], ◌∷◌, ◌++◌, Option, none, some, arith, get_elem?, ltb, ◌==◌,
  if◌then◌else◌, append-nil, append_assoc,
}
use go_test_cluster.Prelude.Text.{Bytes}
use go_test_cluster.Prelude.Channel.{push}

-- `ListData`; the C fields are 32 bits wide and fit `uint`.
pub record ListData : Type 0 where
  pub nodeid : ℕ
  pub pid : ℕ

-- `CorosyncConfchg`
pub record CorosyncConfchg : Type 0 where
  pub member_list : List ListData
  pub left_list : List ListData
  pub join_list : List ListData

-- `CorosyncDeliver`
pub record CorosyncDeliver : Type 0 where
  pub nodeid : ℕ
  pub pid : ℕ
  pub msg : Bytes

-- A C array and the number of its entries.
pub record Array {ℓ} (A : Type ℓ) : Type ℓ where
  pub at : ℕ → A
  pub entries : ℕ

-- The four channels that `Init` makes.
pub record Channels : Type 0 where
  pub coro_cfg_chan : List CorosyncConfchg
  pub coro_deliv_chan : List CorosyncDeliver
  pub coro_totem_chan : List (List ℕ)
  pub coro_quorum_chan : List ℕ

abbrev pub coro_cap : ℕ
coro_cap = 128

-- The loop over an array from `i` on, with `left` entries to go: `append` of each to `acc`.
unfoldable pub append_from {ℓ} : {A : Type ℓ} → (ℕ → A) → ℕ → ℕ → List A → List A
append_from at i zero acc = acc
append_from at i (suc left) acc = append_from at (suc i) left (acc ++ at i ∷ [])

unfoldable pub list_of {ℓ} : {A : Type ℓ} → Array A → List A
unfolding append_from
list_of a = append_from a.at 0 a.entries []

-- `corosyncConfchgCallback`; `none` says that it waits for room on the channel.
unfoldable pub confchg_callback :
    Array ListData → Array ListData → Array ListData → Channels → Option Channels
confchg_callback members left joined c =
    let m : CorosyncConfchg = record {
      member_list = list_of members;
      left_list = list_of left;
      join_list = list_of joined;
    } in
    elim (push coro_cap m c.coro_cfg_chan) [
      | none ↦ none
      | some q ↦ some (record c { coro_cfg_chan = q })
    ]

-- `corosyncDeliverCallback`; `C.GoString` reads the memory from the pointer on up to the first byte 0,
-- whatever `msg_len` is. The list is that memory: the bytes of the message, and what stands behind them.
unfoldable pub go_string : Bytes → Bytes
go_string [] = []
go_string (b ∷ s) = let rest = go_string s in if b == 0 then [] else b ∷ rest

unfoldable pub deliver_callback : ℕ → ℕ → Bytes → Channels → Option Channels
deliver_callback nodeid pid msg c =
    elim (push coro_cap (record { nodeid = nodeid; pid = pid; msg = go_string msg })
      c.coro_deliv_chan) [ none ↦ none | some q ↦ some (record c { coro_deliv_chan = q }) ]

-- `corosyncTotemchgCallback`
unfoldable pub totemchg_callback : Array ℕ → Channels → Option Channels
totemchg_callback members c = elim (push coro_cap (list_of members) c.coro_totem_chan) [
  | none ↦ none
  | some q ↦ some (record c { coro_totem_chan = q })
]

-- `corosyncQuorumchgCallback`
unfoldable pub quorumchg_callback : ℕ → Channels → Option Channels
quorumchg_callback quorate c = elim (push coro_cap quorate c.coro_quorum_chan) [
  | none ↦ none
  | some q ↦ some (record c { coro_quorum_chan = q })
]

-- The entries of an array from `i` on.
entries_from {ℓ} : {A : Type ℓ} → (ℕ → A) → ℕ → ℕ → List A
entries_from at i zero = []
entries_from at i (suc left) = at i ∷ entries_from at (suc i) left

append_from-entries {ℓ} :
    {A : Type ℓ} (at : ℕ → A) (i left : ℕ) (acc : List A)
    → append_from at i left acc ≡ acc ++ entries_from at i left
unfolding append_from entries_from
append_from-entries at i zero acc = ground (arith, append-nil acc)
append_from-entries at i (suc left) acc = ground (
  arith,
  append_from-entries at (suc i) left (acc ++ at i ∷ []),
  append_assoc acc (at i ∷ []) (entries_from at (suc i) left),
)

entries_from-get {ℓ} :
    {A : Type ℓ} (at : ℕ → A) (i left k : ℕ)
    → get_elem? (entries_from at i left) k ≡ (if ltb k left then some (at (i + k)) else none)
unfolding entries_from
entries_from-get at i zero k = ground arith
entries_from-get at i (suc left) zero = ground arith
entries_from-get at i (suc left) (suc k) = ground (arith, entries_from-get at (suc i) left k)

-- The list that a callback makes of a C array has the array's entries at their indices, and
-- nothing behind the last one.
pub list_of-get {ℓ} :
    {A : Type ℓ} (a : Array A) (k : ℕ)
    → get_elem? (list_of a) k ≡ (if ltb k a.entries then some (a.at k) else none)
unfolding list_of
list_of-get a k =
    ground (arith, append_from-entries a.at 0 a.entries [], entries_from-get a.at 0 a.entries k)
