-- ===== src/Prelude/Channel.antt =====
-- A buffered Go channel as the list of what is in it, oldest first.
use Prim.Native.Nat.{ℕ, ◌≤◌}
use mathlib.Core.Path.{◌≡◌}
use mathlib.Core.List.{List, [], ◌∷◌, ◌++◌}
use mathlib.Core.Option.{Option, none, some}
use native.Mathlib.Omega.{arith}
use go_test_cluster.Prelude.Tests.{ltb, if◌then◌else◌}
use go_test_cluster.Prelude.Lists.{length, length-append}

module _ {ℓ} {A : Type ℓ} where
  -- `ch <- x` on a channel of capacity `cap`; `none` says that the sender blocks.
  abbrev pub push : ℕ → A → List A → Option (List A)
  push cap x q = if ltb (length q) cap then some (q ++ x ∷ []) else none

  pub push-le :
      (cap : ℕ) (x : A) (q : List A) {q' : List A} → push cap x q ≡ some q' → length q' ≤ cap
  push-le cap x q h = ground (arith, length-append q (x ∷ []))
