-- ===== src/Prelude/Keys.antt =====
-- Equality of keys as an interface, with its instances.
use Prim.Native.Nat.{ℕ}
use mathlib.Core.Path.{◌≡◌, refl}
use mathlib.Core.Logic.{◌↔◌}
use mathlib.Core.Bool.{Bool, true}
use go_test_cluster.Prelude.Tests.{◌==◌, ==_iff}
use go_test_cluster.Prelude.Int.{ℤ, int_eq, int_eq_iff}
use go_test_cluster.Prelude.Text.{Bytes, bytes_eq, bytes_eq_iff}

pub record Eq {ℓ} (A : Type ℓ) : Type ℓ where
  pub beq : A → A → Bool
  pub beq_iff : (a b : A) → (beq a b ≡ true) ↔ (a ≡ b)

instance abbrev pub nat_eq : Eq ℕ
nat_eq = record { beq = ◌==◌; beq_iff = ==_iff }

instance abbrev pub int_key : Eq ℤ
int_key = record { beq = int_eq; beq_iff = int_eq_iff }

instance abbrev pub bytes_key : Eq Bytes
bytes_key = record { beq = bytes_eq; beq_iff = bytes_eq_iff }

pub beq_refl : {K : Type 0} ⦃e : Eq K⦄ (k : K) → e.beq k k ≡ true
beq_refl ⦃e⦄ k = (e.beq_iff k k).1 refl
