-- ===== src/Base/Equality.antt =====
-- Python's `==` on hashable values, as an instance argument.
use Prim.Native.Nat.{ℕ}
use Prim.Native.String.{String}
use mathlib.Core.Path.{◌≡◌, refl}
use mathlib.Core.Logic.{◌≢◌, ◌↔◌}
use mathlib.Core.Bool.{Bool, true, false}
use native.Mathlib.Omega.{arith}
use text.Mathlib.Text.{◌==◌ as same_text}
use text.Mathlib.TextEquality.{eq_iff}
use emergence_os.Base.Tests.{nat_beq, nat_beq_iff}

-- A key type of a dict or a set.
pub record Hashable {ℓ} (K : Type ℓ) : Type ℓ where
  pub same : (x y : K) → Bool
  pub same_iff : (x y : K) → (same x y ≡ true) ↔ (x ≡ y)

instance abbrev pub string_eq : Hashable String
string_eq = record { same = same_text; same_iff = eq_iff }

instance abbrev pub nat_eq : Hashable ℕ
nat_eq = record { same = nat_beq; same_iff = nat_beq_iff }

module _ {ℓ} {K : Type ℓ} ⦃h : Hashable K⦄ where
  infix 50 ◌==◌
  abbrev pub ◌==◌ : (x y : K) → Bool
  x == y = h.same x y

  pub ==_refl : (x : K) → (x == x) ≡ true
  ==_refl x = (h.same_iff x x).1 refl

  pub ==_ne : (x y : K) → x ≢ y → (x == y) ≡ false
  ==_ne x y n = ground (arith, h.same_iff x y)
