-- ===== src/Base/Equality.antt =====
-- Equality as an interface: the source compares keys of dictionaries by `==`.
use Prim.Native.Nat.{ℕ}
use Prim.Native.String.{String}
use mathlib.Core.Path.{◌≡◌, refl}
use mathlib.Core.Logic.{◌↔◌}
use mathlib.Core.Bool.{Bool, true, false, ◌&&◌}
use mathlib.Core.Option.{Option, none, some}
use native.Mathlib.Omega.{arith}
use text.Mathlib.Text.{◌==◌ as str_eq}
use text.Mathlib.TextEquality.{eq_iff}
use keziah.Base.Tests.{nat_eqb, nat_eqb_iff}

pub record Eq {κ} (Key : Type κ) : Type κ where
  pub beq : Key → Key → Bool
  pub beq_iff : (x y : Key) → (beq x y ≡ true) ↔ (x ≡ y)

infix 50 ◌==◌
abbrev pub ◌==◌ {κ} : {Key : Type κ} ⦃on : Eq Key⦄ → Key → Key → Bool
◌==◌ ⦃on⦄ x y = on.beq x y

-- Texts and numbers.
instance abbrev pub string_eq : Eq String
string_eq = record { beq_iff = eq_iff; beq = str_eq }

instance abbrev pub nat_eq : Eq ℕ
nat_eq = record { beq_iff = nat_eqb_iff; beq = nat_eqb }

-- Pairs, component by component, and keys that may be missing.
pub both_iff {ℓ κ} :
    {First : Type ℓ} {Second : Type κ} (first : Eq First) (second : Eq Second)
    (p q : First × Second)
    → ((first.beq p.0 q.0 && second.beq p.1 q.1) ≡ true) ↔ (p ≡ q)
both_iff first second p q = ground (arith, second.beq_iff p.1 q.1, first.beq_iff p.0 q.0)

instance abbrev pub pair_eq {ℓ κ} :
    {First : Type ℓ} {Second : Type κ} ⦃first : Eq First⦄ ⦃second : Eq Second⦄ → Eq (First × Second)
pair_eq ⦃first⦄ ⦃second⦄ = record {
  beq = λ p q. first.beq p.0 q.0 && second.beq p.1 q.1;
  beq_iff = both_iff first second;
}

module _ {ℓ} {Key : Type ℓ} ⦃on_keys : Eq Key⦄ where
  abbrev pub same_maybe : Option Key → Option Key → Bool
  same_maybe (some k) (some l) = on_keys.beq k l
  same_maybe (some k) none = false
  same_maybe none (some l) = false
  same_maybe none none = true

  pub same_maybe_iff : (p q : Option Key) → (same_maybe p q ≡ true) ↔ (p ≡ q)
  same_maybe_iff (some k) (some l) = ground (arith, on_keys.beq_iff k l)
  same_maybe_iff (some k) none = ground arith
  same_maybe_iff none q = only q
    where
      only : (o : Option Key) → (same_maybe none o ≡ true) ↔ (none ≡ o)
      only none = ground arith
      only (some l) = ground arith

instance abbrev pub option_eq {ℓ} : {Key : Type ℓ} ⦃on_keys : Eq Key⦄ → Eq (Option Key)
option_eq = record { beq_iff = same_maybe_iff; beq = same_maybe }

-- A test of a value against itself holds, and of two different values fails.
pub eq_self {ℓ} : {A : Type ℓ} ⦃e : Eq A⦄ (a : A) → (a == a) ≡ true
eq_self ⦃e⦄ a = (e.beq_iff a a).1 refl
