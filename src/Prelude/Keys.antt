-- ===== src/Prelude/Keys.antt =====
-- What a type needs to be a key of a map or to be compared in a test: a Boolean test that is true
-- of equal values and of no others.
use Prim.Native.Nat.{ℕ}
use Prim.Native.String.{String}
use mathlib.Core.Path.{◌≡◌, refl}
use mathlib.Core.Logic.{◌↔◌, inl, inr}
use mathlib.Core.Bool.{Bool, true, false, ◌&&◌}
use mathlib.Core.List.{List, [], ◌∷◌}
use native.Mathlib.Omega.{arith}
use text.Mathlib.Text.{◌==◌ as same_text}
use text.Mathlib.TextEquality.{eq_iff}
use components_network.Prelude.Tests.{Bool-cases, nat_beq, nat_beq_iff}

pub record Key {κ} (K : Type κ) : Type κ where
  pub same : K → K → Bool
  pub same_iff : (j k : K) → (same j k ≡ true) ↔ (j ≡ k)

infix 50 ◌==◌
abbrev pub ◌==◌ {κ} : {K : Type κ} ⦃keyed : Key K⦄ → K → K → Bool
◌==◌ ⦃keyed⦄ = keyed.same

-- Texts that the program takes apart are lists of character codes.
abbrev pub Bytes : Type 0
Bytes = List ℕ

abbrev pub same_bytes : Bytes → Bytes → Bool
same_bytes [] [] = true
same_bytes (x ∷ xs) (y ∷ ys) = nat_beq x y && same_bytes xs ys
same_bytes _ _ = false

pub same_bytes_iff : (s t : Bytes) → (same_bytes s t ≡ true) ↔ (s ≡ t)
same_bytes_iff [] [] = ground arith
same_bytes_iff [] (y ∷ t) = ground arith
same_bytes_iff (x ∷ s) [] = ground arith
same_bytes_iff (x ∷ s) (y ∷ t) = ground (arith, same_bytes_iff s t)

instance abbrev pub string_key : Key String
string_key = record { same = same_text; same_iff = eq_iff }

instance abbrev pub bytes_key : Key Bytes
bytes_key = record { same = same_bytes; same_iff = same_bytes_iff }

instance abbrev pub number_key : Key ℕ
number_key = record { same = nat_beq; same_iff = nat_beq_iff }

pub ==_refl {κ} : {K : Type κ} ⦃keyed : Key K⦄ (k : K) → (k == k) ≡ true
==_refl ⦃keyed⦄ k = (keyed.same_iff k k).1 refl

-- Such a type has decidable equality, so that it is a set.
pub Key-Discrete {κ} : {K : Type κ} → Key K → Discrete K
Key-Discrete keyed j k = elim (Bool-cases (keyed.same j k)) [
  | inl h ↦ yes ((keyed.same_iff j k).0 h)
  | inr h ↦ no (λ e. ground (arith, (keyed.same_iff j k).1 e))
]
