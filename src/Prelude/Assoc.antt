-- ===== src/Prelude/Assoc.antt =====
-- A map as an association list: `std::map`, `std::unordered_map` and `QHash` up to the order of
-- their entries.
use components_network.Prelude.Tests.{if◌then◌else◌, is_some, Option-cases}
use components_network.Prelude.Keys.{Key, ◌==◌}
use mathlib.Core.Path.{◌≡◌, refl, sym, ◌∙◌}
use mathlib.Core.Logic.{◌≢◌, ◌⊎◌, inl, inr}
use mathlib.Core.Bool.{true, false}
use mathlib.Core.Option.{Option, none, some}
use mathlib.Core.List.{List, [], ◌∷◌}
use Prim.Native.Nat.{◌≤◌, ◌<◌}
use components_network.Prelude.Lists.{length, All}
use native.Mathlib.Omega.{arith}

module _ {κ ν} {K : Type κ} ⦃keyed : Key K⦄ {V : Type ν} where
  -- `m.find(k)`, with `none` for `m.end()`.
  unfoldable pub find : K → List (K × V) → Option V
  find k [] = none
  find k ((held, kept) ∷ rest) = if held == k then some kept else find k rest

  -- `m.erase(k)`.
  unfoldable pub erase : K → List (K × V) → List (K × V)
  erase k [] = []
  erase k ((held, kept) ∷ rest) =
      let less = erase k rest in if held == k then less else (held, kept) ∷ less

  -- `m[k] = new`.
  unfoldable pub insert : K → V → List (K × V) → List (K × V)
  insert k new [] = (k, new) ∷ []
  insert k new ((held, kept) ∷ rest) =
      if held == k then (k, new) ∷ rest else (held, kept) ∷ insert k new rest

  pub find-erase :
      (k wanted : K) (m : List (K × V))
      → find wanted (erase k m) ≡ (if k == wanted then none else find wanted m)
  unfolding find erase
  find-erase k wanted [] = ground arith
  find-erase k wanted ((held, kept) ∷ rest) = ground (
    arith,
    find-erase k wanted rest,
    keyed.same_iff held k,
    keyed.same_iff held wanted,
    keyed.same_iff k wanted,
  )

  pub find-insert :
      (k wanted : K) (new : V) (m : List (K × V))
      → find wanted (insert k new m) ≡ (if k == wanted then some new else find wanted m)
  unfolding find insert
  find-insert k wanted new [] = refl
  find-insert k wanted new ((held, kept) ∷ rest) = ground (
    arith,
    find-insert k wanted new rest,
    keyed.same_iff held k,
    keyed.same_iff held wanted,
    keyed.same_iff k wanted,
  )

  -- What is found after an insertion is the new value or stood there before.
  pub insert_cases :
      (k wanted : K) (new v : V) (m : List (K × V))
      → find wanted (insert k new m) ≡ some v
      → ((k ≡ wanted) × (new ≡ v)) ⊎ (find wanted m ≡ some v)
  insert_cases k wanted new v m e =
      let f = sym (find-insert k wanted new m) ∙ e in ground (arith, keyed.same_iff k wanted)

  pub erase_cases :
      (k wanted : K) (v : V) (m : List (K × V))
      → find wanted (erase k m) ≡ some v
      → (k ≢ wanted) × (find wanted m ≡ some v)
  erase_cases k wanted v m e =
      let f = sym (find-erase k wanted m) ∙ e in ground (arith, keyed.same_iff k wanted)

  pub length-erase : (k : K) (m : List (K × V)) → length (erase k m) ≤ length m
  unfolding erase
  length-erase k [] = omega arith
  length-erase k ((held, kept) ∷ m) = ground (arith, length-erase k m)

  -- An entry that is found goes.
  pub length-erase_found :
      (k : K) (v : V) (m : List (K × V)) → find k m ≡ some v → length (erase k m) < length m
  unfolding find erase
  length-erase_found k v [] e = ground arith
  length-erase_found k v ((held, kept) ∷ m) e =
      ground (arith, length-erase_found k v m, length-erase k m)

-- No key twice.
abbrev pub DistinctKeys {κ} : {K : Type κ} ⦃keyed : Key K⦄ → List K → Type 0
DistinctKeys [] = Unit {0}
DistinctKeys (k ∷ ks) = All (λ j. (k == j) ≡ false) ks × DistinctKeys ks

module _ {κ ν} {K : Type κ} ⦃keyed : Key K⦄ {V : Type ν} where
  erase_keeps :
      (k : K) (ks : List K) (m : List (K × V))
      → All (λ j. (k == j) ≡ false) ks
      → All (λ j. is_some (find j m) ≡ true) ks
      → All (λ j. is_some (find j (erase k m)) ≡ true) ks
  erase_keeps k [] m d h = tt
  erase_keeps k (j ∷ ks) m d h = (rw (find-erase k j m, d.0) h.0, erase_keeps k ks m d.1 h.1)

  -- Distinct keys that are all found are no more than there are entries.
  pub held-le :
      (ks : List K) (m : List (K × V))
      → DistinctKeys ks
      → All (λ j. is_some (find j m) ≡ true) ks
      → length ks ≤ length m
  held-le [] m d h = omega arith
  held-le (k ∷ ks) m d h = elim (Option-cases (find k m)) [
    | inl e ↦ absurd (ground arith)
    | inr (v, e) ↦
        omega (
          arith,
          held-le ks (erase k m) d.1 (erase_keeps k ks m d.0 h.1),
          length-erase_found k v m e,
        )
  ]
