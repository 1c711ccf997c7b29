-- ===== src/Prelude/Sort.antt =====
-- `std::sort` by a numeric key, as insertion sort: where the keys are distinct, the sorted order
-- is the only one, so the algorithm does not matter.
use Prim.Native.Nat.{ℕ, suc, ◌≤◌, ◌<◌}
use mathlib.Core.Path.{◌≡◌, refl, sym, ap, ◌∙◌}
use mathlib.Core.Logic.{◌≢◌}
use mathlib.Core.List.{
  List, [], ◌∷◌, map, Perm, Permᴰ, Nodup, is_set, Nodup-cons, Nodup-nil, Mem, mem-cons, not-mem-nil,
}
use mathlib.Core.List.Perm
use mathlib.Core.Logic.{∥∥₁_elim}
use mathlib.Core.Logic.Or
use mathlib.Core.HLevel.{⊥_prop}
use native.Mathlib.Omega.{arith}
use components_network.Prelude.Tests.{leb, if◌then◌else◌}

module _ {ℓ} {A : Type ℓ} (key : A → ℕ) where
  unfoldable pub insert_sorted : A → List A → List A
  insert_sorted x [] = x ∷ []
  insert_sorted x (y ∷ ys) = if leb (key x) (key y) then x ∷ y ∷ ys else y ∷ insert_sorted x ys

  unfoldable pub sort : List A → List A
  sort [] = []
  sort (x ∷ xs) = insert_sorted x (sort xs)

  -- Every key of the list is at least `n`, and they rise strictly.
  abbrev pub Rises : ℕ → List A → Type 0
  Rises n [] = Unit
  Rises n (x ∷ xs) = (n ≤ key x) × Rises (suc (key x)) xs

  insert_sorted-Rises : (x : A) (xs : List A) → Rises (suc (key x)) xs → insert_sorted x xs ≡ x ∷ xs
  unfolding insert_sorted
  insert_sorted-Rises x [] h = refl
  insert_sorted-Rises x (y ∷ ys) h = ground arith

  pub sort-Rises : (n : ℕ) (xs : List A) → Rises n xs → sort xs ≡ xs
  unfolding sort
  sort-Rises n [] h = refl
  sort-Rises n (x ∷ xs) h =
      ap (insert_sorted x) (sort-Rises (suc (key x)) xs h.1) ∙ insert_sorted-Rises x xs h.1

  insert_sorted_comm :
      (x y : A) (xs : List A)
      → key x ≢ key y
      → insert_sorted x (insert_sorted y xs) ≡ insert_sorted y (insert_sorted x xs)
  unfolding insert_sorted
  insert_sorted_comm x y [] h = ground arith
  insert_sorted_comm x y (z ∷ zs) h = ground (arith, insert_sorted_comm x y zs h)

  -- Elements with distinct keys are put in the same order, whatever order they come in.
  sort-permᴰ : {xs ys : List A} → Permᴰ xs ys → Nodup (map key xs) → sort xs ≡ sort ys
  unfolding sort
  sort-permᴰ Permᴰ.nil h = refl
  sort-permᴰ (Permᴰ.cons e p) h = λ i. insert_sorted (e i) (sort-permᴰ p (Nodup-cons.0 h).1 i)
  sort-permᴰ (Permᴰ.swap {a = a} {b = b} {l = l} e e') h =
      insert_sorted_comm a b (sort l) (λ k. (Nodup-cons.0 h).0 (mem-cons.1 (Or.inl k)))
      ∙ (λ i. insert_sorted (e' i) (insert_sorted (e i) (sort l)))
  sort-permᴰ (Permᴰ.trans p q) h =
      sort-permᴰ p h ∙ sort-permᴰ q (Perm.nodup (Perm.map key ∣ p ∣₁) h)

  Rises-above : (n k : ℕ) (xs : List A) → Rises n xs → k < n → ¬ Mem k (map key xs)
  Rises-above n k [] h lt m = not-mem-nil m
  Rises-above n k (x ∷ xs) h lt m =
      Or.elim ⊥_prop (mem-cons.0 m) (λ e. omega arith)
        (Rises-above (suc (key x)) k xs h.1 (omega arith))

  Rises-Nodup : (n : ℕ) (xs : List A) → Rises n xs → Nodup (map key xs)
  Rises-Nodup n [] h = Nodup-nil
  Rises-Nodup n (x ∷ xs) h =
      Nodup-cons.1
        (Rises-above (suc (key x)) (key x) xs h.1 (omega arith), Rises-Nodup (suc (key x)) xs h.1)

  -- Sorting brings any rearrangement of a rising list back.
  pub sort-perm_Rises : IsSet A → (n : ℕ) (xs ys : List A) → Rises n xs → Perm ys xs → sort ys ≡ xs
  sort-perm_Rises s n xs ys h p =
      ∥∥₁_elim (Perm.symm p) (is_set s _ _) (λ q. sym (sort-permᴰ q (Rises-Nodup n xs h)))
      ∙ sort-Rises n xs h
