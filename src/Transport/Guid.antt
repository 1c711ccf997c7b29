-- ===== src/Transport/Guid.antt =====
-- `TransportPacket::generateGuid` in Legacy/Transport/TransportPacket/transportpacket.cpp.
use components_network.Prelude.{
  ℕ, zero, suc, ◌<◌, ◌≡◌, refl, ap, Bytes, List, [], ◌∷◌, ◌++◌, Option, none, some, arith, ltb,
  length, take, drop, length-append, append_assoc, if◌then◌else◌,
}

-- `s.erase(pos, n)` for an `n` that reaches the end, and `s.insert(pos, "-")`: `none` is the
-- exception `std::out_of_range`.
erase_from : ℕ → Bytes → Option Bytes
erase_from pos s = if ltb (length s) pos then none else some (take pos s)

insert_dash : ℕ → Bytes → Option Bytes
insert_dash pos s = if ltb (length s) pos then none else some (take pos s ++ b'-' ∷ drop pos s)

infixl 5 ◌>>=◌
abbrev pub ◌>>=◌ : Option Bytes → (Bytes → Option Bytes) → Option Bytes
none >>= f = none
some s >>= f = f s

-- `hashed` is what `Encryption::encodeHex` makes of the generated key.
pub generate_guid : Bytes → Option Bytes
generate_guid hashed = do
  digits ← erase_from 32 hashed
  one ← insert_dash 8 digits
  two ← insert_dash 13 one
  three ← insert_dash 18 two
  insert_dash 23 three

module _ {ℓ} {A : Type ℓ} where
  take-append : (n : ℕ) (xs ys : List A) → length xs ≡ n → take n (xs ++ ys) ≡ xs
  take-append zero [] ys h = refl
  take-append (suc n) [] ys h = absurd (omega arith)
  take-append zero (x ∷ xs) ys h = absurd (omega arith)
  take-append (suc n) (x ∷ xs) ys h = ap (◌∷◌ x) (take-append n xs ys (omega arith))

  drop-append : (n : ℕ) (xs ys : List A) → length xs ≡ n → drop n (xs ++ ys) ≡ ys
  drop-append zero [] ys h = refl
  drop-append (suc n) [] ys h = absurd (omega arith)
  drop-append zero (x ∷ xs) ys h = absurd (omega arith)
  drop-append (suc n) (x ∷ xs) ys h = drop-append n xs ys (omega arith)

insert_dash-append :
    (n : ℕ) (xs ys s : Bytes)
    → s ≡ xs ++ ys
    → length xs ≡ n
    → insert_dash n s ≡ some (xs ++ b'-' ∷ ys)
unfolding insert_dash
insert_dash-append n xs ys s e h =
    rw e (ground (arith, take-append n xs ys h, drop-append n xs ys h, length-append xs ys))

erase_from-append : (n : ℕ) (xs ys : Bytes) → length xs ≡ n → erase_from n (xs ++ ys) ≡ some xs
unfolding erase_from
erase_from-append n xs ys h = ground (arith, take-append n xs ys h, length-append xs ys)

-- From a hexadecimal text of at least 32 digits the guid is the first 32 of them, in groups of 8,
-- 4, 4, 4 and 12 with dashes between.
pub generate_guid_groups :
    (a b c d e rest : Bytes)
    → length a ≡ 8
    → length b ≡ 4
    → length c ≡ 4
    → length d ≡ 4
    → length e ≡ 12
    → generate_guid (a ++ b ++ c ++ d ++ e ++ rest)
      ≡ some (a ++ b'-' ∷ b ++ b'-' ∷ c ++ b'-' ∷ d ++ b'-' ∷ e)
unfolding generate_guid
generate_guid_groups a b c d e rest ha hb hc hd he = rw (
  erase_from-append 32 (a ++ b ++ c ++ d ++ e) rest (omega (arith, length-append {0})),
  insert_dash-append 8 a (b ++ c ++ d ++ e) (a ++ b ++ c ++ d ++ e) (simp append_assoc) ha,
  insert_dash-append 13 (a ++ b'-' ∷ b) (c ++ d ++ e) (a ++ b'-' ∷ (b ++ c ++ d ++ e))
      (simp append_assoc) (omega (arith, length-append {0})),
  insert_dash-append 18 (a ++ b'-' ∷ b ++ b'-' ∷ c) (d ++ e) (a ++ b'-' ∷ b ++ b'-' ∷ (c ++ d ++ e))
      (simp append_assoc) (omega (arith, length-append {0})),
  insert_dash-append 23 (a ++ b'-' ∷ b ++ b'-' ∷ c ++ b'-' ∷ d) e
      (a ++ b'-' ∷ b ++ b'-' ∷ c ++ b'-' ∷ (d ++ e)) (simp append_assoc)
      (omega (arith, length-append {0})),
)

-- From a shorter text the call throws.
pub generate_guid_short : (s : Bytes) → length s < 32 → generate_guid s ≡ none
unfolding generate_guid erase_from
generate_guid_short s h = ground arith
