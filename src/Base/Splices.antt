-- ===== src/Base/Splices.antt =====
-- Prefixes of a list that was overwritten in the middle.
use yk_server.Base.{
  ℕ, zero, suc, ◌+◌, ◌≤◌, ◌<◌, ◌≡◌, refl, sym, ap, ◌∙◌, List, [], ◌∷◌, ◌++◌, length, take, drop,
  splice, slice, arith, length-take, take-append-drop, drop_all, inl, inr, lt_or_le,
}

module _ {ℓ} {A : Type ℓ} where
  pub take-splice :
      (xs : List A) (n i : ℕ) (c : List A)
      → i + length c ≤ n
      → take n (splice xs i c) ≡ splice (take n xs) i c
  take-splice [] zero i c h = refl
  take-splice [] (suc n) i c h = refl
  take-splice (x ∷ xs) zero zero [] h = refl
  take-splice (x ∷ xs) zero zero (d ∷ c) h = absurd (omega arith)
  take-splice (x ∷ xs) zero (suc i) c h = absurd (omega arith)
  take-splice (x ∷ xs) (suc n) zero [] h = refl
  take-splice (x ∷ xs) (suc n) zero (d ∷ c) h =
      ap (λ t. d ∷ t) (take-splice xs n zero c (omega arith))
  take-splice (x ∷ xs) (suc n) (suc i) c h = ap (λ t. x ∷ t) (take-splice xs n i c (omega arith))

  -- The bytes from `i` on give way to `c`, and what is behind them stays.
  abbrev pub overwrite : List A → ℕ → List A → List A
  overwrite xs i c = take i xs ++ (c ++ drop (i + length c) xs)

  splice-zero : (xs c : List A) → length c ≤ length xs → splice xs zero c ≡ c ++ drop (length c) xs
  splice-zero [] [] h = refl
  splice-zero [] (d ∷ c) h = absurd (omega arith)
  splice-zero (x ∷ xs) [] h = refl
  splice-zero (x ∷ xs) (d ∷ c) h = ap (λ t. d ∷ t) (splice-zero xs c (omega arith))

  drop_cong : (m n : ℕ) (xs : List A) → m ≡ n → drop m xs ≡ drop n xs
  drop_cong m n xs e = rw e

  pub splice-overwrite :
      (xs : List A) (i : ℕ) (c : List A)
      → i + length c ≤ length xs
      → splice xs i c ≡ overwrite xs i c
  splice-overwrite xs zero c h =
      splice-zero xs c (omega arith)
      ∙ ap (λ t. c ++ t) (drop_cong (length c) (0 + length c) xs (omega arith))
  splice-overwrite [] (suc i) c h = absurd (omega arith)
  splice-overwrite (x ∷ xs) (suc i) c h =
      ap (λ t. x ∷ t)
        (splice-overwrite xs i c (omega arith)
          ∙ ap (λ t. take i xs ++ (c ++ t))
              (drop_cong (suc (i + length c)) (suc i + length c) (x ∷ xs) (omega arith)))

  pub take-take : (m n : ℕ) (xs : List A) → m ≤ n → take m (take n xs) ≡ take m xs
  take-take zero n xs h = refl
  take-take (suc m) zero xs h = absurd (omega arith)
  take-take (suc m) (suc n) [] h = refl
  take-take (suc m) (suc n) (x ∷ xs) h = ap (λ t. x ∷ t) (take-take m n xs (omega arith))

  pub slice-take : (xs : List A) (i n m : ℕ) → i + n ≤ m → slice (take m xs) i n ≡ slice xs i n
  slice-take xs zero n m h = take-take n m xs (omega arith)
  slice-take xs (suc i) n zero h = absurd (omega arith)
  slice-take [] (suc i) n (suc m) h = refl
  slice-take (x ∷ xs) (suc i) n (suc m) h = slice-take xs i n m (omega arith)

  -- Writing over the first `size` elements of `xs` at `i`, where `more` may lie behind them, gives
  -- the elements up to the larger of the old end and the end of what was written.
  pub take-splice_grown :
      (xs : List A) (size size' i : ℕ) (c : List A)
      → i ≤ size
      → i + length c ≤ length xs
      → size ≤ size'
      → i + length c ≤ size'
      → (size < size' → size' ≡ i + length c)
      → take size' (splice xs i c) ≡ overwrite (take size xs) i c
  take-splice_grown xs size size' i c below room grown reach tight =
      take-splice xs size' i c reach
      ∙ splice-overwrite (take size' xs) i c (omega (arith, length-take size' xs))
      ∙ ap (λ t. t ++ (c ++ drop (i + length c) (take size' xs))) front
      ∙ ap (λ t. take i (take size xs) ++ (c ++ t)) back
    where
      front : take i (take size' xs) ≡ take i (take size xs)
      front = take-take i size' xs (omega arith) ∙ sym (take-take i size xs below)

      back : drop (i + length c) (take size' xs) ≡ drop (i + length c) (take size xs)
      back = elim (lt_or_le size size') [
        | inl longer ↦
            drop_all (i + length c) (take size' xs)
              (omega (arith, length-take size' xs, tight longer))
            ∙ sym (
                drop_all (i + length c) (take size xs)
                  (omega (arith, length-take size xs, tight longer)))
        | inr same ↦ let e : size' ≡ size = omega arith in rw e
      ]

  pub overwrite_nothing : (xs : List A) (i : ℕ) → xs ≡ overwrite xs i []
  overwrite_nothing xs i =
      sym (take-append-drop i xs) ∙ ap (λ t. take i xs ++ t) (drop_cong i (i + 0) xs (omega arith))
