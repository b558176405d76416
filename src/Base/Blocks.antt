-- ===== src/Base/Blocks.antt =====
-- A list of blocks of one length against the list of their elements: an index into the one is a
-- block and an offset in the other.
use yk_server.Base.Lists.{
  length, get_elem?, set, take, drop, splice, slice, flat, replicate, length-append, drop-drop,
  take-append_left, drop-append_left, length-drop,
}
use Prim.Native.Nat.{ℕ, zero, suc, ◌+◌, ◌*◌, ◌≤◌, ◌<◌}
use mathlib.Core.Path.{◌≡◌, refl, sym, ap, ◌∙◌}
use mathlib.Core.List.{List, [], ◌∷◌, ◌++◌, append_assoc}
use mathlib.Core.Option.{some, none}
use native.Mathlib.Nat.{zero-add}
use native.Mathlib.Omega.{arith}

module _ {ℓ} {A : Type ℓ} where
  -- Two runs that touch are one run.
  pub splice-splice :
      (xs : List A) (i j : ℕ) (a b : List A)
      → j ≡ i + length a
      → splice (splice xs i a) j b ≡ splice xs i (a ++ b)
  splice-splice [] i j a b e = refl
  splice-splice (x ∷ xs) zero zero [] b e = refl
  splice-splice (x ∷ xs) zero (suc j) [] b e = absurd (omega arith)
  splice-splice (x ∷ xs) zero zero (c ∷ a) b e = absurd (omega arith)
  splice-splice (x ∷ xs) zero (suc j) (c ∷ a) b e =
      ap (λ t. c ∷ t) (splice-splice xs zero j a b (omega arith))
  splice-splice (x ∷ xs) (suc i) zero a b e = absurd (omega arith)
  splice-splice (x ∷ xs) (suc i) (suc j) a b e =
      ap (λ t. x ∷ t) (splice-splice xs i j a b (omega arith))

  pub splice-append_left :
      (xs ys : List A) (i : ℕ) (c : List A)
      → i + length c ≤ length xs
      → splice (xs ++ ys) i c ≡ splice xs i c ++ ys
  splice-append_left [] [] i c h = refl
  splice-append_left [] (y ∷ ys) zero [] h = refl
  splice-append_left [] (y ∷ ys) zero (d ∷ c) h = absurd (omega arith)
  splice-append_left [] (y ∷ ys) (suc i) c h = absurd (omega arith)
  splice-append_left (x ∷ xs) ys zero [] h = refl
  splice-append_left (x ∷ xs) ys zero (d ∷ c) h =
      ap (λ t. d ∷ t) (splice-append_left xs ys zero c (omega arith))
  splice-append_left (x ∷ xs) ys (suc i) c h =
      ap (λ t. x ∷ t) (splice-append_left xs ys i c (omega arith))

  pub splice-append_right :
      (xs ys : List A) (i j : ℕ) (c : List A)
      → i ≡ length xs + j
      → splice (xs ++ ys) i c ≡ xs ++ splice ys j c
  splice-append_right [] ys i j c h = rw h (rw zero-add)
  splice-append_right (x ∷ xs) ys zero j c h = absurd (omega arith)
  splice-append_right (x ∷ xs) ys (suc i) j c h =
      ap (λ t. x ∷ t) (splice-append_right xs ys i j c (omega arith))

  pub slice-append_left :
      (xs ys : List A) (i n : ℕ) → i + n ≤ length xs → slice (xs ++ ys) i n ≡ slice xs i n
  slice-append_left xs ys i n h =
      rw (drop-append_left i xs ys (omega arith))
        (take-append_left n (drop i xs) ys (omega (arith, length-drop i xs)))

  pub drop-append_plus :
      (xs ys : List A) (i j : ℕ) → i ≡ length xs + j → drop i (xs ++ ys) ≡ drop j ys
  drop-append_plus [] ys i j h = rw h (rw zero-add)
  drop-append_plus (x ∷ xs) ys zero j h = absurd (omega arith)
  drop-append_plus (x ∷ xs) ys (suc i) j h = drop-append_plus xs ys i j (omega arith)

  take_plus : (xs : List A) (m n s : ℕ) → s ≡ m + n → take m xs ++ take n (drop m xs) ≡ take s xs
  take_plus xs zero n s e = rw e (rw zero-add)
  take_plus xs (suc m) n zero e = absurd (omega arith)
  take_plus [] (suc m) zero (suc s) e = refl
  take_plus [] (suc m) (suc n) (suc s) e = refl
  take_plus (x ∷ xs) (suc m) n (suc s) e = ap (λ t. x ∷ t) (take_plus xs m n s (omega arith))

  pub slice_plus :
      (xs : List A) (i m n : ℕ) → slice xs i m ++ slice xs (i + m) n ≡ slice xs i (m + n)
  slice_plus xs i m n = rw (← drop-drop m i xs) (take_plus (drop i xs) m n (m + n) refl)

  -- Every block has `size` elements.
  abbrev pub IsUniform : ℕ → List (List A) → Type 0
  IsUniform size [] = Unit
  IsUniform size (b ∷ bs) = (length b ≡ size) × IsUniform size bs

  pub get_elem?-length :
      (size : ℕ) (bs : List (List A)) (k : ℕ) {b : List A}
      → IsUniform size bs
      → get_elem? bs k ≡ some b
      → length b ≡ size
  get_elem?-length size [] k u e = cc
  get_elem?-length size (b ∷ bs) zero {b = b'} u e = let same : b ≡ b' = cc in rw same at u.0
  get_elem?-length size (b ∷ bs) (suc k) u e = get_elem?-length size bs k u.1 e

  pub get_elem?-below :
      (bs : List (List A)) (k : ℕ) → k < length bs → (b : List A) × (get_elem? bs k ≡ some b)
  get_elem?-below [] k h = absurd (omega arith)
  get_elem?-below (b ∷ bs) zero h = (b, refl)
  get_elem?-below (b ∷ bs) (suc k) h = get_elem?-below bs k (omega arith)

  pub get_elem?-beyond : (bs : List (List A)) (k : ℕ) → length bs ≤ k → get_elem? bs k ≡ none
  get_elem?-beyond [] k h = refl
  get_elem?-beyond (b ∷ bs) zero h = absurd (omega arith)
  get_elem?-beyond (b ∷ bs) (suc k) h = get_elem?-beyond bs k (omega arith)

  pub set-IsUniform :
      (size : ℕ) (bs : List (List A)) (k : ℕ) (b : List A)
      → IsUniform size bs
      → length b ≡ size
      → IsUniform size (set bs k b)
  set-IsUniform size [] k b u e = u
  set-IsUniform size (c ∷ bs) zero b u e = (e, u.1)
  set-IsUniform size (c ∷ bs) (suc k) b u e = (u.0, set-IsUniform size bs k b u.1 e)

  pub length-flat :
      (size : ℕ) (bs : List (List A)) → IsUniform size bs → length (flat bs) ≡ length bs * size
  length-flat size [] u = omega arith
  length-flat size (b ∷ bs) u =
      omega (arith, length-append b (flat bs), length-flat size bs u.1, u.0)

  -- A run within block `k` is a run of the whole.
  pub flat-set :
      (size : ℕ) (bs : List (List A)) (k i : ℕ) (c : List A) {b : List A}
      → IsUniform size bs
      → get_elem? bs k ≡ some b
      → i + length c ≤ size
      → flat (set bs k (splice b i c)) ≡ splice (flat bs) (k * size + i) c
  flat-set size [] k i c u e h = cc
  flat-set size (b ∷ bs) zero i c {b = b'} u e h =
      let at : 0 * size + i ≡ i = omega arith in
      let same : b ≡ b' = cc in
      rw (at, ← same) (sym (splice-append_left b (flat bs) i c (omega (arith, u.0))))
  flat-set size (b ∷ bs) (suc k) i c u e h =
      ap (λ t. b ++ t) (flat-set size bs k i c u.1 e h)
      ∙ sym
          (splice-append_right b (flat bs) (suc k * size + i) (k * size + i) c (omega (arith, u.0)))

  pub slice-block :
      (size : ℕ) (bs : List (List A)) (k i n : ℕ) {b : List A}
      → IsUniform size bs
      → get_elem? bs k ≡ some b
      → i + n ≤ size
      → slice b i n ≡ slice (flat bs) (k * size + i) n
  slice-block size [] k i n u e h = cc
  slice-block size (b ∷ bs) zero i n {b = b'} u e h =
      let at : 0 * size + i ≡ i = omega arith in
      let same : b ≡ b' = cc in
      rw (at, ← same) (sym (slice-append_left b (flat bs) i n (omega (arith, u.0))))
  slice-block size (b ∷ bs) (suc k) i n u e h =
      slice-block size bs k i n u.1 e h
      ∙ ap (λ t. take n t)
          (sym
            (drop-append_plus b (flat bs) (suc k * size + i) (k * size + i) (omega (arith, u.0))))

  pub flat-append : (xs ys : List (List A)) → flat (xs ++ ys) ≡ flat xs ++ flat ys
  flat-append [] ys = refl
  flat-append (x ∷ xs) ys =
      ap (λ t. x ++ t) (flat-append xs ys) ∙ sym (append_assoc x (flat xs) (flat ys))

  pub append-IsUniform :
      (size : ℕ) (xs ys : List (List A))
      → IsUniform size xs
      → IsUniform size ys
      → IsUniform size (xs ++ ys)
  append-IsUniform size [] ys u v = v
  append-IsUniform size (x ∷ xs) ys u v = (u.0, append-IsUniform size xs ys u.1 v)

  pub replicate-IsUniform :
      (size n : ℕ) (b : List A) → length b ≡ size → IsUniform size (replicate n b)
  replicate-IsUniform size zero b e = tt
  replicate-IsUniform size (suc n) b e = (e, replicate-IsUniform size n b e)
