-- ===== src/Base/Lookup.antt =====
-- What appending and writing do to the elements of a list by their index.
use Prim.Native.Nat.{ℕ, zero, suc, ◌-◌, ◌≤◌, ◌<◌}
use mathlib.Core.Path.{◌≡◌, refl, sym, ap, ◌∙◌, subst}
use mathlib.Core.Logic.{◌≢◌, ◌⊎◌, inl, inr}
use mathlib.Core.List.{List, [], ◌∷◌, ◌++◌}
use mathlib.Core.Option.{none, some}
use native.Mathlib.Omega.{arith}
use yk_server.Base.Tests.{◌==◌, Bool-cases, lt_or_le}
use native.Mathlib.Nat.{sub-zero}
use yk_server.Base.Lists.{length, get_elem?, set, replicate}

pub same_or_other : (a b : ℕ) → (a ≡ b) ⊎ (a ≢ b)
same_or_other a b = elim (Bool-cases (a == b)) [
  | inl e ↦ inl (ground arith)
  | inr differs ↦ inr (λ e. ground arith)
]

module _ {ℓ} {A : Type ℓ} where
  pub get_elem?-last : (xs : List A) (x : A) → get_elem? (xs ++ (x ∷ [])) (length xs) ≡ some x
  get_elem?-last [] x = refl
  get_elem?-last (y ∷ xs) x = get_elem?-last xs x

  pub get_elem?-append :
      (xs ys : List A) (i : ℕ) {x : A} → get_elem? xs i ≡ some x → get_elem? (xs ++ ys) i ≡ some x
  get_elem?-append [] ys i e = absurd (grind arith)
  get_elem?-append (y ∷ xs) ys zero e = e
  get_elem?-append (y ∷ xs) ys (suc i) e = get_elem?-append xs ys i e

  pub get_elem?-set_same :
      (xs : List A) (i : ℕ) (x : A) → i < length xs → get_elem? (set xs i x) i ≡ some x
  get_elem?-set_same [] i x h = absurd (omega arith)
  get_elem?-set_same (y ∷ xs) zero x h = refl
  get_elem?-set_same (y ∷ xs) (suc i) x h = get_elem?-set_same xs i x (omega arith)

  pub get_elem?-set_other :
      (xs : List A) (i j : ℕ) (x : A) → i ≢ j → get_elem? (set xs i x) j ≡ get_elem? xs j
  get_elem?-set_other [] i j x h = refl
  get_elem?-set_other (y ∷ xs) zero zero x h = absurd (h refl)
  get_elem?-set_other (y ∷ xs) zero (suc j) x h = refl
  get_elem?-set_other (y ∷ xs) (suc i) zero x h = refl
  get_elem?-set_other (y ∷ xs) (suc i) (suc j) x h =
      get_elem?-set_other xs i j x (λ e. h (ap suc e))

  pub get_elem?-length_bound :
      (xs : List A) (i : ℕ) {x : A} → get_elem? xs i ≡ some x → i < length xs
  get_elem?-length_bound [] i e = absurd (grind arith)
  get_elem?-length_bound (y ∷ xs) zero e = omega arith
  get_elem?-length_bound (y ∷ xs) (suc i) e = omega (arith, get_elem?-length_bound xs i e)

  pub get_elem?-append_right :
      (xs ys : List A) (i : ℕ)
      → length xs ≤ i
      → get_elem? (xs ++ ys) i ≡ get_elem? ys (i - length xs)
  get_elem?-append_right [] ys i h = rw sub-zero refl
  get_elem?-append_right (x ∷ xs) ys zero h = absurd (omega arith)
  get_elem?-append_right (x ∷ xs) ys (suc i) h =
      get_elem?-append_right xs ys i (omega arith) ∙ ap (λ (k : ℕ). get_elem? ys k) (omega arith)

  pub get_elem?-append_left :
      (xs ys : List A) (i : ℕ) → i < length xs → get_elem? (xs ++ ys) i ≡ get_elem? xs i
  get_elem?-append_left [] ys i h = absurd (omega arith)
  get_elem?-append_left (x ∷ xs) ys zero h = refl
  get_elem?-append_left (x ∷ xs) ys (suc i) h = get_elem?-append_left xs ys i (omega arith)

  pub get_elem?-replicate : (n i : ℕ) (x : A) → i < n → get_elem? (replicate n x) i ≡ some x
  get_elem?-replicate zero i x h = absurd (omega arith)
  get_elem?-replicate (suc n) zero x h = refl
  get_elem?-replicate (suc n) (suc i) x h = get_elem?-replicate n i x (omega arith)

  pub get_elem?-replicate_value :
      (n i : ℕ) (x : A) {y : A} → get_elem? (replicate n x) i ≡ some y → y ≡ x
  get_elem?-replicate_value zero i x e = absurd (grind arith)
  get_elem?-replicate_value (suc n) zero x e = grind arith
  get_elem?-replicate_value (suc n) (suc i) x e = get_elem?-replicate_value n i x e

  pub get_elem?-below : (xs : List A) (i : ℕ) → i < length xs → (x : A) × (get_elem? xs i ≡ some x)
  get_elem?-below [] i h = absurd (omega arith)
  get_elem?-below (x ∷ xs) zero h = (x, refl)
  get_elem?-below (x ∷ xs) (suc i) h = get_elem?-below xs i (omega arith)

  pub get_elem?-outside : (xs : List A) (i : ℕ) → length xs ≤ i → get_elem? xs i ≡ none
  get_elem?-outside [] i h = refl
  get_elem?-outside (x ∷ xs) zero h = absurd (omega arith)
  get_elem?-outside (x ∷ xs) (suc i) h = get_elem?-outside xs i (omega arith)

  get_elem?-set_found :
      (xs : List A) (i : ℕ) (x : A) {y : A} → get_elem? (set xs i x) i ≡ some y → x ≡ y
  get_elem?-set_found [] i x e = absurd (grind arith)
  get_elem?-set_found (z ∷ xs) zero x e = grind arith
  get_elem?-set_found (z ∷ xs) (suc i) x e = get_elem?-set_found xs i x e

  -- What holds of each element.
  abbrev pub Every {κ} : (A → Type κ) → List A → Type (ℓ ⊔ κ)
  Every P xs = (i : ℕ) (x : A) → get_elem? xs i ≡ some x → P x

  pub set-Every {κ} :
      (P : A → Type κ) (xs : List A) (i : ℕ) (x : A) → Every P xs → P x → Every P (set xs i x)
  set-Every P xs i x v p j y e = elim (same_or_other i j) [
    | inl same ↦ subst P (get_elem?-set_found xs i x (ap (get_elem? (set xs i x)) same ∙ e)) p
    | inr other ↦ v j y (sym (get_elem?-set_other xs i j x other) ∙ e)
  ]

  pub append-Every {κ} :
      (P : A → Type κ) (xs ys : List A) → Every P xs → Every P ys → Every P (xs ++ ys)
  append-Every P xs ys v w i x e = elim (lt_or_le i (length xs)) [
    | inl below ↦ v i x (sym (get_elem?-append_left xs ys i below) ∙ e)
    | inr beyond ↦ w (i - length xs) x (sym (get_elem?-append_right xs ys i beyond) ∙ e)
  ]
