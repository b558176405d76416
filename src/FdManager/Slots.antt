-- ===== src/FdManager/Slots.antt =====
-- `m_datas` of yk/fdmanager.cc as a map from descriptors to pointers: what setting an entry and
-- resizing do to it.
use yk_server.Base.{
  ℕ, zero, suc, ◌-◌, ◌≤◌, ◌<◌, ◌≡◌, ◌≢◌, refl, List, [], ◌∷◌, ◌++◌, Option, none, some, length, set,
  take, replicate, arith, length-append, length-replicate, length-take, take_all,
}
use yk_server.Base.Lookup.{get_elem?-set_same, get_elem?-set_other}
use yk_server.FdManager.{resize, slot}

pub slot-set_same :
    (xs : List (Option ℕ)) (i : ℕ) (p : Option ℕ) → i < length xs → slot (set xs i p) i ≡ p
slot-set_same xs i p h = rw (slot, get_elem?-set_same xs i p h) refl

pub slot-set_other :
    (xs : List (Option ℕ)) (i j : ℕ) (p : Option ℕ) → i ≢ j → slot (set xs i p) j ≡ slot xs j
slot-set_other xs i j p h = rw (slot, get_elem?-set_other xs i j p h) refl

slot-replicate : (n i : ℕ) → slot (replicate n none) i ≡ none
slot-replicate zero i = refl
slot-replicate (suc n) zero = refl
slot-replicate (suc n) (suc i) = slot-replicate n i

pub slot-extended : (xs : List (Option ℕ)) (n i : ℕ) → slot (xs ++ replicate n none) i ≡ slot xs i
slot-extended [] n i = slot-replicate n i
slot-extended (x ∷ xs) n zero = refl
slot-extended (x ∷ xs) n (suc i) = slot-extended xs n i

-- Making room keeps the map.
pub slot-resize :
    (n : ℕ) (xs : List (Option ℕ)) (i : ℕ) → length xs ≤ n → slot (resize n xs) i ≡ slot xs i
slot-resize n xs i h = rw (take_all n xs h) (slot-extended xs (n - length xs) i)

pub length-resize : (n : ℕ) (xs : List (Option ℕ)) → length (resize n xs) ≡ n
length-resize n xs = omega (
  arith,
  length-append (take n xs) (replicate (n - length xs) none),
  length-take n xs,
  length-replicate {A = Option ℕ} (n - length xs) none,
)

pub slot_empty : (n i : ℕ) → slot (replicate n none) i ≡ none
slot_empty = slot-replicate

pub slot-beyond : (xs : List (Option ℕ)) (i : ℕ) → length xs ≤ i → slot xs i ≡ none
slot-beyond [] i h = refl
slot-beyond (x ∷ xs) zero h = absurd (omega arith)
slot-beyond (x ∷ xs) (suc i) h = slot-beyond xs i (omega arith)

pub slot-bound : (xs : List (Option ℕ)) (i : ℕ) {p : ℕ} → slot xs i ≡ some p → i < length xs
slot-bound [] i e = absurd (grind arith)
slot-bound (x ∷ xs) zero e = omega arith
slot-bound (x ∷ xs) (suc i) e = omega (arith, slot-bound xs i e)
