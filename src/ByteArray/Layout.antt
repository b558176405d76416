-- ===== src/ByteArray/Layout.antt =====
-- How the chain of nodes holds the bytes: the invariant of a `ByteArray`, and one round of the
-- copying loops of yk/bytearray.cc.
use yk_server.Base.{
  Bool-cases, ℕ, ◌+◌, ◌-◌, ◌*◌, ◌%◌, ◌≤◌, ◌<◌, ◌≡◌, ap, ◌∙◌, length, arith, inl, inr, lt_or_le,
  if◌then◌else◌, ◌==◌,
}
use yk_server.Base.Blocks.{IsUniform}
use yk_server.ByteArray.State.{ByteArray}
use native.Mathlib.Nat.{add-mul-mod_self_right, mod-eq_of_lt}

-- Every node has `base_size` bytes and `capacity` counts them all; the position lies in the data,
-- and `cur` is the node that holds it, or null where the position is at the end of the chain.
pub record IsValid (s : ByteArray) : Type 0 where
  pub pos_base : 0 < s.base_size
  pub uniform : IsUniform s.base_size s.nodes
  pub counted : s.capacity ≡ length s.nodes * s.base_size
  pub rooted : 0 < length s.nodes
  pub fits : s.size ≤ s.capacity
  pub within : s.position ≤ s.size
  pub from_cur : s.cur * s.base_size ≤ s.position
  pub to_cur : s.position < s.cur * s.base_size + s.base_size

-- The offset in its node of a position.
pub offset_lem : (p c b : ℕ) → c * b ≤ p → p < c * b + b → p ≡ c * b + p % b
offset_lem p c b lo hi =
    let i : ℕ = p - c * b in
    let e : p ≡ i + c * b = omega arith in
    let m : (i + c * b) % b ≡ i = add-mul-mod_self_right i c b ∙ mod-eq_of_lt (omega arith) in
    let m' : p % b ≡ i = ap (λ (t : ℕ). t % b) e ∙ m in omega arith

pub mul-lt-mul_cancel : (c n b : ℕ) → c * b < n * b → c < n
mul-lt-mul_cancel c n b h = elim (lt_or_le c n) [
  | inl below ↦ below
  | inr above ↦ let over : n * b ≤ c * b = grind arith in absurd (omega arith)
]

-- The pointer after a copy that ends at offset `e` of a node of `b` bytes: on to the next node if
-- this one is used up.
pub cur_after :
    (l e c b p : ℕ)
    → l ≡ b
    → 0 < e
    → e ≤ b
    → p ≡ c * b + e
    → ((if l == e then c + 1 else c) * b ≤ p) × (p < (if l == e then c + 1 else c) * b + b)
cur_after l e c b p size some_more h at = elim (Bool-cases (l == e)) [
  | inl used_up ↦ let whole : e ≡ b = ground arith in rw used_up (omega arith, omega arith)
  | inr room ↦ let short : e < b = ground arith in rw room (omega arith, omega arith)
]
