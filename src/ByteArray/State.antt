-- ===== src/ByteArray/State.antt =====
-- The state of yk/bytearray.h's `ByteArray`, and what a method call on it may do.
use yk_server.Base.{ℕ, ◌+◌, ◌-◌, ◌^◌, List, if◌then◌else◌, leb, get_elem?, Option, flat}

pub data Endian : Type 0 where
  little big : Endian

-- What the code takes from the machine: the byte order that it is compiled for (YK_BYTE_ORDER),
-- and what the bytes of `new char[s]` hold before they are written.
pub record Machine : Type 0 where
  pub order : Endian
  pub fresh : ℕ

-- The chain of nodes from `m_root` is the list of their memory blocks, a byte an element. A pointer
-- to a node is its index in the chain, and the index behind the last node is the null pointer.
pub record ByteArray : Type 0 where
  pub machine : Machine
  pub base_size : ℕ
  pub position : ℕ
  pub capacity : ℕ
  pub size : ℕ
  pub endian : Endian
  pub nodes : List (List ℕ)
  pub cur : ℕ

-- How a call ends: with a value, by `std::out_of_range`, by a step that C++ leaves undefined (a
-- null node is followed, a negative length is passed on), or, in the model, without fuel.
pub data Outcome (A : Type 0) : Type 0 where
  ok : A → Outcome A
  out_of_range : Outcome A
  undefined : Outcome A
  stuck : Outcome A

-- The object stays as it is at the throw.
abbrev pub Action : Type 0 → Type 0
Action A = ByteArray → Outcome A × ByteArray

abbrev pub pure : {A : Type 0} → A → Action A
pure a s = (ok a, s)

-- What follows a call that ended as the first argument says.
abbrev pub after : {A B : Type 0} → Outcome A × ByteArray → (A → Action B) → Outcome B × ByteArray
after (ok a, s) f = f a s
after (out_of_range, s) f = (out_of_range, s)
after (undefined, s) f = (undefined, s)
after (stuck, s) f = (stuck, s)

infixl 5 ◌>>=◌ ◌>>◌
abbrev pub ◌>>=◌ : {A B : Type 0} → Action A → (A → Action B) → Action B
◌>>=◌ m f s = after (m s) f

abbrev pub ◌>>◌ : {A B : Type 0} → Action A → Action B → Action B
m >> k = m >>= λ _. k

-- size_t subtraction of numbers below 2 ^ 64.
abbrev pub sub_size : ℕ → ℕ → ℕ
sub_size a b = if leb b a then a - b else a + 2 ^ 64 - b

-- The block of the node that a pointer points to.
abbrev pub deref : ByteArray → ℕ → Option (List ℕ)
deref s p = get_elem? s.nodes p

-- The memory of the chain, one block behind the other.
abbrev pub memory : ByteArray → List ℕ
memory s = flat s.nodes
