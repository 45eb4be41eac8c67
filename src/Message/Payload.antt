-- ===== src/Message/Payload.antt =====
-- The payload of a message: what is stored is what is read, inline or on the heap.
use libzmq_ru.Base.{
  ℕ, zero, suc, ◌-◌, ◌%◌, ◌^◌, ◌≤◌, ◌<◌, ◌≡◌, ◌↔◌, refl, ap, true, Option, none, some, List, [],
  ◌∷◌, length, take, set, replicate, arith, take-append_length, length-take, length-append,
  length-replicate,
}
use libzmq_ru.Message.{
  MessageData, inline, heap, Message, zero_padded, payload_from_vec, payload_from_slice, as_slice,
  set_payload, from_vec, from_slice, data_of, set_data, len, is_inline,
}

length_small : (n : ℕ) → n ≤ 32 → n % 2 ^ 8 ≡ n
length_small n h = omega arith

take-zero_padded :
    (n : ℕ) (xs : List ℕ) → length xs ≤ 32 → take (length xs % 2 ^ 8) (zero_padded n xs) ≡ xs
unfolding zero_padded
take-zero_padded n xs h =
    rw (length_small (length xs) h) (take-append_length xs (replicate (n - length xs) 0))

-- A message built from a vector or from a slice has the same state, carries exactly the bytes
-- given, has their number for its length, and is inline exactly when there are at most 32.
pub data_of-from_vec :
    (xs : List ℕ)
    → (data_of (from_vec xs) ≡ xs)
      × (from_slice xs ≡ from_vec xs)
      × (len (from_vec xs) ≡ length xs)
      × ((is_inline (from_vec xs) ≡ true) ↔ (length xs ≤ 32))
unfolding from_vec from_slice payload_from_vec payload_from_slice data_of len is_inline as_slice
data_of-from_vec xs = ground (arith, take-zero_padded 32 xs)

-- An inline payload has its whole array, and a length within it.
abbrev pub IsStored : MessageData → Type 0
IsStored (inline n bytes) = (length bytes ≡ 32) × (n ≤ 32)
IsStored (heap xs) = 32 < length xs

length-zero_padded : (n : ℕ) (xs : List ℕ) → length xs ≤ n → length (zero_padded n xs) ≡ n
unfolding zero_padded
length-zero_padded n xs h = omega (
  arith,
  length-append xs (replicate (n - length xs) 0),
  length-replicate {A = ℕ} (n - length xs) 0,
)

pub from_vec-IsStored : (xs : List ℕ) → IsStored (from_vec xs).payload
unfolding from_vec payload_from_vec
from_vec-IsStored xs = ground (arith, length-zero_padded 32 xs)

length-set : (xs : List ℕ) (i v : ℕ) → length (set xs i v) ≡ length xs
length-set [] i v = refl
length-set (x ∷ xs) zero v = refl
length-set (x ∷ xs) (suc i) v = ap suc (length-set xs i v)

take-set : (n : ℕ) (xs : List ℕ) (i v : ℕ) → i < n → take n (set xs i v) ≡ set (take n xs) i v
take-set zero xs i v h = absurd (omega arith)
take-set (suc n) [] i v h = refl
take-set (suc n) (x ∷ xs) zero v h = refl
take-set (suc n) (x ∷ xs) (suc i) v h = ap (◌∷◌ x) (take-set n xs i v (omega arith))

abbrev pub Written : Message → ℕ → ℕ → Option Message → Type 0
Written m i v none = len m ≤ i
Written m i v (some t) =
    (i < len m)
    × (data_of t ≡ set (data_of m) i v)
    × IsStored t.payload
    × (t.more ≡ m.more)
    × (t.group ≡ m.group)
    × (t.metadata ≡ m.metadata)

set_data_cases :
    (d : MessageData) (m : Message) (i v : ℕ)
    → m.payload ≡ d
    → IsStored d
    → Written m i v (set_data m i v)
unfolding set_data set_payload data_of len as_slice
set_data_cases (inline n bytes) m i v e h =
    ground (arith, length-take n bytes, take-set n bytes i v, length-set bytes i v)
set_data_cases (heap xs) m i v e h = ground (arith, length-set xs i v)

-- Writing one byte of the payload through the mutable slice of a message that is well stored:
-- it panics exactly out of bounds; in bounds it changes that byte of the data alone, keeps the
-- rest of the message, and leaves it well stored.
pub set_data_lem : (m : Message) (i v : ℕ) → IsStored m.payload → Written m i v (set_data m i v)
set_data_lem m i v h = set_data_cases m.payload m i v refl h
