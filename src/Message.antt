-- ===== src/Message.antt =====
-- crates/libzmq-core/src/message.rs: a message, its payload inline or on the heap.
-- A byte is a number below 256, and a Rust string is the list of its bytes.
pub mod Payload
pub mod Properties
mod Examples
use libzmq_ru.Base.{
  ℕ, zero, suc, ◌-◌, ◌%◌, ◌^◌, Bool, true, false, ◌&&◌, ◌||◌, not, Option, none, some, List, [],
  ◌∷◌, ◌++◌, length, is_empty, take, set, replicate, any, find, ltb, leb, ◌==◌, bytes_eq,
  if◌then◌else◌,
}
use libzmq_ru.Constants.{inline_capacity, zmq_group_max_length}
use libzmq_ru.Error.{Result, ok, err, invalid_argument}

pub data MessageData : Type 0 where
  inline : ℕ → List ℕ → MessageData
  heap : List ℕ → MessageData

pub record Message : Type 0 where
  pub payload : MessageData
  pub more : Bool
  pub routing_id : ℕ
  pub group : Option (List ℕ)
  pub metadata : List (List ℕ × List ℕ)

-- `bytes[..data.len()].copy_from_slice(data)` on an array of `n` zeros.
pub zero_padded : ℕ → List ℕ → List ℕ
zero_padded n xs = xs ++ replicate (n - length xs) 0

abbrev empty_payload : MessageData
empty_payload = inline 0 (replicate inline_capacity 0)

payload_from_vec : List ℕ → MessageData
unfolding zero_padded
payload_from_vec xs =
    if leb (length xs) inline_capacity
    then inline (length xs % 2 ^ 8) (zero_padded inline_capacity xs)
    else heap xs

payload_from_slice : List ℕ → MessageData
unfolding zero_padded
payload_from_slice xs =
    if leb (length xs) inline_capacity
    then inline (length xs % 2 ^ 8) (zero_padded inline_capacity xs)
    else heap xs

pub as_slice : MessageData → List ℕ
as_slice (inline n bytes) = take n bytes
as_slice (heap xs) = xs

-- `as_mut_slice()[i] = v`; `none` is the panic of an index out of bounds.
set_payload : MessageData → ℕ → ℕ → Option MessageData
set_payload (inline n bytes) i v = if ltb i n then some (inline n (set bytes i v)) else none
set_payload (heap xs) i v = if ltb i (length xs) then some (heap (set xs i v)) else none

payload_is_inline : MessageData → Bool
payload_is_inline (inline n bytes) = true
payload_is_inline (heap xs) = false

message_of : MessageData → Message
message_of d = record { payload = d; more = false; routing_id = 0; group = none; metadata = [] }

pub new : Message
unfolding message_of
new = message_of empty_payload

unfoldable pub from_vec : List ℕ → Message
unfolding message_of payload_from_vec
from_vec xs = message_of (payload_from_vec xs)

pub from_slice : List ℕ → Message
unfolding message_of
from_slice xs = message_of (payload_from_slice xs)

unfoldable pub data_of : Message → List ℕ
unfolding as_slice
data_of m = as_slice m.payload

pub set_data : Message → ℕ → ℕ → Option Message
unfolding set_payload
set_data m i v = elim (set_payload m.payload i v) [
  | none ↦ none
  | some d ↦ some (record m { payload = d })
]

unfoldable pub len : Message → ℕ
unfolding as_slice
len m = length (as_slice m.payload)

pub message_is_empty : Message → Bool
unfolding len
message_is_empty m = len m == 0

pub is_inline : Message → Bool
unfolding payload_is_inline
is_inline m = payload_is_inline m.payload

unfoldable pub set_more : Message → Bool → Message
set_more m b = record m { more = b }

unfoldable pub set_routing_id : Message → ℕ → Message
set_routing_id m id = record m { routing_id = id }

-- `as_bytes().contains(&0)`
unfoldable pub has_nul : List ℕ → Bool
unfolding any
has_nul = any (λ b. b == 0)

pub set_group : Message → List ℕ → Message × Result (Unit {0})
set_group m g =
    if ltb zmq_group_max_length (length g) || has_nul g
    then (m, err invalid_argument)
    else (record m { group = some g }, ok tt)

-- The first entry with the key gets the value; `none` if there is no such entry.
replace_value : List ℕ → List ℕ → List (List ℕ × List ℕ) → Option (List (List ℕ × List ℕ))
replace_value k v [] = none
replace_value k v ((j, w) ∷ rest) =
    let later = replace_value k v rest in
    if bytes_eq j k
    then some ((j, v) ∷ rest)
    else elim later [ none ↦ none | some r ↦ some ((j, w) ∷ r) ]

store_value : List ℕ → List ℕ → List (List ℕ × List ℕ) → List (List ℕ × List ℕ)
store_value k v entries = elim (replace_value k v entries) [
  | some r ↦ r
  | none ↦ entries ++ ((k, v) ∷ [])
]

pub set_metadata : Message → List ℕ → List ℕ → Message × Result (Unit {0})
unfolding store_value
set_metadata m k v =
    if is_empty k || has_nul k || has_nul v
    then (m, err invalid_argument)
    else (record m { metadata = store_value k v m.metadata }, ok tt)

find_value : List ℕ → List (List ℕ × List ℕ) → Option (List ℕ)
find_value k [] = none
find_value k ((j, w) ∷ rest) = if bytes_eq j k then some w else find_value k rest

pub metadata_of : Message → List ℕ → Option (List ℕ)
unfolding find_value
metadata_of m k = find_value k m.metadata
