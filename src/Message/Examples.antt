-- ===== src/Message/Examples.antt =====
-- Runs of message.rs at small inputs, and the theorems at inputs that meet their hypotheses.
use libzmq_ru.Base.{ℕ, ◌≡◌, refl, true, false, List, [], ◌∷◌, replicate}
use libzmq_ru.Message.{
  Message, new, from_vec, from_slice, data_of, len, is_inline, set_data, set_routing_id, set_group,
  set_metadata, metadata_of, message_is_empty, set_more, as_slice,
}

abbrev hello : List ℕ
hello = 104 ∷ 101 ∷ 108 ∷ 108 ∷ 111 ∷ []

message_from_str_keeps_bytes :
    (data_of (from_slice hello) ≡ hello) × (is_inline (from_slice hello) ≡ true)
unfolding data_of from_slice is_inline libzmq_ru.Message.payload_from_slice
message_from_str_keeps_bytes = (refl, refl)

large_message_uses_heap_storage : is_inline (from_vec (replicate 1024 7)) ≡ false
unfolding from_vec is_inline libzmq_ru.Message.payload_from_vec
large_message_uses_heap_storage = refl
