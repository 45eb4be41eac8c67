-- ===== src/Message/Properties.antt =====
-- The group and the metadata of a message.
use libzmq_ru.Base.{
  ℕ, ◌≤◌, ◌≡◌, ◌≢◌, ◌↔◌, inl, inr, false, none, some, List, [], ◌∷◌, ◌++◌, length, is_empty, arith,
  bytes_eq, bytes_eq_iff, if◌then◌else◌, Option-cases,
}
use libzmq_ru.Error.{ok, err, invalid_argument}
use libzmq_ru.Message.{
  Message, set_group, has_nul, replace_value, store_value, set_metadata, find_value, metadata_of,
}

abbrev pub GroupOutcome : Message → List ℕ → Type 0
GroupOutcome m g =
    (((set_group m g).1 ≡ ok tt) ↔ ((length g ≤ 255) × (has_nul g ≡ false)))
    × (((set_group m g).1 ≡ ok tt) → (set_group m g).0 ≡ record m { group = some g })
    × (((set_group m g).1 ≢ ok tt)
        → ((set_group m g).1 ≡ err invalid_argument) × ((set_group m g).0 ≡ m))

-- A group is accepted exactly when it has at most 255 bytes and no zero byte; then it is the
-- message's group and nothing else changes, and otherwise the message stays as it was.
pub set_group-GroupOutcome : (m : Message) (g : List ℕ) → GroupOutcome m g
unfolding set_group
set_group-GroupOutcome m g = ground arith

find_value-replace :
    (k v j : List ℕ) (es : List (List ℕ × List ℕ)) (r : List (List ℕ × List ℕ))
    → replace_value k v es ≡ some r
    → find_value j r ≡ (if bytes_eq k j then some v else find_value j es)
unfolding replace_value find_value
find_value-replace k v j [] r h = cc
find_value-replace k v j ((i, w) ∷ es) r h = elim (Option-cases (replace_value k v es)) [
  | inl e ↦ ground (arith, e, bytes_eq_iff i k, bytes_eq_iff i j, bytes_eq_iff k j)
  | inr (s, e) ↦ ground (
    arith,
    e,
    bytes_eq_iff i k,
    bytes_eq_iff i j,
    bytes_eq_iff k j,
    find_value-replace k v j es s e,
  )
]

find_value-append :
    (k v j : List ℕ) (es : List (List ℕ × List ℕ))
    → replace_value k v es ≡ none
    → find_value j (es ++ ((k, v) ∷ [])) ≡ (if bytes_eq k j then some v else find_value j es)
unfolding replace_value find_value
find_value-append k v j [] h = ground arith
find_value-append k v j ((i, w) ∷ es) h = elim (Option-cases (replace_value k v es)) [
  | inl e ↦
      ground (
        arith,
        e,
        bytes_eq_iff i k,
        bytes_eq_iff i j,
        bytes_eq_iff k j,
        find_value-append k v j es e,
      )
  | inr (s, e) ↦ ground (arith, e)
]

find_value-store :
    (k v j : List ℕ) (es : List (List ℕ × List ℕ))
    → find_value j (store_value k v es) ≡ (if bytes_eq k j then some v else find_value j es)
unfolding store_value
find_value-store k v j es = elim (Option-cases (replace_value k v es)) [
  | inl e ↦ rw (e, store_value) (find_value-append k v j es e)
  | inr (s, e) ↦ rw (e, store_value) (find_value-replace k v j es s e)
]

abbrev pub MetadataOutcome : Message → List ℕ → List ℕ → List ℕ → Type 0
MetadataOutcome m k v j =
    (((set_metadata m k v).1 ≡ ok tt)
      ↔ ((is_empty k ≡ false) × (has_nul k ≡ false) × (has_nul v ≡ false)))
    × (((set_metadata m k v).1 ≡ ok tt)
        → metadata_of (set_metadata m k v).0 j ≡ (if bytes_eq k j then some v else metadata_of m j))
    × (((set_metadata m k v).1 ≢ ok tt)
        → ((set_metadata m k v).1 ≡ err invalid_argument) × ((set_metadata m k v).0 ≡ m))

-- A property is accepted exactly when its key is not empty and neither key nor value has a zero
-- byte; then its key reads back its value and every other key what it read before, and otherwise
-- the message stays as it was.
pub set_metadata-MetadataOutcome : (m : Message) (k v j : List ℕ) → MetadataOutcome m k v j
unfolding set_metadata metadata_of
set_metadata-MetadataOutcome m k v j = ground (arith, find_value-store k v j m.metadata)
