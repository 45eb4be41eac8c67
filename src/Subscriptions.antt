-- ===== src/Subscriptions.antt =====
-- `SubscriptionState` of crates/libzmq-core/src/context.rs: the counted prefixes of a subscriber
-- with an index that refuses most messages fast. The array of 256 flags, which a byte indexes, is
-- a function of the byte. Counts are numbers, since no `usize` is reached by counting.
pub mod Counts
pub mod Presence
pub mod Index
pub mod Preserved
pub mod Matching
mod Examples
use libzmq_ru.Base.{
  ℕ, suc, ◌+◌, ◌-◌, Bool, true, false, ◌&&◌, ◌||◌, not, Option, none, some, List, [], ◌∷◌, ◌++◌,
  length, is_empty, take, any, retain, ltb, leb, ◌==◌, bytes_eq, if◌then◌else◌,
}
use libzmq_ru.Base.Maps
use libzmq_ru.Base.Maps.{Assoc}

pub record SubscriptionState : Type 0 where
  pub prefixes : List (List ℕ)
  pub exact : Assoc ℕ
  pub first_bytes : ℕ → Bool
  pub lengths : List ℕ
  pub has_empty : Bool

unfoldable pub default_state : SubscriptionState
default_state = record {
  prefixes = [];
  exact = [];
  first_bytes = λ b. false;
  lengths = [];
  has_empty = false;
}

-- `first_bytes[first] = true` for the first byte of the prefix, if there is one.
set_first : List ℕ → (ℕ → Bool) → ℕ → Bool
set_first [] flags b = flags b
set_first (first ∷ rest) flags b = if b == first then true else flags b

pub has_length : List ℕ → ℕ → Bool
unfolding any
has_length ls n = any (λ len. len == n) ls

pub push_length : ℕ → List ℕ → List ℕ
push_length n ls = if has_length ls n then ls else ls ++ (n ∷ [])

pub index_prefix : SubscriptionState → List ℕ → SubscriptionState
unfolding set_first push_length
index_prefix s p = record s {
  first_bytes = set_first p s.first_bytes;
  lengths = push_length (length p) s.lengths;
}

pub index_all : SubscriptionState → List (List ℕ) → SubscriptionState
index_all s [] = s
index_all s (p ∷ ps) = index_all (index_prefix s p) ps

-- A new prefix; the counted ones are `insert`'s first case.
insert_new : SubscriptionState → List ℕ → SubscriptionState
insert_new s p =
    let counted = record s {
      exact = Maps.insert s.exact p 1;
      has_empty = s.has_empty || is_empty p;
    } in
    let indexed = index_prefix counted p in
    record indexed { prefixes = indexed.prefixes ++ (p ∷ []) }

pub insert : SubscriptionState → List ℕ → SubscriptionState × Bool
insert s p = elim (Maps.get s.exact p) [
  | some count ↦ (record s { exact = Maps.insert s.exact p (count + 1) }, false)
  | none ↦ (insert_new s p, true)
]

-- The last subscription to the prefix goes: the index is built again.
remove_last : SubscriptionState → List ℕ → SubscriptionState
remove_last s p =
    let exact = Maps.remove s.exact p in
    let prefixes = retain (λ stored. not (bytes_eq stored p)) s.prefixes in
    index_all
      (record {
        prefixes = prefixes;
        exact = exact;
        first_bytes = λ b. false;
        lengths = [];
        has_empty = Maps.contains_key exact [];
      })
      prefixes

pub remove : SubscriptionState → List ℕ → SubscriptionState × Bool
remove s p = elim (Maps.get s.exact p) [
  | some count ↦
      if ltb 1 count
      then (record s { exact = Maps.insert s.exact p (count - 1) }, false)
      else (remove_last s p, true)
  | none ↦ (s, false)
]

-- The lookup of each known length that the data has.
has_stored_prefix : SubscriptionState → List ℕ → Bool
unfolding any
has_stored_prefix s bytes =
    any (λ len. leb len (length bytes) && Maps.contains_key s.exact (take len bytes)) s.lengths

-- `data.first().is_none_or(|first| !first_bytes[first])`
lacks_first : SubscriptionState → List ℕ → Bool
lacks_first s [] = true
lacks_first s (first ∷ rest) = not (s.first_bytes first)

unfoldable pub matches_prefix_of : SubscriptionState → List ℕ → Bool
unfolding has_stored_prefix lacks_first
matches_prefix_of s bytes =
    if s.has_empty then true else if lacks_first s bytes then false else has_stored_prefix s bytes

pub count : SubscriptionState → ℕ
count s = length s.exact

unfoldable pub contains_exact : SubscriptionState → List ℕ → Bool
contains_exact s value = Maps.contains_key s.exact value

-- The specification: how often a prefix is subscribed.
abbrev count_or_zero : Option ℕ → ℕ
count_or_zero none = 0
count_or_zero (some n) = n

pub count_of : SubscriptionState → List ℕ → ℕ
count_of s p = count_or_zero (Maps.get s.exact p)

-- A call, and what a sequence of calls leaves.
pub data Change : Type 0 where
  subscribes unsubscribes : List ℕ → Change

pub step : SubscriptionState → Change → SubscriptionState
step s (subscribes p) = (insert s p).0
step s (unsubscribes p) = (remove s p).0

pub run : SubscriptionState → List Change → SubscriptionState
run s [] = s
run s (c ∷ cs) = run (step s c) cs
