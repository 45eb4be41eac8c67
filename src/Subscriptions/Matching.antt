-- ===== src/Subscriptions/Matching.antt =====
-- The fast test for a matching subscription agrees with its specification.
use libzmq_ru.Base.{
  ℕ, zero, suc, ◌≤◌, ◌<◌, ◌≡◌, ◌↔◌, inl, inr, sym, ◌∙◌, true, ◌&&◌, List, [], ◌∷◌, length, take,
  any, leb, ◌==◌, arith, Option-cases, Bool-cases, length-take,
}
use libzmq_ru.Base.Maps
use libzmq_ru.Base.Maps.{contains, contains_key}
use libzmq_ru.Subscriptions.{
  SubscriptionState, default_state, has_length, matches_prefix_of, count_of, run, Change,
}
use libzmq_ru.Subscriptions.Index.{IsIndexed, default-IsIndexed}
use libzmq_ru.Subscriptions.Preserved.{run-IsIndexed}

-- Some prefix of the bytes is subscribed.
abbrev pub IsSubscribed : SubscriptionState → List ℕ → Type 0
IsSubscribed s bytes = (n : ℕ) × (n ≤ length bytes) × (0 < count_of s (take n bytes))

counted_key :
    (s : SubscriptionState) (p : List ℕ)
    → IsIndexed s
    → contains_key s.exact p ≡ true
    → 0 < count_of s p
unfolding contains_key count_of
counted_key s p h e = elim (Option-cases (Maps.get s.exact p)) [
  | inl missing ↦ absurd (ground (arith, missing))
  | inr (n, found) ↦ ground (arith, found, h.counted p n found)
]

key_counted :
    (s : SubscriptionState) (p : List ℕ) → 0 < count_of s p → contains_key s.exact p ≡ true
unfolding contains_key count_of
key_counted s p h = ground arith

any_sound :
    (ls bytes : List ℕ) (s : SubscriptionState)
    → any (λ len. leb len (length bytes) && contains_key s.exact (take len bytes)) ls ≡ true
    → (n : ℕ) × (n ≤ length bytes) × (contains_key s.exact (take n bytes) ≡ true)
unfolding any
any_sound [] bytes s h = absurd (ground arith)
any_sound (n ∷ ls) bytes s h =
    elim (Bool-cases (leb n (length bytes) && contains_key s.exact (take n bytes))) [
      | inl hit ↦ (n, ground arith, ground arith)
      | inr miss ↦ any_sound ls bytes s (ground arith)
    ]

any_complete :
    (ls bytes : List ℕ) (s : SubscriptionState) (n : ℕ)
    → n ≤ length bytes
    → contains_key s.exact (take n bytes) ≡ true
    → has_length ls n ≡ true
    → any (λ len. leb len (length bytes) && contains_key s.exact (take len bytes)) ls ≡ true
unfolding any has_length
any_complete [] bytes s n small key h = h
any_complete (l ∷ ls) bytes s n small key h = elim (Bool-cases (l == n)) [
  | inl e ↦ let same : l ≡ n = ground arith in rw same (ground arith)
  | inr e ↦ ground (arith, any_complete ls bytes s n small key)
]

matches_sound :
    (s : SubscriptionState) (bytes : List ℕ)
    → IsIndexed s
    → matches_prefix_of s bytes ≡ true
    → IsSubscribed s bytes
unfolding matches_prefix_of
matches_sound s bytes h e = elim (Bool-cases s.has_empty) [
  | inl empty ↦ (0, omega arith, counted_key s [] h (sym h.empty ∙ empty))
  | inr plain ↦
      let (n, small, key) = any_sound s.lengths bytes s (ground arith) in
      (n, small, counted_key s (take n bytes) h key)
]

matches_complete :
    (s : SubscriptionState) (bytes : List ℕ) (n : ℕ)
    → IsIndexed s
    → n ≤ length bytes
    → 0 < count_of s (take n bytes)
    → matches_prefix_of s bytes ≡ true
unfolding matches_prefix_of
matches_complete s bytes zero h small pos =
    let empty = h.empty ∙ key_counted s [] pos in ground arith
matches_complete s [] (suc n) h small pos = absurd (omega arith)
matches_complete s (b ∷ rest) (suc n) h small pos =
    let key = key_counted s (b ∷ take n rest) pos in
    let stored = h.stored (b ∷ take n rest) ∙ key in
    let first = h.firsts b (take n rest) stored in
    let exact_length : suc (length (take n rest)) ≡ suc n = omega (arith, length-take n rest) in
    let known = rw exact_length at (h.lens (b ∷ take n rest) stored) in
    ground (arith, any_complete s.lengths (b ∷ rest) s (suc n) small key known)

-- After any subscriptions and unsubscriptions from the empty state, a message matches exactly when
-- some prefix of it is subscribed at least once: the flags of first bytes and the list of known
-- lengths never hide a match.
pub matches-IsSubscribed :
    (cs : List Change) (bytes : List ℕ)
    → (matches_prefix_of (run default_state cs) bytes ≡ true)
      ↔ IsSubscribed (run default_state cs) bytes
matches-IsSubscribed cs bytes =
    let h = run-IsIndexed default_state cs default-IsIndexed in
    (
      matches_sound (run default_state cs) bytes h,
      λ (n, small, pos). matches_complete (run default_state cs) bytes n h small pos,
    )
