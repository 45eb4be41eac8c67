-- ===== src/Subscriptions/Counts.antt =====
-- What a subscriber state counts: a multiset of prefixes.
use libzmq_ru.Base.{
  ℕ, ◌+◌, ◌-◌, ◌≡◌, inl, inr, ap, ◌∙◌, none, List, ◌==◌, bytes_eq, bytes_eq_iff, if◌then◌else◌,
  arith, Option-cases,
}
use libzmq_ru.Base.Maps
use libzmq_ru.Base.Maps.{get-insert, get-remove}
use libzmq_ru.Subscriptions.{
  SubscriptionState, index_prefix, insert_new, insert, remove_last, remove, count_of,
}
use libzmq_ru.Subscriptions.Index.{IsIndexed, index_all-prefixes}

abbrev pub InsertOutcome : SubscriptionState → List ℕ → List ℕ → Type 0
InsertOutcome s p q =
    (count_of (insert s p).0 q ≡ (if bytes_eq p q then count_of s q + 1 else count_of s q))
    × ((insert s p).1 ≡ (count_of s p == 0))

-- A subscription adds one to the count of its prefix and leaves every other count; it reports a
-- new prefix exactly when the prefix was not subscribed. The state has a positive count for each
-- prefix that it stores.
pub insert_outcome : (s : SubscriptionState) (p q : List ℕ) → IsIndexed s → InsertOutcome s p q
unfolding insert insert_new index_prefix count_of
insert_outcome s p q h = elim (Option-cases (Maps.get s.exact p)) [
  | inl e ↦ ground (arith, e, get-insert s.exact p 1 q, bytes_eq_iff p q)
  | inr (n, e) ↦
      ground (arith, e, h.counted p n e, get-insert s.exact p (n + 1) q, bytes_eq_iff p q)
]

abbrev pub RemoveOutcome : SubscriptionState → List ℕ → List ℕ → Type 0
RemoveOutcome s p q =
    (count_of (remove s p).0 q ≡ (if bytes_eq p q then count_of s q - 1 else count_of s q))
    × ((remove s p).1 ≡ (count_of s p == 1))

get-remove_last :
    (s : SubscriptionState) (p q : List ℕ)
    → Maps.get (remove_last s p).exact q ≡ (if bytes_eq p q then none else Maps.get s.exact q)
unfolding remove_last
get-remove_last s p q = ap (λ m. Maps.get m q) (index_all-prefixes _ _).1 ∙ get-remove s.exact p q

-- An unsubscription takes one from the count of its prefix, if there is one, and leaves every
-- other count; it reports that the prefix is gone exactly when it was subscribed once.
pub remove_outcome : (s : SubscriptionState) (p q : List ℕ) → IsIndexed s → RemoveOutcome s p q
unfolding remove count_of
remove_outcome s p q h = elim (Option-cases (Maps.get s.exact p)) [
  | inl e ↦ ground (arith, e, bytes_eq_iff p q)
  | inr (n, e) ↦ ground (
    arith,
    e,
    h.counted p n e,
    get-insert s.exact p (n - 1) q,
    get-remove_last s p q,
    bytes_eq_iff p q,
  )
]
