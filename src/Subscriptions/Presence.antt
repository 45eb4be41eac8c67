-- ===== src/Subscriptions/Presence.antt =====
-- Which prefixes stand in a subscription set after a call, and what the call returns.
use libzmq_ru.Base.{
  ℕ, ◌+◌, ◌-◌, inl, inr, Option-cases, ℕ, ◌≡◌, ap, Bool, false, not, ◌&&◌, ◌||◌, List,
  if◌then◌else◌, arith, bytes_eq, bytes_eq_iff,
}
use libzmq_ru.Base.Maps
use libzmq_ru.Base.Maps.{Assoc, get-insert, get-remove}
use libzmq_ru.Subscriptions.Index.{index_all-prefixes}
use libzmq_ru.Subscriptions.{
  SubscriptionState, insert, insert_new, remove, remove_last, index_prefix,
}

-- Whether a set has a prefix.
abbrev pub has_prefix : SubscriptionState → List ℕ → Bool
has_prefix s q = Maps.contains_key s.exact q

remove_last-exact :
    (s : SubscriptionState) (p : List ℕ) → (remove_last s p).exact ≡ Maps.remove s.exact p
unfolding remove_last
remove_last-exact s p = (index_all-prefixes _ _).1

pub insert-has_prefix :
    (s : SubscriptionState) (p q : List ℕ)
    → ((insert s p).1 ≡ not (has_prefix s p))
      × (has_prefix (insert s p).0 q ≡ (bytes_eq p q || has_prefix s q))
unfolding insert insert_new index_prefix Maps.contains_key
insert-has_prefix s p q = elim (Option-cases (Maps.get s.exact p)) [
  | inl missing ↦ ground (arith, missing, get-insert s.exact p 1 q, bytes_eq_iff p q)
  | inr (n, found) ↦ ground (arith, found, get-insert s.exact p (n + 1) q, bytes_eq_iff p q)
]

pub remove-has_prefix :
    (s : SubscriptionState) (p q : List ℕ)
    → ((remove s p).1 && not (has_prefix s p) ≡ false)
      × (has_prefix (remove s p).0 q
          ≡ (if (remove s p).1 && bytes_eq p q then false else has_prefix s q))
unfolding remove Maps.contains_key
remove-has_prefix s p q = elim (Option-cases (Maps.get s.exact p)) [
  | inl missing ↦ ground (arith, missing)
  | inr (n, found) ↦ ground (
    arith,
    found,
    get-insert s.exact p (n - 1) q,
    get-remove s.exact p q,
    bytes_eq_iff p q,
    ap (λ m. Maps.get m q) (remove_last-exact s p),
  )
]
