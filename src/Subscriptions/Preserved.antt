-- ===== src/Subscriptions/Preserved.antt =====
-- Every change of the subscriptions keeps the index in order.
use libzmq_ru.Base.{
  ℕ, ◌+◌, ◌-◌, ◌<◌, ◌≡◌, inl, inr, ap, sym, ◌∙◌, true, false, ◌||◌, not, none, some, List, [], ◌∷◌,
  ◌++◌, length, is_empty, retain, ltb, bytes_eq, bytes_eq_iff, arith, Option-cases, Bool-cases,
}
use libzmq_ru.Base.Maps
use libzmq_ru.Base.Maps.{contains, contains-append, get-insert, get-remove, contains_key}
use libzmq_ru.Subscriptions.{
  SubscriptionState, set_first, has_length, push_length, index_prefix, insert_new, insert,
  remove_last, remove, Change, subscribes, unsubscribes, step, run,
}
use libzmq_ru.Subscriptions.Index.{
  IsIndexed, contains-retain, has_length-push, index_all-prefixes, index_all-first,
  index_all-length,
}

-- A count that changes while it stays positive.
recount :
    (s : SubscriptionState) (p : List ℕ) (n m : ℕ)
    → IsIndexed s
    → Maps.get s.exact p ≡ some n
    → 0 < m
    → IsIndexed (record s { exact = Maps.insert s.exact p m })
unfolding contains_key
recount s p n m h found pos = record {
  stored = λ q. ground (arith, h.stored q, get-insert s.exact p m q, bytes_eq_iff p q);
  counted = λ q k e. ground (arith, h.counted q k, get-insert s.exact p m q);
  empty = ground (arith, h.empty, get-insert s.exact p m [], bytes_eq_iff p []);
  firsts = h.firsts;
  lens = h.lens;
}

insert_empty :
    (s : SubscriptionState) (p : List ℕ)
    → s.has_empty ≡ contains_key s.exact []
    → (s.has_empty || is_empty p) ≡ contains_key (Maps.insert s.exact p 1) []
unfolding contains_key bytes_eq
insert_empty s [] h = ground (arith, get-insert s.exact [] 1 [])
insert_empty s (c ∷ p) h = ground (arith, get-insert s.exact (c ∷ p) 1 [])

insert_first :
    (s : SubscriptionState) (p : List ℕ) (b : ℕ) (q : List ℕ)
    → (contains s.prefixes (b ∷ q) ≡ true → s.first_bytes b ≡ true)
    → contains (s.prefixes ++ (p ∷ [])) (b ∷ q) ≡ true
    → set_first p s.first_bytes b ≡ true
unfolding set_first bytes_eq
insert_first s [] b q h e = ground (arith, contains-append s.prefixes [] (b ∷ q))
insert_first s (c ∷ p) b q h e = ground (arith, contains-append s.prefixes (c ∷ p) (b ∷ q))

insert_len :
    (s : SubscriptionState) (p q : List ℕ)
    → (contains s.prefixes q ≡ true → has_length s.lengths (length q) ≡ true)
    → contains (s.prefixes ++ (p ∷ [])) q ≡ true
    → has_length (push_length (length p) s.lengths) (length q) ≡ true
insert_len s p q h e = elim (Bool-cases (bytes_eq p q)) [
  | inl same ↦
      let lengths = ap length ((bytes_eq_iff p q).0 same) in
      ground (arith, has_length-push (length p) (length q) s.lengths)
  | inr other ↦
      ground
        (arith, has_length-push (length p) (length q) s.lengths, contains-append s.prefixes p q)
]

insert_new-IsIndexed :
    (s : SubscriptionState) (p : List ℕ)
    → IsIndexed s
    → Maps.get s.exact p ≡ none
    → IsIndexed (insert_new s p)
unfolding insert_new index_prefix contains_key
insert_new-IsIndexed s p h fresh = record {
  stored =
      λ q. ground (arith, h.stored q, get-insert s.exact p 1 q, contains-append s.prefixes p q);
  counted = λ q k e. ground (arith, h.counted q k, get-insert s.exact p 1 q);
  empty = insert_empty s p h.empty;
  firsts = λ b q e. insert_first s p b q (h.firsts b q) e;
  lens = λ q e. insert_len s p q (h.lens q) e;
}

pub insert-IsIndexed : (s : SubscriptionState) (p : List ℕ) → IsIndexed s → IsIndexed (insert s p).0
unfolding insert
insert-IsIndexed s p h = elim (Option-cases (Maps.get s.exact p)) [
  | inl e ↦ rw (e, insert) (insert_new-IsIndexed s p h e)
  | inr (n, e) ↦ rw (e, insert) (recount s p n (n + 1) h e (omega arith))
]

-- The state that the index is rebuilt from.
abbrev shrunk : SubscriptionState → List ℕ → SubscriptionState
shrunk s p = record {
  prefixes = retain (λ stored. not (bytes_eq stored p)) s.prefixes;
  exact = Maps.remove s.exact p;
  first_bytes = λ b. false;
  lengths = [];
  has_empty = contains_key (Maps.remove s.exact p) [];
}

remove_last-IsIndexed :
    (s : SubscriptionState) (p : List ℕ) → IsIndexed s → IsIndexed (remove_last s p)
unfolding remove_last contains_key
remove_last-IsIndexed s p h =
    let kept = (shrunk s p).prefixes in
    let (ps, ex, em) = index_all-prefixes (shrunk s p) kept in
    record {
      stored = λ q.
          ap (λ xs. contains xs q) ps
          ∙ ground (arith, contains-retain s.prefixes p q, h.stored q, get-remove s.exact p q)
          ∙ ap (λ m. contains_key m q) (sym ex);
      counted =
          λ q k e. ground (arith, h.counted q k, get-remove s.exact p q, ap (λ m. Maps.get m q) ex);
      empty = em ∙ ap (λ m. contains_key m []) (sym ex);
      firsts = λ b q e.
          index_all-first (shrunk s p) kept b q (ap (λ xs. contains xs (b ∷ q)) (sym ps) ∙ e);
      lens = λ q e. index_all-length (shrunk s p) kept q (ap (λ xs. contains xs q) (sym ps) ∙ e);
    }

pub remove-IsIndexed : (s : SubscriptionState) (p : List ℕ) → IsIndexed s → IsIndexed (remove s p).0
unfolding remove
remove-IsIndexed s p h = elim (Option-cases (Maps.get s.exact p)) [
  | inl e ↦ rw (e, remove) h
  | inr (n, e) ↦
      rw (e, remove)
        (elim (Bool-cases (ltb 1 n)) [
          | inl more ↦ rw more (recount s p n (n - 1) h e (ground arith))
          | inr last ↦ rw last (remove_last-IsIndexed s p h)
        ])
]

pub step-IsIndexed : (s : SubscriptionState) (c : Change) → IsIndexed s → IsIndexed (step s c)
unfolding step
step-IsIndexed s (subscribes p) h = insert-IsIndexed s p h
step-IsIndexed s (unsubscribes p) h = remove-IsIndexed s p h

pub run-IsIndexed : (s : SubscriptionState) (cs : List Change) → IsIndexed s → IsIndexed (run s cs)
unfolding run
run-IsIndexed s [] h = h
run-IsIndexed s (c ∷ cs) h = run-IsIndexed (step s c) cs (step-IsIndexed s c h)
