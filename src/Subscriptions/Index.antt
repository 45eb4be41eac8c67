-- ===== src/Subscriptions/Index.antt =====
-- The invariant of the subscription state, which ties its index to the counted prefixes.
use libzmq_ru.Base.{
  ℕ, ◌<◌, ◌≡◌, inl, inr, refl, ap, true, ◌&&◌, ◌||◌, not, some, List, [], ◌∷◌, ◌++◌, length, any,
  retain, ◌==◌, bytes_eq, bytes_eq_iff, arith, Bool-cases,
}
use libzmq_ru.Base.Maps
use libzmq_ru.Base.Maps.{contains, contains-append, get-insert, get-remove, contains_key}
use libzmq_ru.Subscriptions.{
  default_state, SubscriptionState, set_first, has_length, push_length, index_prefix, index_all,
}

-- Each stored prefix is counted and found by the index, and only such prefixes are counted.
pub record IsIndexed (s : SubscriptionState) : Type 0 where
  pub stored : (p : List ℕ) → contains s.prefixes p ≡ contains_key s.exact p
  pub counted : (p : List ℕ) (n : ℕ) → Maps.get s.exact p ≡ some n → 0 < n
  pub empty : s.has_empty ≡ contains_key s.exact []
  pub firsts : (b : ℕ) (p : List ℕ) → contains s.prefixes (b ∷ p) ≡ true → s.first_bytes b ≡ true
  pub lens : (p : List ℕ) → contains s.prefixes p ≡ true → has_length s.lengths (length p) ≡ true

pub contains-retain :
    (ps : List (List ℕ)) (p q : List ℕ)
    → contains (retain (λ stored. not (bytes_eq stored p)) ps) q
      ≡ (contains ps q && not (bytes_eq p q))
unfolding contains retain
contains-retain [] p q = refl
contains-retain (x ∷ ps) p q =
    ground (arith, contains-retain ps p q, bytes_eq_iff x p, bytes_eq_iff x q, bytes_eq_iff p q)

has_length-append :
    (ls : List ℕ) (n m : ℕ) → has_length (ls ++ (n ∷ [])) m ≡ (has_length ls m || (n == m))
unfolding has_length any
has_length-append [] n m = ground arith
has_length-append (l ∷ ls) n m = ground (arith, has_length-append ls n m)

pub has_length-push :
    (n m : ℕ) (ls : List ℕ) → has_length (push_length n ls) m ≡ (has_length ls m || (n == m))
unfolding push_length
has_length-push n m ls = elim (Bool-cases (n == m)) [
  | inl e ↦
      let same : n ≡ m = ground arith in rw (← same) (ground (arith, has_length-append ls n n))
  | inr e ↦ ground (arith, has_length-append ls n m)
]

pub index_all-prefixes :
    (s : SubscriptionState) (ps : List (List ℕ))
    → ((index_all s ps).prefixes ≡ s.prefixes)
      × ((index_all s ps).exact ≡ s.exact)
      × ((index_all s ps).has_empty ≡ s.has_empty)
unfolding index_all index_prefix
index_all-prefixes s [] = (refl, refl, refl)
index_all-prefixes s (p ∷ ps) = index_all-prefixes (index_prefix s p) ps

index_all-first_keeps :
    (s : SubscriptionState) (ps : List (List ℕ)) (b : ℕ)
    → s.first_bytes b ≡ true
    → (index_all s ps).first_bytes b ≡ true
unfolding index_all index_prefix set_first
index_all-first_keeps s [] b h = h
index_all-first_keeps s ([] ∷ ps) b h = index_all-first_keeps (index_prefix s []) ps b h
index_all-first_keeps s ((c ∷ p) ∷ ps) b h =
    index_all-first_keeps (index_prefix s (c ∷ p)) ps b (ground arith)

pub index_all-first :
    (s : SubscriptionState) (ps : List (List ℕ)) (b : ℕ) (p : List ℕ)
    → contains ps (b ∷ p) ≡ true
    → (index_all s ps).first_bytes b ≡ true
unfolding index_all index_prefix set_first contains
index_all-first s [] b p h = cc
index_all-first s (q ∷ ps) b p h = elim (Bool-cases (bytes_eq q (b ∷ p))) [
  | inl e ↦
      let same = (bytes_eq_iff q (b ∷ p)).0 e in
      index_all-first_keeps (index_prefix s q) ps b (rw (same, index_prefix) (ground arith))
  | inr e ↦ index_all-first (index_prefix s q) ps b p (ground arith)
]

index_all-length_keeps :
    (s : SubscriptionState) (ps : List (List ℕ)) (n : ℕ)
    → has_length s.lengths n ≡ true
    → has_length (index_all s ps).lengths n ≡ true
unfolding index_all index_prefix
index_all-length_keeps s [] n h = h
index_all-length_keeps s (p ∷ ps) n h =
    index_all-length_keeps (index_prefix s p) ps n
      (ground (arith, has_length-push (length p) n s.lengths))

pub index_all-length :
    (s : SubscriptionState) (ps : List (List ℕ)) (p : List ℕ)
    → contains ps p ≡ true
    → has_length (index_all s ps).lengths (length p) ≡ true
unfolding index_all index_prefix contains
index_all-length s [] p h = cc
index_all-length s (q ∷ ps) p h = elim (Bool-cases (bytes_eq q p)) [
  | inl e ↦
      let same = ap length ((bytes_eq_iff q p).0 e) in
      index_all-length_keeps (index_prefix s q) ps (length p)
        (ground (arith, has_length-push (length q) (length p) s.lengths))
  | inr e ↦ index_all-length (index_prefix s q) ps p (ground arith)
]

pub default-IsIndexed : IsIndexed default_state
unfolding default_state contains contains_key
default-IsIndexed = record {
  stored = λ p. refl;
  counted = λ p n h. cc;
  empty = refl;
  firsts = λ b p h. cc;
  lens = λ p h. cc;
}
