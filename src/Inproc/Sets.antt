-- ===== src/Inproc/Sets.antt =====
-- The sets of peer ids (`HashSet<usize>` of context.rs) under insertion and removal.
use libzmq_ru.Base.{
  ℕ, ◌≡◌, refl, true, false, not, ◌&&◌, ◌||◌, List, [], ◌∷◌, ◌++◌, ◌==◌, any, is_empty, arith,
}
use libzmq_ru.Inproc.{set_contains, set_insert, set_remove}

set_contains-append :
    (s : List ℕ) (x k : ℕ) → set_contains (s ++ (x ∷ [])) k ≡ (x == k || set_contains s k)
unfolding set_contains any
set_contains-append [] x k = ground arith
set_contains-append (y ∷ s) x k = ground (arith, set_contains-append s x k)

pub set_contains-insert :
    (s : List ℕ) (x k : ℕ) → set_contains (set_insert s x) k ≡ (x == k || set_contains s k)
unfolding set_insert
set_contains-insert s x k = ground (arith, set_contains-append s x k)

pub set_contains-remove :
    (s : List ℕ) (x k : ℕ) → set_contains (set_remove s x) k ≡ (not (x == k) && set_contains s k)
unfolding set_contains set_remove
set_contains-remove [] x k = ground arith
set_contains-remove (y ∷ s) x k = ground (arith, set_contains-remove s x k)

pub empty_contains : (s : List ℕ) (x : ℕ) → is_empty s ≡ true → set_contains s x ≡ false
unfolding set_contains any
empty_contains [] x h = refl
empty_contains (y ∷ s) x h = cc
