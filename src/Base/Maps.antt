-- ===== src/Base/Maps.antt =====
-- A hash map with byte strings for keys, as an association list. The program never observes the
-- order of a map's entries but where it says so.
use Prim.Native.Nat.{ℕ}
use mathlib.Core.Path.{◌≡◌, refl}
use mathlib.Core.Bool.{Bool, true, false, ◌||◌}
use mathlib.Core.List.{List, [], ◌∷◌, ◌++◌}
use mathlib.Core.Option.{Option, none, some}
use native.Mathlib.Omega.{arith}
use libzmq_ru.Base.Tests.{bytes_eq, bytes_eq_iff, if◌then◌else◌}

-- `contains` on a list of byte strings.
unfoldable pub contains : List (List ℕ) → List ℕ → Bool
contains [] k = false
contains (x ∷ xs) k = bytes_eq x k || contains xs k

pub contains-append :
    (xs : List (List ℕ)) (x k : List ℕ)
    → contains (xs ++ (x ∷ [])) k ≡ (contains xs k || bytes_eq x k)
unfolding contains
contains-append [] x k = ground arith
contains-append (y ∷ xs) x k = ground (arith, contains-append xs x k)

abbrev pub Assoc {ℓ} : Type ℓ → Type ℓ
Assoc V = List (List ℕ × V)

module _ {ℓ} {V : Type ℓ} where
  unfoldable pub get : Assoc V → List ℕ → Option V
  get [] k = none
  get ((j, v) ∷ m) k = if bytes_eq j k then some v else get m k

  unfoldable pub contains_key : Assoc V → List ℕ → Bool
  unfolding get
  contains_key m k = elim (get m k) [ none ↦ false | some _ ↦ true ]

  unfoldable pub insert : Assoc V → List ℕ → V → Assoc V
  insert [] k v = (k, v) ∷ []
  insert ((j, w) ∷ m) k v = if bytes_eq j k then (j, v) ∷ m else (j, w) ∷ insert m k v

  unfoldable pub remove : Assoc V → List ℕ → Assoc V
  remove [] k = []
  remove ((j, v) ∷ m) k = let rest = remove m k in if bytes_eq j k then rest else (j, v) ∷ rest

  pub get-insert :
      (m : Assoc V) (k : List ℕ) (v : V) (j : List ℕ)
      → get (insert m k v) j ≡ (if bytes_eq k j then some v else get m j)
  unfolding get insert
  get-insert [] k v j = refl
  get-insert ((i, w) ∷ m) k v j =
      ground (arith, bytes_eq_iff i k, bytes_eq_iff i j, bytes_eq_iff k j, get-insert m k v j)

  pub get-remove :
      (m : Assoc V) (k j : List ℕ) → get (remove m k) j ≡ (if bytes_eq k j then none else get m j)
  unfolding get remove
  get-remove [] k j = ground arith
  get-remove ((i, w) ∷ m) k j =
      ground (arith, bytes_eq_iff i k, bytes_eq_iff i j, bytes_eq_iff k j, get-remove m k j)
