-- ===== src/Z85/Alphabet.antt =====
-- The 85 characters of Z85 and their values (crates/libzmq-core/src/security.rs).
use Prim.Native.Char.{code}
use Prim.Native.String.{String}
use libzmq_ru.Base.{
  length, ◌+◌, ◌∙◌, ap, zero, ℕ, suc, ◌<◌, ◌≡◌, refl, Bool, true, false, ◌&&◌, Option, none, some,
  List, [], ◌∷◌, get_or, ◌==◌, arith, if◌then◌else◌,
}

abbrev codes : String → List ℕ
codes String.[] = []
codes (String.◌∷◌ c s) = code c ∷ codes s

unfoldable pub z85_chars : List ℕ
z85_chars =
    codes "0123456789abcdefghijklmnopqrstuvwxyzABCDEFGHIJKLMNOPQRSTUVWXYZ.-:+=^!/*?&<>()[]{}@%$#"

position : ℕ → List ℕ → Option ℕ
position b [] = none
position b (c ∷ cs) =
    let later = position b cs in
    if c == b then some 0 else elim later [ none ↦ none | some i ↦ some (suc i) ]

unfoldable pub z85_value : ℕ → Option ℕ
unfolding position z85_chars
z85_value byte = position byte z85_chars

abbrev is_value : Option ℕ → ℕ → Bool
is_value none d = false
is_value (some e) d = e == d

-- The characters of a list have the values from `first` on.
values_from : ℕ → List ℕ → Bool
values_from first [] = true
values_from first (c ∷ cs) = is_value (z85_value c) first && values_from (suc first) cs

alphabet_values : values_from 0 z85_chars ≡ true
unfolding values_from z85_value
alphabet_values = refl

is_value_sound : (o : Option ℕ) (d : ℕ) → is_value o d ≡ true → o ≡ some d
is_value_sound none d h = cc
is_value_sound (some e) d h = ground arith

value_at :
    (first : ℕ) (cs : List ℕ) (d : ℕ)
    → values_from first cs ≡ true
    → d < length cs
    → z85_value (get_or cs d 0) ≡ some (first + d)
unfolding values_from
value_at first [] d h k = absurd (omega arith)
value_at first (c ∷ cs) zero h k = ground (arith, is_value_sound (z85_value c) first)
value_at first (c ∷ cs) (suc d) h k = ground (arith, value_at (suc first) cs d)

-- A digit's character has the digit for its value.
pub z85_value-get : (d : ℕ) → d < 85 → z85_value (get_or z85_chars d 0) ≡ some d
z85_value-get d h =
    value_at 0 z85_chars d alphabet_values (unfold z85_chars in omega arith) ∙ ap some (omega arith)

position-get :
    (b : ℕ) (cs : List ℕ) (d : ℕ) → position b cs ≡ some d → (d < length cs) × (get_or cs d 0 ≡ b)
unfolding position
position-get b [] d h = cc
position-get b (c ∷ cs) zero h = ground arith
position-get b (c ∷ cs) (suc d) h = ground (arith, position-get b cs d)

-- A character with a value is the character of that digit.
pub get-z85_value : (b d : ℕ) → z85_value b ≡ some d → (d < 85) × (get_or z85_chars d 0 ≡ b)
unfolding z85_value
get-z85_value b d h = position-get b z85_chars d h
