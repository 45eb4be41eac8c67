-- ===== src/Context/Options/Decimal.antt =====
-- Numbers in decimal: `i32::to_string` of Rust's library, and `atoi_i32` of context.rs.
use libzmq_ru.Base.{
  subst, inl, inr, Bool-cases, ℕ, zero, suc, ◌+◌, ◌-◌, ◌*◌, ◌/◌, ◌%◌, ◌≤◌, ◌<◌, ◌≡◌, refl, ap, sym,
  ◌∙◌, Bool, true, ◌&&◌, ◌||◌, List, [], ◌∷◌, ◌++◌, All, min, leb, ltb, ◌==◌, if◌then◌else◌, arith,
}
use libzmq_ru.Base.Int.{ℤ, pos, negsuc}

-- The digits of a number with as many as `fuel` digits more than one.
unfoldable pub digits : ℕ → ℕ → List ℕ
digits zero n = (48 + n) ∷ []
digits (suc fuel) n =
    let rest = digits fuel (n / 10) in
    if ltb n 10 then (48 + n) ∷ [] else rest ++ ((48 + n % 10) ∷ [])

-- Nine digits more than one are enough for an `i32`.
unfoldable pub to_string : ℤ → List ℕ
unfolding digits
to_string (pos n) = digits 9 n
to_string (negsuc n) = 45 ∷ digits 9 (suc n)

abbrev pub i32_max : ℕ
i32_max = 2147483647

is_space : ℕ → Bool
is_space b = b == 32 || b == 9 || b == 10 || b == 13 || b == 11 || b == 12

skip_spaces : List ℕ → List ℕ
unfolding is_space
skip_spaces [] = []
skip_spaces (b ∷ bs) = let rest = skip_spaces bs in if is_space b then rest else b ∷ bs

is_ascii_digit : ℕ → Bool
is_ascii_digit b = leb 48 b && leb b 57

-- `value.saturating_mul(10).saturating_add(digit)` on numbers that are not negative.
abbrev push_decimal : ℕ → ℕ → ℕ
push_decimal value b = min i32_max (min i32_max (value * 10) + (b - 48))

-- The loop over the digits, up to the first byte that is none.
read_digits : List ℕ → ℕ → ℕ
unfolding is_ascii_digit
read_digits [] value = value
read_digits (b ∷ bs) value =
    let rest = read_digits bs (push_decimal value b) in if is_ascii_digit b then rest else value

-- `value.saturating_mul(-1)` for a value that is not negative.
abbrev negated : ℕ → ℤ
negated zero = pos 0
negated (suc n) = negsuc n

-- The sign and what follows it.
read_signed : List ℕ → ℤ
unfolding read_digits
read_signed [] = pos 0
read_signed (b ∷ bs) =
    if b == 45
    then negated (read_digits bs 0)
    else if b == 43
    then pos (read_digits bs 0)
    else pos (read_digits (b ∷ bs) 0)

unfoldable pub atoi_i32 : List ℕ → ℤ
unfolding skip_spaces read_signed
atoi_i32 bytes = read_signed (skip_spaces bytes)

read_digits-append :
    (xs : List ℕ) (d value : ℕ)
    → All (λ b. is_ascii_digit b ≡ true) xs
    → is_ascii_digit d ≡ true
    → read_digits (xs ++ (d ∷ [])) value ≡ push_decimal (read_digits xs value) d
unfolding read_digits
read_digits-append [] d value all last = ground (arith, last)
read_digits-append (b ∷ xs) d value all last =
    ground (arith, read_digits-append xs d (push_decimal value b) all.1 last, all.0)

All-append :
    (xs : List ℕ) (d : ℕ)
    → All (λ b. is_ascii_digit b ≡ true) xs
    → is_ascii_digit d ≡ true
    → All (λ b. is_ascii_digit b ≡ true) (xs ++ (d ∷ []))
All-append [] d all last = (last, tt)
All-append (b ∷ xs) d all last = (all.0, All-append xs d all.1 last)

-- The numbers that a count of digits can write.
abbrev bound : ℕ → ℕ
bound zero = 10
bound (suc fuel) = 10 * bound fuel

digits-All : (fuel n : ℕ) → n < bound fuel → All (λ b. is_ascii_digit b ≡ true) (digits fuel n)
unfolding digits is_ascii_digit
digits-All zero n h = (ground arith, tt)
digits-All (suc fuel) n h = elim (Bool-cases (ltb n 10)) [
  | inl small ↦ rw small (ground arith, tt)
  | inr large ↦ rw large (
      All-append (digits fuel (n / 10)) (48 + n % 10) (digits-All fuel (n / 10) (omega arith))
        (ground arith))
]

read_digits-digits : (fuel n : ℕ) → n < bound fuel → n ≤ i32_max → read_digits (digits fuel n) 0 ≡ n
unfolding digits read_digits is_ascii_digit
read_digits-digits zero n h small = ground arith
read_digits-digits (suc fuel) n h small = elim (Bool-cases (ltb n 10)) [
  | inl one ↦ rw one (ground arith)
  | inr many ↦
      let higher = read_digits-digits fuel (n / 10) (omega arith) (omega arith) in
      let last =
        read_digits-append (digits fuel (n / 10)) (48 + n % 10) 0
          (digits-All fuel (n / 10) (omega arith)) (ground arith) in
      rw many (last ∙ ap (λ v. push_decimal v (48 + n % 10)) higher ∙ omega arith)
]

-- A digit is neither a space nor a sign.
read_signed-digits :
    (bs : List ℕ)
    → All (λ b. is_ascii_digit b ≡ true) bs
    → read_signed (skip_spaces bs) ≡ pos (read_digits bs 0)
unfolding read_signed skip_spaces is_space is_ascii_digit read_digits
read_signed-digits [] all = refl
read_signed-digits (b ∷ bs) all = ground (arith, all.0)

read_saturated : (n : ℕ) → n ≡ i32_max + 1 → read_digits (digits 9 n) 0 ≡ i32_max
unfolding digits read_digits is_ascii_digit
read_saturated n same = subst (λ k. read_digits (digits 9 k) 0 ≡ i32_max) (sym same) refl

-- A number of 32 bits reads back from its decimal digits as itself, but the least, which reads
-- back as the least but one: the digits are read before the sign, and stop at the greatest.
abbrev pub read_back : ℤ → ℤ
read_back (pos n) = pos n
read_back (negsuc n) = if n == i32_max then negsuc (n - 1) else negsuc n

abbrev pub in_i32 : ℤ → Bool
in_i32 (pos n) = leb n i32_max
in_i32 (negsuc n) = leb n i32_max

after_sign :
    (n m : ℕ) → read_digits (digits 9 (suc n)) 0 ≡ m → atoi_i32 (to_string (negsuc n)) ≡ negated m
unfolding atoi_i32 to_string skip_spaces is_space read_signed
after_sign n m h = ap negated h

no_sign : (n : ℕ) → n < bound 9 → atoi_i32 (to_string (pos n)) ≡ pos (read_digits (digits 9 n) 0)
unfolding atoi_i32 to_string
no_sign n h = read_signed-digits (digits 9 n) (digits-All 9 n h)

less_one : (n : ℕ) → n ≡ i32_max → negsuc (n - 1) ≡ negated i32_max
less_one n same = subst (λ k. negsuc (k - 1) ≡ negated i32_max) (sym same) refl

pub atoi_i32-to_string : (v : ℤ) → in_i32 v ≡ true → atoi_i32 (to_string v) ≡ read_back v
atoi_i32-to_string (pos n) h =
    no_sign n (ground arith) ∙ ap pos (read_digits-digits 9 n (ground arith) (ground arith))
atoi_i32-to_string (negsuc n) h = elim (Bool-cases (n == i32_max)) [
  | inl least ↦
      let same : n ≡ i32_max = ground arith in
      rw least (
        after_sign n i32_max (read_saturated (suc n) (omega (arith, same))) ∙ sym (less_one n same))
  | inr other ↦
      rw other (after_sign n (suc n) (read_digits-digits 9 (suc n) (ground arith) (ground arith)))
]
