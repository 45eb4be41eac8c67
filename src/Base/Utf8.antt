-- ===== src/Base/Utf8.antt =====
-- `std::str::from_utf8`: a Rust string is its bytes, which form valid UTF-8.
use Prim.Native.Nat.{ℕ, zero, suc}
use mathlib.Core.Path.{◌≡◌, refl}
use mathlib.Core.Bool.{Bool, true, false, ◌&&◌}
use mathlib.Core.List.{List, [], ◌∷◌}
use mathlib.Core.Option.{Option, none, some}
use native.Mathlib.Omega.{arith}
use Prim.Native.Nat.{◌<◌}
use libzmq_ru.Base.Lists.{All}
use libzmq_ru.Base.Tests.{leb, ltb, ◌==◌, if◌then◌else◌}

-- `need` continuation bytes are due, and the next of them lies from `lo` to `hi`.
pub record Utf8State : Type 0 where
  need : ℕ
  lo : ℕ
  hi : ℕ

due : ℕ → ℕ → ℕ → Option Utf8State
due need lo hi = some (record { need = need; lo = lo; hi = hi })

between : ℕ → ℕ → ℕ → Bool
between lo hi b = leb lo b && leb b hi

lead : ℕ → Option Utf8State
unfolding due between
lead b =
    if ltb b 0x80
    then due 0 0x80 0xbf
    else if between 0xc2 0xdf b
    then due 1 0x80 0xbf
    else if b == 0xe0
    then due 2 0xa0 0xbf
    else if b == 0xed
    then due 2 0x80 0x9f
    else if between 0xe1 0xef b
    then due 2 0x80 0xbf
    else if b == 0xf0
    then due 3 0x90 0xbf
    else if between 0xf1 0xf3 b
    then due 3 0x80 0xbf
    else if b == 0xf4
    then due 3 0x80 0x8f
    else none

continue : ℕ → ℕ → ℕ → ℕ → Option Utf8State
unfolding lead
continue zero lo hi b = lead b
continue (suc n) lo hi b = if between lo hi b then due n 0x80 0xbf else none

scan : Utf8State → List ℕ → Bool
unfolding continue
scan s [] = s.need == 0
scan s (b ∷ rest) = elim (continue s.need s.lo s.hi b) [ none ↦ false | some t ↦ scan t rest ]

unfoldable pub is_utf8 : List ℕ → Bool
unfolding scan
is_utf8 = scan (record { need = 0; lo = 0x80; hi = 0xbf })

euro_sign : is_utf8 (0xe2 ∷ 0x82 ∷ 0xac ∷ []) ≡ true
unfolding is_utf8
euro_sign = refl

overlong : is_utf8 (0xc0 ∷ 0x80 ∷ []) ≡ false
unfolding is_utf8
overlong = refl

-- ASCII text is valid.
ascii_scan :
    (bs : List ℕ)
    → All (λ b. b < 128) bs
    → scan (record { need = 0; lo = 0x80; hi = 0xbf }) bs ≡ true
unfolding scan continue lead due
ascii_scan [] h = refl
ascii_scan (b ∷ bs) h = ground (arith, h.0, ascii_scan bs h.1)

pub ascii-is_utf8 : (bs : List ℕ) → All (λ b. b < 128) bs → is_utf8 bs ≡ true
unfolding is_utf8
ascii-is_utf8 bs h = ascii_scan bs h
