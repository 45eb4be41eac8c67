-- ===== src/Base/Wire.antt =====
-- Machine integers on the wire: `to_be_bytes` and `from_be_bytes`, for any number of bytes.
use Prim.Native.Nat.{◌≤◌, ℕ, zero, suc, ◌+◌, ◌*◌, ◌/◌, ◌%◌, ◌^◌, ◌<◌}
use mathlib.Core.Path.{ap, ◌≡◌, refl}
use mathlib.Core.List.{List, [], ◌∷◌, ◌++◌}
use native.Mathlib.Nat.{pow-suc, mul-le-mul_right}
use native.Mathlib.Omega.{arith}
use libzmq_ru.Base.Lists.{take, All, length, length-append}

-- The low `n` bytes of a number, the high one first.
unfoldable pub to_be_bytes : ℕ → ℕ → List ℕ
to_be_bytes zero v = []
to_be_bytes (suc n) v = to_be_bytes n (v / 256) ++ (v % 256 ∷ [])

from_be : ℕ → List ℕ → ℕ
from_be acc [] = acc
from_be acc (b ∷ bs) = from_be (acc * 256 + b) bs

unfoldable pub from_be_bytes : List ℕ → ℕ
unfolding from_be
from_be_bytes bs = from_be 0 bs

from_be-append :
    (acc : ℕ) (bs : List ℕ) (b : ℕ) → from_be acc (bs ++ (b ∷ [])) ≡ from_be acc bs * 256 + b
unfolding from_be
from_be-append acc [] b = refl
from_be-append acc (c ∷ bs) b = from_be-append (acc * 256 + c) bs b

pub length-to_be_bytes : (n v : ℕ) → length (to_be_bytes n v) ≡ n
unfolding to_be_bytes
length-to_be_bytes zero v = refl
length-to_be_bytes (suc n) v =
    omega (
      arith,
      length-append (to_be_bytes n (v / 256)) (v % 256 ∷ []),
      length-to_be_bytes n (v / 256),
    )

pub from_be_bytes-to_be_bytes : (n v : ℕ) → v < 256 ^ n → from_be_bytes (to_be_bytes n v) ≡ v
unfolding to_be_bytes from_be_bytes
from_be_bytes-to_be_bytes zero v h = omega arith
from_be_bytes-to_be_bytes (suc n) v h =
    let high = from_be_bytes-to_be_bytes n (v / 256) (omega (arith, pow-suc 256 n)) in
    omega (arith, from_be-append 0 (to_be_bytes n (v / 256)) (v % 256), high)

abbrev pub IsByte : ℕ → Type 0
IsByte b = b < 256

from_be-lt : (acc : ℕ) (bs : List ℕ) → All IsByte bs → from_be acc bs < (acc + 1) * 256 ^ length bs
unfolding from_be
from_be-lt acc [] h = omega arith
from_be-lt acc (b ∷ bs) h =
    let p = 256 ^ length bs in
    let bound : (acc * 256 + b + 1) * p ≤ (acc + 1) * 256 * p =
      mul-le-mul_right p (omega (arith, h.0)) in
    let scaled : (acc + 1) * 256 ^ suc (length bs) ≡ (acc + 1) * (p * 256) =
      ap (λ (t : ℕ). (acc + 1) * t) (pow-suc 256 (length bs)) in
    omega (arith, from_be-lt (acc * 256 + b) bs h.1, scaled, bound)

pub from_be_bytes-lt : (bs : List ℕ) → All IsByte bs → from_be_bytes bs < 256 ^ length bs
unfolding from_be_bytes
from_be_bytes-lt bs h = omega (arith, from_be-lt 0 bs h)

pub take-IsByte : (n : ℕ) (bs : List ℕ) → All IsByte bs → All IsByte (take n bs)
take-IsByte zero bs h = tt
take-IsByte (suc n) [] h = tt
take-IsByte (suc n) (b ∷ bs) h = (h.0, take-IsByte n bs h.1)
