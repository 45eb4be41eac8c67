-- ===== src/Z85/Keys.antt =====
-- The CURVE keys of crates/libzmq-core/src/security.rs, printed in Z85.
use libzmq_ru.Base.{ℕ, ◌≡◌, List, length, All, some, arith}
use libzmq_ru.Base.Wire.{IsByte}
use libzmq_ru.Error.{ok}
use libzmq_ru.Z85.{curve_keypair, curve_public}
use libzmq_ru.Z85.RoundTrip.{z85_decode-z85_encode}

module _ (curve_public_bytes : List ℕ → List ℕ) where
  -- Whatever the curve computes, the public key that is derived from the printed secret key of a
  -- new pair of 32 random bytes is the public key of the pair.
  pub curve_public-curve_keypair :
      (secret public text : List ℕ)
      → All IsByte secret
      → length secret ≡ 32
      → curve_keypair curve_public_bytes (some secret) ≡ ok (public, text)
      → curve_public curve_public_bytes text ≡ ok public
  unfolding curve_keypair curve_public
  curve_public-curve_keypair secret public text h n k =
      let (encoded, enc, dec, size) = z85_decode-z85_encode secret h (omega arith) in
      ground (arith, enc, dec)
