-- ===== src/Handshake/Examples/Toy.antt =====
-- A cipher that adds the sum of the key to each byte, with a part of the nonce as its tag. A public
-- key is its secret key.
use libzmq_ru.Base.{
  ℕ, ◌+◌, ◌-◌, ◌≡◌, refl, ap, Option, none, some, List, [], ◌∷◌, ◌++◌, length, take, drop, map,
  bytes_eq, bytes_eq_refl, if◌then◌else◌, arith, length-append, length-take, length-map,
  take_prefix, drop_prefix,
}
use libzmq_ru.Handshake.Crypto.{Crypto, IsCrypto, Opens}

total : List ℕ → ℕ
total [] = 0
total (b ∷ bs) = b + total bs

-- The key of two ends: what each has of the other, added.
pub joint : List ℕ → List ℕ → List ℕ
joint [] ys = []
joint (a ∷ xs) [] = []
joint (a ∷ xs) (b ∷ ys) = (a + b) ∷ joint xs ys

joint_comm : (xs ys : List ℕ) → joint xs ys ≡ joint ys xs
unfolding joint
joint_comm [] [] = refl
joint_comm [] (b ∷ ys) = refl
joint_comm (a ∷ xs) [] = refl
joint_comm (a ∷ xs) (b ∷ ys) = let same : a + b ≡ b + a = omega arith in cc (same, joint_comm xs ys)

pub seal : (key nonce text : List ℕ) → Option (List ℕ)
unfolding total
seal key nonce text = some (take 16 nonce ++ map (λ b. b + total key) text)

pub unseal : (key nonce sealed : List ℕ) → Option (List ℕ)
unfolding total
unseal key nonce sealed =
    if bytes_eq (take 16 sealed) (take 16 nonce)
    then some (map (λ b. b - total key) (drop 16 sealed))
    else none

abbrev pub toy : Crypto
toy = record {
  public_from_secret = λ s. s;
  box_key = joint;
  box_seal = seal;
  box_open = unseal;
  secretbox_seal = seal;
  secretbox_open = unseal;
}

shifted_back : (n : ℕ) (text : List ℕ) → map (λ b. b - n) (map (λ b. b + n) text) ≡ text
shifted_back n [] = refl
shifted_back n (b ∷ bs) = let same : b + n - n ≡ b = omega arith in cc (same, shifted_back n bs)

seal-Opens : Opens seal unseal
unfolding seal unseal
seal-Opens key nonce text nonce_24 fits =
    let tag = take 16 nonce in
    let body = map (λ b. b + total key) text in
    let tag_16 : length tag ≡ 16 = omega (arith, length-take 16 nonce) in
    (
      tag ++ body,
      refl,
      omega (arith, length-append tag body, length-map (λ b. b + total key) text),
      rw (take_prefix 16 tag body tag_16, drop_prefix 16 tag body tag_16, bytes_eq_refl tag)
          (ap some (shifted_back (total key) text)),
    )

pub toy-IsCrypto : IsCrypto toy
toy-IsCrypto = record {
  length-public = λ s h. h;
  agrees = λ a b ha hb. joint_comm a b;
  box_opens = seal-Opens;
  secretbox_opens = seal-Opens;
}
