-- ===== src/Handshake/Crypto.antt =====
-- The cryptography that crates/libzmq-core/src/socket.rs takes from the crates crypto_box and
-- crypto_secretbox, as a parameter, and the code's calls of it (`curve_box_encrypt` and its kin).
use libzmq_ru.Base.{
  ℕ, ◌+◌, ◌<◌, ◌^◌, ◌≡◌, Option, none, some, List, ◌++◌, length, ltb, if◌then◌else◌,
}
use libzmq_ru.Base.Wire.{to_be_bytes}
use libzmq_ru.Error.{Result, ok, err, invalid_argument}

-- A sealed text is its tag of 16 bytes and the ciphertext; `none` is the error of the cipher.
-- `box_key` is what `SalsaBox::new` computes from a public key and a secret key.
pub record Crypto : Type 0 where
  pub public_from_secret : List ℕ → List ℕ
  pub box_key : (public secret : List ℕ) → List ℕ
  pub box_seal : (key nonce plaintext : List ℕ) → Option (List ℕ)
  pub box_open : (key nonce sealed : List ℕ) → Option (List ℕ)
  pub secretbox_seal : (key nonce plaintext : List ℕ) → Option (List ℕ)
  pub secretbox_open : (key nonce sealed : List ℕ) → Option (List ℕ)

-- What is sealed with a nonce of 24 bytes is opened with the same key and nonce.
abbrev pub Opens : (seal unseal : (key nonce text : List ℕ) → Option (List ℕ)) → Type 0
Opens seal unseal =
    (key nonce plaintext : List ℕ)
    → length nonce ≡ 24
    → length plaintext < 2 ^ 64
    → (sealed : List ℕ) × (seal key nonce plaintext ≡ some sealed)
      × (length sealed ≡ length plaintext + 16)
      × (unseal key nonce sealed ≡ some plaintext)

-- What the two crates document: keys have 32 bytes, both ends of a connection compute one key from
-- their secrets and each other's public keys, and what was sealed is opened.
pub record IsCrypto (c : Crypto) : Type 0 where
  pub length-public : (s : List ℕ) → length s ≡ 32 → length (c.public_from_secret s) ≡ 32
  pub agrees :
      (a b : List ℕ)
      → length a ≡ 32
      → length b ≡ 32
      → c.box_key (c.public_from_secret a) b ≡ c.box_key (c.public_from_secret b) a
  pub box_opens : Opens c.box_seal c.box_open
  pub secretbox_opens : Opens c.secretbox_seal c.secretbox_open

-- `map_err(|_| Error::InvalidArgument)`
abbrev pub or_invalid : Option (List ℕ) → Result (List ℕ)
or_invalid none = err invalid_argument
or_invalid (some bytes) = ok bytes

module _ (c : Crypto) where
  abbrev pub curve_public_from_secret : List ℕ → List ℕ
  curve_public_from_secret secret = c.public_from_secret secret

  abbrev pub curve_box_for : (peer_public local_secret : List ℕ) → List ℕ
  curve_box_for peer_public local_secret = c.box_key peer_public local_secret

  abbrev pub curve_box_encrypt :
      (plaintext nonce recipient_public sender_secret : List ℕ) → Result (List ℕ)
  curve_box_encrypt plaintext nonce recipient_public sender_secret =
      or_invalid (c.box_seal (c.box_key recipient_public sender_secret) nonce plaintext)

  abbrev pub curve_box_decrypt :
      (ciphertext nonce sender_public recipient_secret : List ℕ) → Result (List ℕ)
  curve_box_decrypt ciphertext nonce sender_public recipient_secret =
      or_invalid (c.box_open (c.box_key sender_public recipient_secret) nonce ciphertext)

  -- The tag is detached, and put in front by the caller.
  abbrev pub curve_box_encrypt_in_place : (cipher plaintext nonce : List ℕ) → Result (List ℕ)
  curve_box_encrypt_in_place cipher plaintext nonce = or_invalid (c.box_seal cipher nonce plaintext)

  abbrev pub curve_box_decrypt_in_place : (cipher ciphertext nonce : List ℕ) → Result (List ℕ)
  curve_box_decrypt_in_place cipher ciphertext nonce =
      if ltb (length ciphertext) 16
      then err invalid_argument
      else or_invalid (c.box_open cipher nonce ciphertext)

  abbrev pub curve_secretbox_encrypt : (plaintext nonce key : List ℕ) → Result (List ℕ)
  curve_secretbox_encrypt plaintext nonce key = or_invalid (c.secretbox_seal key nonce plaintext)

  abbrev pub curve_secretbox_decrypt : (ciphertext nonce key : List ℕ) → Result (List ℕ)
  curve_secretbox_decrypt ciphertext nonce key = or_invalid (c.secretbox_open key nonce ciphertext)

unfoldable pub curve_nonce : (prefix : List ℕ) (nonce : ℕ) → List ℕ
curve_nonce prefix nonce = prefix ++ to_be_bytes 8 nonce

unfoldable pub curve_long_nonce : (prefix tail : List ℕ) → List ℕ
curve_long_nonce prefix tail = prefix ++ tail
