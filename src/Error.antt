-- ===== src/Error.antt =====
-- crates/libzmq-core/src/error.rs: the error enum, its errno numbers, and Rust's `Result`.
use libzmq_ru.Constants.{
  einval, efault, enotsock, enotsup, eprotonosupport, eterm, eagain, efsm, ehostunreach, enomem,
}
use libzmq_ru.Base.{ap, sym, ◌∙◌, ℕ, List, ◌≡◌, ◌⊎◌, inl, inr, refl}

pub data Error : Type 0 where
  invalid_argument invalid_context invalid_socket not_supported protocol_not_supported : Error
  terminated again invalid_state host_unreachable out_of_memory : Error
  not_implemented : List ℕ → Error

unfoldable pub errno : Error → ℕ
errno invalid_argument = einval
errno invalid_context = efault
errno invalid_socket = enotsock
errno not_supported = enotsup
errno (not_implemented name) = enotsup
errno protocol_not_supported = eprotonosupport
errno terminated = eterm
errno again = eagain
errno invalid_state = efsm
errno host_unreachable = ehostunreach
errno out_of_memory = enomem

-- `std::result::Result`
pub data Result {κ} (B : Type κ) : Type κ where
  err : Error → Result B
  ok : B → Result B

-- What `?` does.
infixl 5 ◌>>=◌
abbrev pub ◌>>=◌ {κ ℓ} : {B : Type κ} {C : Type ℓ} → Result B → (B → Result C) → Result C
err failure >>= next = err failure
ok value >>= next = next value

infixl 5 ◌>>◌
abbrev pub ◌>>◌ {κ} : {C : Type κ} → Result (Unit {0}) → Result C → Result C
err failure >> next = err failure
ok done >> next = next

-- To split on a computed result and keep the equation.
pub Result-cases {ℓ} :
    {A : Type ℓ} (r : Result A) → ((e : Error) × (r ≡ err e)) ⊎ ((a : A) × (r ≡ ok a))
Result-cases (ok a) = inr (a, refl)
Result-cases (err e) = inl (e, refl)

-- If a chain succeeds, so did its first step.
module _ {ℓ κ} {A : Type ℓ} {B : Type κ} where
  pub step_succeeds :
      (first : Result A) (next : A → Result B) {y : B}
      → (first >>= next) ≡ ok y
      → (x : A) × (first ≡ ok x) × (next x ≡ ok y)
  step_succeeds first next {y} done = elim (Result-cases first) [
    | inl (e, failed) ↦ absurd (chain_fails failed)
    | inr (x, passed) ↦ (x, passed, ap (λ r. r >>= next) (sym passed) ∙ done)
  ]
    where
      chain_fails : {e : Error} → first ≡ err e → ⊥
      chain_fails failed = cc (ap (λ r. r >>= next) failed)
