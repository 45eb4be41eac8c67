-- ===== src/Context/Options/Outcome.antt =====
-- What an option reads back as after it is set, and what a refused value changes.
use libzmq_ru.Base.{
  ◌⊎◌, subst, sym, ℕ, ◌≡◌, ap, inl, inr, Bool, true, ◌||◌, if◌then◌else◌, arith, Bool-cases, ◌==◌,
}
use libzmq_ru.Base.Int.{ℤ, pos, negsuc, is_code, is_nonzero, int_of}
use libzmq_ru.Constants.{
  zmq_io_threads, zmq_max_sockets, zmq_max_msgsz, zmq_thread_sched_policy, zmq_zero_copy_recv,
  zmq_ipv6, zmq_blocky, zmq_thread_name_prefix,
}
use libzmq_ru.Context.Options.{ContextOptions, set_option, store_option, get_option}
use libzmq_ru.Context.Options.Decimal.{in_i32, read_back, atoi_i32-to_string}
use libzmq_ru.Error.{ok, err, invalid_argument}

-- The options that can be set and read.
abbrev pub is_readable : ℤ → Bool
is_readable option =
    is_code option zmq_io_threads
    || is_code option zmq_max_sockets
    || is_code option zmq_max_msgsz
    || is_code option zmq_ipv6
    || is_code option zmq_blocky
    || is_code option zmq_thread_sched_policy
    || is_code option zmq_zero_copy_recv
    || is_code option zmq_thread_name_prefix

-- What is read back: switches as 0 or 1, the name prefix through its decimal digits.
abbrev pub stored : ℤ → ℤ → ℤ
stored option value =
    if is_code option zmq_ipv6 || is_code option zmq_blocky || is_code option zmq_zero_copy_recv
    then int_of (is_nonzero value)
    else if is_code option zmq_thread_name_prefix
    then read_back value
    else value

-- The value is accepted, and is what the option reads back as.
abbrev ReadsBack : ContextOptions → ℤ → ℤ → Type 0
ReadsBack o option value =
    (set_option o option value).1 ≡ ok tt
    → get_option (set_option o option value).0 option ≡ ok (stored option value)

data ReadableCode : ℕ → Type 0 where
  is_io_threads : ReadableCode zmq_io_threads
  is_max_sockets : ReadableCode zmq_max_sockets
  is_max_msgsz : ReadableCode zmq_max_msgsz
  is_ipv6 : ReadableCode zmq_ipv6
  is_blocky : ReadableCode zmq_blocky
  is_thread_sched_policy : ReadableCode zmq_thread_sched_policy
  is_zero_copy_recv : ReadableCode zmq_zero_copy_recv
  is_thread_name_prefix : ReadableCode zmq_thread_name_prefix

is_that : (k c : ℕ) → (k == c) ≡ true → k ≡ c
is_that k c h = ground arith

which_code : (k : ℕ) → is_readable (pos k) ≡ true → ReadableCode k
which_code k readable = elim (Bool-cases (k == zmq_io_threads)) [
  | inl same0 ↦ subst ReadableCode (sym (is_that k zmq_io_threads same0)) is_io_threads
  | inr not0 ↦ elim (Bool-cases (k == zmq_max_sockets)) [
    | inl same1 ↦ subst ReadableCode (sym (is_that k zmq_max_sockets same1)) is_max_sockets
    | inr not1 ↦ elim (Bool-cases (k == zmq_max_msgsz)) [
      | inl same2 ↦ subst ReadableCode (sym (is_that k zmq_max_msgsz same2)) is_max_msgsz
      | inr not2 ↦ elim (Bool-cases (k == zmq_ipv6)) [
        | inl same3 ↦ subst ReadableCode (sym (is_that k zmq_ipv6 same3)) is_ipv6
        | inr not3 ↦ elim (Bool-cases (k == zmq_blocky)) [
          | inl same4 ↦ subst ReadableCode (sym (is_that k zmq_blocky same4)) is_blocky
          | inr not4 ↦ elim (Bool-cases (k == zmq_thread_sched_policy)) [
            | inl same5 ↦
                subst ReadableCode (sym (is_that k zmq_thread_sched_policy same5))
                  is_thread_sched_policy
            | inr not5 ↦ elim (Bool-cases (k == zmq_zero_copy_recv)) [
              | inl same6 ↦
                  subst ReadableCode (sym (is_that k zmq_zero_copy_recv same6)) is_zero_copy_recv
              | inr not6 ↦ elim (Bool-cases (k == zmq_thread_name_prefix)) [
                | inl same7 ↦
                    subst ReadableCode (sym (is_that k zmq_thread_name_prefix same7))
                      is_thread_name_prefix
                | inr not7 ↦ absurd (ground arith)
              ]
            ]
          ]
        ]
      ]
    ]
  ]
]

reads_back :
    (o : ContextOptions) {k : ℕ} (value : ℤ)
    → ReadableCode k
    → in_i32 value ≡ true
    → ReadsBack o (pos k) value
unfolding set_option store_option get_option
reads_back o value is_io_threads range = λ done. ground arith
reads_back o value is_max_sockets range = λ done. ground arith
reads_back o value is_max_msgsz range = λ done. ground arith
reads_back o value is_ipv6 range = λ done. ground arith
reads_back o value is_blocky range = λ done. ground arith
reads_back o value is_thread_sched_policy range = λ done. ground arith
reads_back o value is_zero_copy_recv range = λ done. ground arith
reads_back o value is_thread_name_prefix range = λ done. ap ok (atoi_i32-to_string value range)

-- An option that can be read and whose new value is accepted reads back as that value: a switch as
-- 0 or 1, any other number as itself, but the least `i32` as a thread's name prefix, which reads
-- back as the least but one.
pub get_option-set_option :
    (o : ContextOptions) (option value : ℤ)
    → is_readable option ≡ true
    → in_i32 value ≡ true
    → (set_option o option value).1 ≡ ok tt
    → get_option (set_option o option value).0 option ≡ ok (stored option value)
get_option-set_option o (pos k) value readable range done =
    reads_back o value (which_code k readable) range done
get_option-set_option o (negsuc k) value readable range done = cc

-- A refused value is an invalid argument and changes no option.
pub set_option_refused :
    (o : ContextOptions) (option value : ℤ)
    → ((set_option o option value).1 ≡ ok tt)
      ⊎ ((set_option o option value).0 ≡ o) × ((set_option o option value).1 ≡ err invalid_argument)
unfolding set_option store_option
set_option_refused o option value = ground arith
