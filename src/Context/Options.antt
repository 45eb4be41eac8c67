-- ===== src/Context/Options.antt =====
-- The options of a context (`ContextOptions`, `set_option`, `get_option` and their kin of
-- context.rs). A lock is never poisoned. The default priority and policy of the threads are -1.
pub mod Decimal
pub mod Outcome
use libzmq_ru.Base.{
  ℕ, Bool, true, false, not, ◌&&◌, ◌||◌, List, [], ◌∷◌, ◌++◌, length, is_empty, any, retain, leb,
  ltb, ◌==◌, if◌then◌else◌,
}
use libzmq_ru.Base.Int.{ℤ, pos, negsuc, is_code, is_nonneg, ge, is_nonzero, int_of}
use libzmq_ru.Constants.{
  zmq_io_threads, zmq_max_sockets, zmq_socket_limit, zmq_max_msgsz, zmq_msg_t_size,
  zmq_thread_priority, zmq_thread_sched_policy, zmq_thread_affinity_cpu_add,
  zmq_thread_affinity_cpu_remove, zmq_zero_copy_recv, zmq_ipv6, zmq_blocky, zmq_thread_name_prefix,
  zmq_io_threads_dflt, zmq_max_sockets_dflt,
}
use libzmq_ru.Context.Options.Decimal.{atoi_i32, to_string, i32_max}
use libzmq_ru.Error.{Result, ok, err, invalid_argument}

pub record ContextOptions : Type 0 where
  pub io_threads : ℤ
  pub max_sockets : ℤ
  pub max_msgsz : ℤ
  pub thread_priority : ℤ
  pub thread_sched_policy : ℤ
  pub zero_copy_recv : ℤ
  pub thread_name_prefix : List ℕ
  pub thread_affinity_cpus : List ℤ
  pub ipv6 : Bool
  pub blocky : Bool

unfoldable pub default_options : ContextOptions
default_options = record {
  io_threads = pos zmq_io_threads_dflt;
  max_sockets = pos zmq_max_sockets_dflt;
  max_msgsz = pos i32_max;
  thread_priority = negsuc 0;
  thread_sched_policy = negsuc 0;
  zero_copy_recv = pos 1;
  thread_name_prefix = [];
  thread_affinity_cpus = [];
  ipv6 = false;
  blocky = true;
}

-- The options whose value may not be negative.
abbrev pub rejects_negative : ℤ → Bool
rejects_negative option =
    is_code option zmq_io_threads
    || is_code option zmq_max_msgsz
    || is_code option zmq_thread_priority
    || is_code option zmq_thread_sched_policy
    || is_code option zmq_thread_affinity_cpu_add
    || is_code option zmq_thread_affinity_cpu_remove
    || is_code option zmq_zero_copy_recv
    || is_code option zmq_ipv6
    || is_code option zmq_blocky

abbrev int_eq : ℤ → ℤ → Bool
int_eq (pos m) (pos n) = m == n
int_eq (negsuc m) (negsuc n) = m == n
int_eq _ _ = false

-- `HashSet<i32>`, as a list without repetitions.
cpus_contain : List ℤ → ℤ → Bool
unfolding any
cpus_contain cpus cpu = any (λ c. int_eq c cpu) cpus

cpus_insert : List ℤ → ℤ → List ℤ
unfolding cpus_contain
cpus_insert cpus cpu = if cpus_contain cpus cpu then cpus else cpus ++ (cpu ∷ [])

cpus_remove : List ℤ → ℤ → List ℤ
unfolding retain
cpus_remove cpus cpu = retain (λ c. not (int_eq c cpu)) cpus

-- The match on the option, once its value is checked.
store_option : ContextOptions → ℤ → ℤ → ContextOptions × Result (Unit {0})
unfolding cpus_contain cpus_insert cpus_remove
store_option o option value =
    if is_code option zmq_io_threads
    then (record o { io_threads = value }, ok tt)
    else if is_code option zmq_max_sockets
    then (record o { max_sockets = value }, ok tt)
    else if is_code option zmq_max_msgsz
    then (record o { max_msgsz = value }, ok tt)
    else if is_code option zmq_ipv6
    then (record o { ipv6 = is_nonzero value }, ok tt)
    else if is_code option zmq_blocky
    then (record o { blocky = is_nonzero value }, ok tt)
    else if is_code option zmq_thread_priority
    then (record o { thread_priority = value }, ok tt)
    else if is_code option zmq_thread_sched_policy
    then (record o { thread_sched_policy = value }, ok tt)
    else if is_code option zmq_zero_copy_recv
    then (record o { zero_copy_recv = int_of (is_nonzero value) }, ok tt)
    else if is_code option zmq_thread_affinity_cpu_add
    then (record o { thread_affinity_cpus = cpus_insert o.thread_affinity_cpus value }, ok tt)
    else if is_code option zmq_thread_affinity_cpu_remove
    then (if cpus_contain o.thread_affinity_cpus value
        then (record o { thread_affinity_cpus = cpus_remove o.thread_affinity_cpus value }, ok tt)
        else (o, err invalid_argument))
    else if is_code option zmq_thread_name_prefix
    then (record o { thread_name_prefix = to_string value }, ok tt)
    else (o, err invalid_argument)

unfoldable pub set_option : ContextOptions → ℤ → ℤ → ContextOptions × Result (Unit {0})
unfolding store_option
set_option o option value =
    if rejects_negative option && not (is_nonneg value)
    then (o, err invalid_argument)
    else if is_code option zmq_max_sockets && not (ge value 1)
    then (o, err invalid_argument)
    else store_option o option value

unfoldable pub set_option_bytes : ContextOptions → ℤ → List ℕ → ContextOptions × Result (Unit {0})
set_option_bytes o option value =
    if is_code option zmq_thread_name_prefix && not (is_empty value) && leb (length value) 16
    then (record o { thread_name_prefix = value }, ok tt)
    else (o, err invalid_argument)

unfoldable pub get_option : ContextOptions → ℤ → Result ℤ
get_option o option =
    if is_code option zmq_io_threads
    then ok o.io_threads
    else if is_code option zmq_max_sockets
    then ok o.max_sockets
    else if is_code option zmq_socket_limit
    then ok (pos 65535)
    else if is_code option zmq_max_msgsz
    then ok o.max_msgsz
    else if is_code option zmq_msg_t_size
    then ok (pos 64)
    else if is_code option zmq_ipv6
    then ok (int_of o.ipv6)
    else if is_code option zmq_blocky
    then ok (int_of o.blocky)
    else if is_code option zmq_thread_sched_policy
    then ok o.thread_sched_policy
    else if is_code option zmq_thread_name_prefix
    then ok (atoi_i32 o.thread_name_prefix)
    else if is_code option zmq_zero_copy_recv
    then ok o.zero_copy_recv
    else err invalid_argument

unfoldable pub get_option_bytes : ContextOptions → ℤ → Result (List ℕ)
get_option_bytes o option =
    if is_code option zmq_thread_name_prefix then ok o.thread_name_prefix else err invalid_argument

-- The options that a new socket takes from its context.
unfoldable pub socket_defaults : ContextOptions → Bool × Bool
socket_defaults o = (o.ipv6, o.blocky)
