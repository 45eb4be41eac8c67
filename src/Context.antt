-- ===== src/Context.antt =====
-- The context of crates/libzmq-core/src/context.rs: its life, its options, and the registry of
-- inproc endpoints by name.
pub mod Options
pub mod Registry
mod Examples
use libzmq_ru.Base.{ℕ, ◌+◌, ◌%◌, ◌^◌, Bool, ◌==◌, if◌then◌else◌}
use libzmq_ru.Constants.{state_running, state_shutting_down, state_terminated}
use libzmq_ru.Error.{Result, ok, err, terminated, invalid_context}
pub mod Life

-- The atomic fields of `ContextShared`; the options and the registry have their own modules.
pub record ContextLife : Type 0 where
  pub state : ℕ
  pub next_socket_id : ℕ

unfoldable pub new_life : ContextLife
new_life = record { state = state_running; next_socket_id = 1 }

unfoldable pub shutdown : ContextLife → ContextLife
shutdown c = record c { state = state_shutting_down }

unfoldable pub terminate : ContextLife → ContextLife
terminate c = record c { state = state_terminated }

unfoldable pub is_terminated : ContextLife → Bool
is_terminated c = c.state == state_terminated

unfoldable pub ensure_running : ContextLife → Result (Unit {0})
ensure_running c =
    if c.state == state_running
    then ok tt
    else if c.state == state_shutting_down
    then err terminated
    else if c.state == state_terminated
    then err terminated
    else err invalid_context

-- `fetch_add` wraps around at 2^64.
unfoldable pub next_transient_socket_id : ContextLife → ContextLife × ℕ
next_transient_socket_id c =
    (record c { next_socket_id = (c.next_socket_id + 1) % 2 ^ 64 }, c.next_socket_id)

-- The id of the new socket.
unfoldable pub socket : ContextLife → ContextLife × Result ℕ
unfolding next_transient_socket_id
socket c = elim (ensure_running c) [
  | err e ↦ (c, err e)
  | ok _ ↦ (let (c', id) = next_transient_socket_id c in (c', ok id))
]
