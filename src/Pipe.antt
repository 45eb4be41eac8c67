-- ===== src/Pipe.antt =====
-- crates/libzmq-core/src/pipe.rs: the queue, the pipe over it, and the mailbox.
-- A method on `&mut self` returns the object after the call and the call's result; `usize` counts
-- are numbers, since no queue is as long as `usize` is wide.
pub mod Fifo
pub mod Bound
mod Examples
use libzmq_ru.Base.{
  ℕ, Bool, true, false, ◌&&◌, Option, none, some, List, [], ◌∷◌, ◌++◌, length, is_empty, ltb, leb,
  if◌then◌else◌,
}
use libzmq_ru.Error.{Result, ok, err, invalid_socket, again}

pub data PipeFrame {ℓ} (A : Type ℓ) : Type ℓ where
  item : A → PipeFrame A
  delimiter : PipeFrame A

-- The items of the `VecDeque`, its front first.
pub record YQueue {ℓ} (A : Type ℓ) : Type ℓ where
  pub items : List A

pub record YPipe {ℓ} (A : Type ℓ) : Type ℓ where
  pub queue : YQueue A
  pub hwm : ℕ
  pub conflate : Bool
  pub terminated : Bool

pub record Mailbox {ℓ} (A : Type ℓ) : Type ℓ where
  pub commands : List A

module _ {ℓ} {A : Type ℓ} where
  abbrev pub deque_push_back : List A → A → List A
  deque_push_back xs x = xs ++ (x ∷ [])

  abbrev pub deque_pop_front : List A → Option A × List A
  deque_pop_front [] = (none, [])
  deque_pop_front (x ∷ xs) = (some x, xs)

  abbrev pub queue_new : YQueue A
  queue_new = record { items = [] }

  abbrev pub queue_push_back : YQueue A → A → YQueue A
  queue_push_back q x = record { items = deque_push_back q.items x }

  abbrev pub queue_pop_front : YQueue A → Option A × YQueue A
  queue_pop_front q = let (x, rest) = deque_pop_front q.items in (x, record { items = rest })

  abbrev pub queue_clear : YQueue A → YQueue A
  queue_clear q = record { items = [] }

  abbrev pub queue_len : YQueue A → ℕ
  queue_len q = length q.items

  abbrev pub queue_is_empty : YQueue A → Bool
  queue_is_empty q = is_empty q.items

  pub new : ℕ → YPipe A
  new hwm = record { queue = queue_new; hwm = hwm; conflate = false; terminated = false }

  pub set_conflate : YPipe A → Bool → YPipe A
  set_conflate p c = record p { conflate = c }

  -- The branches that go on to `push_back` return the queue that it is pushed on.
  writable_queue : YPipe A → Result (YQueue A)
  writable_queue p =
      if p.conflate
      then ok (queue_clear p.queue)
      else if ltb 0 p.hwm && leb p.hwm (queue_len p.queue)
      then err again
      else ok p.queue

  pub write : YPipe A → A → YPipe A × Result (Unit {0})
  unfolding writable_queue
  write p x = if p.terminated then (p, err invalid_socket) else elim (writable_queue p) [
    | err e ↦ (p, err e)
    | ok q ↦ (record p { queue = queue_push_back q x }, ok tt)
  ]

  pub read : YPipe A → Option A × YPipe A
  read p = let (x, q) = queue_pop_front p.queue in (x, record p { queue = q })

  pub terminate : YPipe A → YPipe A
  terminate p = record p { terminated = true; queue = queue_clear p.queue }

  pub len : YPipe A → ℕ
  len p = queue_len p.queue

  pub pipe_is_empty : YPipe A → Bool
  pipe_is_empty p = queue_is_empty p.queue

  abbrev pub mailbox_new : Mailbox A
  mailbox_new = record { commands = [] }

  pub send : Mailbox A → A → Mailbox A
  send m c = record { commands = deque_push_back m.commands c }

  pub recv : Mailbox A → Option A × Mailbox A
  recv m = let (c, rest) = deque_pop_front m.commands in (c, record { commands = rest })

  pub mailbox_len : Mailbox A → ℕ
  mailbox_len m = length m.commands

  pub mailbox_is_empty : Mailbox A → Bool
  mailbox_is_empty m = is_empty m.commands

-- `impl<T> YPipe<PipeFrame<T>>`
module _ {ℓ} {A : Type ℓ} where
  pub write_item : YPipe (PipeFrame A) → A → YPipe (PipeFrame A) × Result (Unit {0})
  write_item p x = write p (item x)

  pub write_delimiter : YPipe (PipeFrame A) → YPipe (PipeFrame A) × Result (Unit {0})
  write_delimiter p =
      if p.terminated
      then (p, err invalid_socket)
      else (record p { queue = queue_push_back p.queue delimiter; terminated = true }, ok tt)

-- A call on a pipe, with what it was given.
pub data Call {ℓ} (A : Type ℓ) : Type ℓ where
  writes : A → Call A
  reads : Call A
  terminates : Call A
  conflates : Bool → Call A

module _ {ℓ} {A : Type ℓ} where
  pub step : YPipe A → Call A → YPipe A
  step p (writes x) = (write p x).0
  step p reads = (read p).1
  step p terminates = terminate p
  step p (conflates c) = set_conflate p c

  pub run : YPipe A → List (Call A) → YPipe A
  run p [] = p
  run p (c ∷ cs) = run (step p c) cs

-- A call on a pipe of frames, which has `write_delimiter` besides.
pub data FrameCall {ℓ} (A : Type ℓ) : Type ℓ where
  calls : Call (PipeFrame A) → FrameCall A
  delimits : FrameCall A

module _ {ℓ} {A : Type ℓ} where
  pub frame_step : YPipe (PipeFrame A) → FrameCall A → YPipe (PipeFrame A)
  frame_step p (calls c) = step p c
  frame_step p delimits = (write_delimiter p).0

  pub frame_run : YPipe (PipeFrame A) → List (FrameCall A) → YPipe (PipeFrame A)
  frame_run p [] = p
  frame_run p (c ∷ cs) = frame_run (frame_step p c) cs
