-- ===== src/Pipe/Bound.antt =====
-- What bounds a pipe: its high water mark, conflation and termination.
use libzmq_ru.Base.{
  ◌+◌, if◌then◌else◌, ℕ, ◌≤◌, ◌<◌, ◌≡◌, ◌⊎◌, ◌↔◌, refl, true, false, List, [], ◌∷◌, ◌++◌, length,
  length-append, arith, none,
}
use libzmq_ru.Error.{ok, err, invalid_socket, again}
use libzmq_ru.Pipe.{
  PipeFrame, delimiter, write_delimiter, FrameCall, calls, delimits, frame_step, frame_run, YPipe,
  Call, writes, reads, terminates, conflates, new, write, read, terminate, set_conflate, step, run,
}

-- With a high water mark the queue never outgrows it, but for the delimiter of a pipe that it ends.
pub record IsBounded {ℓ} {A : Type ℓ} (hwm : ℕ) (p : YPipe A) : Type 0 where
  pub mark : p.hwm ≡ hwm
  pub within : 0 < hwm → length p.queue.items ≤ hwm + (if p.terminated then 1 else 0)

module _ {ℓ} {A : Type ℓ} where
  write-IsBounded : (n : ℕ) (p : YPipe A) (x : A) → IsBounded n p → IsBounded n (write p x).0
  unfolding write
  write-IsBounded n p x h = ground (arith, length-append p.queue.items (x ∷ []))

  read-IsBounded : (n : ℕ) (p : YPipe A) → IsBounded n p → IsBounded n (read p).1
  unfolding read
  read-IsBounded n p h = ground arith

  step-IsBounded : (n : ℕ) (p : YPipe A) (c : Call A) → IsBounded n p → IsBounded n (step p c)
  unfolding step terminate set_conflate
  step-IsBounded n p (writes x) h = write-IsBounded n p x h
  step-IsBounded n p reads h = read-IsBounded n p h
  step-IsBounded n p terminates h = ground arith
  step-IsBounded n p (conflates c) h = record { mark = h.mark; within = h.within }

module _ {ℓ} {A : Type ℓ} where
  frame_step-IsBounded :
      (n : ℕ) (p : YPipe (PipeFrame A)) (c : FrameCall A)
      → IsBounded n p
      → IsBounded n (frame_step p c)
  unfolding frame_step write_delimiter
  frame_step-IsBounded n p (calls c) h = step-IsBounded n p c h
  frame_step-IsBounded n p delimits h = ground (arith, length-append p.queue.items (delimiter ∷ []))

  frame_run-IsBounded :
      (n : ℕ) (p : YPipe (PipeFrame A)) (cs : List (FrameCall A))
      → IsBounded n p
      → IsBounded n (frame_run p cs)
  unfolding frame_run
  frame_run-IsBounded n p [] h = h
  frame_run-IsBounded n p (c ∷ cs) h =
      frame_run-IsBounded n (frame_step p c) cs (frame_step-IsBounded n p c h)

  -- From a new pipe of frames with a positive high water mark, after any writes, reads,
  -- terminations, delimiters and changes of the conflation flag in any order, the queue holds at
  -- most that many frames, and one more only if the pipe is terminated.
  pub frame_run-new-le-hwm :
      (hwm : ℕ) (cs : List (FrameCall A))
      → 0 < hwm
      → let p = frame_run (new {A = PipeFrame A} hwm) cs in
        length p.queue.items ≤ hwm + (if p.terminated then 1 else 0)
  unfolding new
  frame_run-new-le-hwm hwm cs h =
      (frame_run-IsBounded hwm (new {A = PipeFrame A} hwm) cs (unfold new in omega arith)).within h

module _ {ℓ} {A : Type ℓ} where
  abbrev pub Writable : YPipe A → Type 0
  Writable p =
      (p.terminated ≡ false) × ((p.conflate ≡ true) ⊎ (p.hwm ≡ 0) ⊎ (length p.queue.items < p.hwm))

  abbrev pub WriteOutcome : YPipe A → A → Type ℓ
  WriteOutcome p x =
      (((write p x).1 ≡ ok tt) ↔ Writable p)
      × ((((write p x).1 ≡ err invalid_socket) × ((write p x).0 ≡ p)) ↔ (p.terminated ≡ true))
      × (((write p x).1 ≡ ok tt)
          ⊎ ((((write p x).1 ≡ err invalid_socket) ⊎ ((write p x).1 ≡ err again))
              × ((write p x).0 ≡ p)))

  -- A write succeeds exactly when the pipe is not terminated and it conflates, has no high water
  -- mark or is below it; a write that fails leaves the pipe as it was, with the error
  -- InvalidSocket exactly on a terminated pipe, and Again otherwise.
  pub write_outcome : (p : YPipe A) (x : A) → WriteOutcome p x
  unfolding write
  write_outcome p x = ground arith

  -- A write on a conflating pipe that is not terminated leaves exactly the item written, and on a
  -- pipe that accepts without conflation it adds the item behind the others.
  pub items-write :
      (p : YPipe A) (x : A)
      → (write p x).1 ≡ ok tt
      → ((p.conflate ≡ true) × ((write p x).0.queue.items ≡ x ∷ []))
        ⊎ ((p.conflate ≡ false) × ((write p x).0.queue.items ≡ p.queue.items ++ (x ∷ [])))
  unfolding write
  items-write p x h = ground arith

  abbrev IsClosed : YPipe A → Type ℓ
  IsClosed p = (p.terminated ≡ true) × (p.queue.items ≡ [])

  step-IsClosed : (p : YPipe A) (c : Call A) → IsClosed p → IsClosed (step p c)
  unfolding step terminate set_conflate write read
  step-IsClosed p (writes x) h = ground arith
  step-IsClosed p reads h = ground arith
  step-IsClosed p terminates h = (refl, refl)
  step-IsClosed p (conflates c) h = h

  run-IsClosed : (p : YPipe A) (cs : List (Call A)) → IsClosed p → IsClosed (run p cs)
  unfolding run
  run-IsClosed p [] h = h
  run-IsClosed p (c ∷ cs) h = run-IsClosed (step p c) cs (step-IsClosed p c h)

  -- However the calls of a writer and a terminator interleave, a pipe that was terminated
  -- somewhere ends terminated and empty: nothing can be read, and each write is refused.
  pub run_terminated :
      (p : YPipe A) (before after : List (Call A)) (x : A)
      → ((read (run p (before ++ (terminates ∷ after)))).0 ≡ none)
        × ((write (run p (before ++ (terminates ∷ after))) x).1 ≡ err invalid_socket)
  unfolding run step terminate read write
  run_terminated p [] after x =
      let h = run-IsClosed (terminate p) after (refl, refl) in ground (arith, h.0, h.1)
  run_terminated p (c ∷ before) after x = run_terminated (step p c) before after x
