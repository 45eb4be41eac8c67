-- ===== src/Pipe/Examples.antt =====
-- Runs of pipe.rs at small inputs, and the theorems at inputs that meet their hypotheses.
use libzmq_ru.Base.{
  ◌+◌, if◌then◌else◌, ℕ, ◌≤◌, ◌≡◌, ◌⊎◌, refl, true, false, some, none, List, [], ◌∷◌, ◌++◌, arith,
  length,
}
use libzmq_ru.Error.{err, invalid_socket, again}
use libzmq_ru.Pipe.{
  delimiter, FrameCall, calls, delimits, frame_step, frame_run, step, YPipe, Call, writes, reads,
  terminates, new, write, read, set_conflate, run, writable_queue, PipeFrame, item, write_item,
  write_delimiter,
}
use libzmq_ru.Pipe.Bound.{frame_run-new-le-hwm, items-write, run_terminated}
use libzmq_ru.Pipe.Fifo.{accepted, returned, transfer_fifo}

-- The tests of pipe.rs.
ypipe_enforces_hwm :
    ((write (write (new {A = ℕ} 1) 7).0 8).1 ≡ err again)
    × ((read (write (new {A = ℕ} 1) 7).0).0 ≡ some 7)
    × ((read (read (write (new {A = ℕ} 1) 7).0).1).0 ≡ none)
unfolding new write read writable_queue
ypipe_enforces_hwm = (refl, refl, refl)

ypipe_conflate_keeps_latest_item :
    (write (write (set_conflate (new {A = ℕ} 1) true) 7).0 8).0.queue.items ≡ 8 ∷ []
unfolding new write set_conflate writable_queue
ypipe_conflate_keeps_latest_item = refl

ypipe_delimiter_marks_end :
    (write_item (write_delimiter (write_item (new {A = PipeFrame ℕ} 0) 7).0).0 8).1
    ≡ err invalid_socket
unfolding new write write_item write_delimiter writable_queue
ypipe_delimiter_marks_end = refl

abbrev one_of_two : YPipe ℕ
one_of_two = record {
  queue = record { items = 5 ∷ [] };
  hwm = 2;
  conflate = false;
  terminated = false;
}

abbrev busy : List (Call ℕ)
busy = writes 6 ∷ writes 7 ∷ reads ∷ writes 8 ∷ reads ∷ []

-- A full pipe of frames that a delimiter ends.
abbrev ended : List (FrameCall ℕ)
ended = calls (writes (item 6)) ∷ calls (writes (item 7)) ∷ delimits ∷ delimits ∷ []

frame_run-new-le-hwm_example :
    length (frame_run (new {A = PipeFrame ℕ} 1) ended).queue.items
    ≤ 1 + (if (frame_run (new {A = PipeFrame ℕ} 1) ended).terminated then 1 else 0)
frame_run-new-le-hwm_example = frame_run-new-le-hwm 1 ended (omega arith)

delimiter_over_hwm :
    (frame_run (new {A = PipeFrame ℕ} 1) ended).queue.items ≡ item 6 ∷ delimiter ∷ []
unfolding new write write_delimiter writable_queue frame_run frame_step step
delimiter_over_hwm = refl

items-write_example :
    ((false ≡ true) × ((write one_of_two 6).0.queue.items ≡ 6 ∷ []))
    ⊎ ((false ≡ false) × ((write one_of_two 6).0.queue.items ≡ 5 ∷ 6 ∷ []))
unfolding write writable_queue
items-write_example = items-write one_of_two 6 refl

run_terminated_example :
    ((read (run one_of_two (writes 6 ∷ terminates ∷ writes 7 ∷ []))).0 ≡ none)
    × ((write (run one_of_two (writes 6 ∷ terminates ∷ writes 7 ∷ [])) 9).1 ≡ err invalid_socket)
run_terminated_example = run_terminated one_of_two (writes 6 ∷ []) (writes 7 ∷ []) 9

transfer_fifo_example :
    (5 ∷ []) ++ accepted one_of_two busy
    ≡ returned one_of_two busy ++ (run one_of_two busy).queue.items
transfer_fifo_example = transfer_fifo one_of_two busy refl tt

abbrev framed : YPipe (PipeFrame ℕ)
framed = record {
  queue = record { items = item 5 ∷ [] };
  hwm = 1;
  conflate = false;
  terminated = false;
}
