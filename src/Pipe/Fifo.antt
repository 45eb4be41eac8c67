-- ===== src/Pipe/Fifo.antt =====
-- A pipe and a mailbox as first-in first-out queues.
use libzmq_ru.Base.{
  ℕ, ◌≡◌, refl, ap, sym, ◌∙◌, false, Option, some, none, List, [], ◌∷◌, ◌++◌, arith, map, zero, suc,
  length,
}
use mathlib.Core.List.{append_assoc, append-nil}
use libzmq_ru.Error.{Result, ok, err}
use libzmq_ru.Pipe.{
  YPipe, Call, writes, reads, terminates, conflates, write, read, step, run, PipeFrame, delimiter,
  write_delimiter, Mailbox, send, recv, mailbox_new,
}

module _ {ℓ} {A : Type ℓ} where
  -- Only writes and reads.
  abbrev pub IsTransfer : List (Call A) → Type 0
  IsTransfer [] = Unit
  IsTransfer (writes x ∷ cs) = IsTransfer cs
  IsTransfer (reads ∷ cs) = IsTransfer cs
  IsTransfer (_ ∷ cs) = ⊥

  abbrev if_accepted : Result (Unit {0}) → A → List A → List A
  if_accepted (ok _) x xs = x ∷ xs
  if_accepted (err e) x xs = xs

  -- The items whose write succeeds, in order.
  abbrev pub accepted : YPipe A → List (Call A) → List A
  accepted p [] = []
  accepted p (writes x ∷ cs) = if_accepted (write p x).1 x (accepted (write p x).0 cs)
  accepted p (c ∷ cs) = accepted (step p c) cs

  abbrev cons_some : Option A → List A → List A
  cons_some none xs = xs
  cons_some (some x) xs = x ∷ xs

  -- The items that the reads return, in order.
  abbrev pub returned : YPipe A → List (Call A) → List A
  returned p [] = []
  returned p (reads ∷ cs) = cons_some (read p).0 (returned (read p).1 cs)
  returned p (c ∷ cs) = returned (step p c) cs

  write-conflate : (p : YPipe A) (x : A) → (write p x).0.conflate ≡ p.conflate
  unfolding write
  write-conflate p x = ground arith

  write_step :
      (p : YPipe A) (x : A) (zs : List A)
      → p.conflate ≡ false
      → p.queue.items ++ if_accepted (write p x).1 x zs ≡ (write p x).0.queue.items ++ zs
  unfolding write
  write_step p x zs h = ground (arith, append_assoc p.queue.items (x ∷ []) zs)

  read_step :
      (p : YPipe A) (zs : List A)
      → p.queue.items ++ zs ≡ cons_some (read p).0 ((read p).1.queue.items ++ zs)
  unfolding read
  read_step p zs = ground arith

  cons_some-append : (o : Option A) (xs ys : List A) → cons_some o (xs ++ ys) ≡ cons_some o xs ++ ys
  cons_some-append none xs ys = refl
  cons_some-append (some x) xs ys = refl

  read-conflate : (p : YPipe A) → (read p).1.conflate ≡ p.conflate
  unfolding read
  read-conflate p = refl

  -- On a pipe that does not conflate, over any sequence of writes and reads, what was queued and
  -- then accepted is what the reads returned and then what is queued, in the same order: nothing
  -- is lost, made up or reordered.
  pub transfer_fifo :
      (p : YPipe A) (cs : List (Call A))
      → p.conflate ≡ false
      → IsTransfer cs
      → p.queue.items ++ accepted p cs ≡ returned p cs ++ (run p cs).queue.items
  unfolding run step
  transfer_fifo p [] h t = append-nil p.queue.items
  transfer_fifo p (writes x ∷ cs) h t =
      write_step p x (accepted (write p x).0 cs) h
      ∙ transfer_fifo (write p x).0 cs (write-conflate p x ∙ h) t
  transfer_fifo p (reads ∷ cs) h t =
      read_step p (accepted (read p).1 cs)
      ∙ ap (cons_some (read p).0) (transfer_fifo (read p).1 cs (read-conflate p ∙ h) t)
      ∙ cons_some-append (read p).0 _ _
  transfer_fifo p (terminates ∷ cs) h t = absurd t
  transfer_fifo p (conflates c ∷ cs) h t = absurd t

  -- The first `n` reads.
  abbrev pub drain : ℕ → YPipe A → List (Option A)
  drain zero p = []
  drain (suc n) p = (read p).0 ∷ drain n (read p).1

  drain_items :
      (p : YPipe A) (xs : List A)
      → p.queue.items ≡ xs
      → drain (suc (length xs)) p ≡ map some xs ++ (none ∷ [])
  unfolding read
  drain_items p [] h = ground arith
  drain_items p (x ∷ xs) h =
      rw (h, read)
        (ap (◌∷◌ (some x)) (drain_items (record p { queue = record { items = xs } }) xs refl))

module _ {ℓ} {A : Type ℓ} where
  -- Writing the delimiter to a pipe that is not terminated succeeds whatever the high water mark;
  -- the reads then return all that was queued before it, the delimiter, and nothing after it.
  pub drain-write_delimiter :
      (p : YPipe (PipeFrame A)) (xs : List (PipeFrame A))
      → p.terminated ≡ false
      → p.queue.items ≡ xs
      → ((write_delimiter p).1 ≡ ok tt)
        × (drain (suc (length (xs ++ (delimiter ∷ [])))) (write_delimiter p).0
            ≡ map some (xs ++ (delimiter ∷ [])) ++ (none ∷ []))
  unfolding write_delimiter
  drain-write_delimiter p xs h e = (
    rw (h, write_delimiter) refl,
    drain_items (write_delimiter p).0 (xs ++ (delimiter ∷ []))
        (rw (h, write_delimiter) (ap (λ ys. ys ++ (delimiter ∷ [])) e)),
  )

module _ {ℓ} {A : Type ℓ} where
  abbrev pub send_all : Mailbox A → List A → Mailbox A
  send_all m [] = m
  send_all m (c ∷ cs) = send_all (send m c) cs

  abbrev pub recv_all : ℕ → Mailbox A → List (Option A)
  recv_all zero m = []
  recv_all (suc n) m = (recv m).0 ∷ recv_all n (recv m).1

  commands-send_all : (m : Mailbox A) (cs : List A) → (send_all m cs).commands ≡ m.commands ++ cs
  unfolding send
  commands-send_all m [] = sym (append-nil m.commands)
  commands-send_all m (c ∷ cs) =
      commands-send_all (send m c) cs ∙ append_assoc m.commands (c ∷ []) cs

  recv_all_lem :
      (m : Mailbox A) (xs : List A)
      → m.commands ≡ xs
      → recv_all (suc (length xs)) m ≡ map some xs ++ (none ∷ [])
  unfolding recv
  recv_all_lem m [] h = ground arith
  recv_all_lem m (x ∷ xs) h =
      rw (h, recv) (ap (◌∷◌ (some x)) (recv_all_lem (record { commands = xs }) xs refl))

  -- A mailbox hands out the commands sent to it in the order of sending, and then nothing.
  pub recv-send_all :
      (cs : List A)
      → recv_all (suc (length cs)) (send_all mailbox_new cs) ≡ map some cs ++ (none ∷ [])
  recv-send_all cs = recv_all_lem (send_all mailbox_new cs) cs (commands-send_all mailbox_new cs)
