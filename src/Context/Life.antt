-- ===== src/Context/Life.antt =====
-- A context that is stopped opens no more sockets, and one that runs numbers them.
use libzmq_ru.Base.{
  ap, subst, sym, inl, inr, ℕ, ◌+◌, ◌<◌, ◌^◌, ◌≡◌, refl, List, [], ◌∷◌, length, arith,
}
use libzmq_ru.Context.{
  ContextLife, shutdown, terminate, socket, ensure_running, next_transient_socket_id,
}
use libzmq_ru.Error.{Result, Result-cases, ok, err, Error, terminated}

pub data Call : Type 0 where
  shuts_down terminates opens takes_id : Call

abbrev pub after_call : ContextLife → Call → ContextLife
after_call c shuts_down = shutdown c
after_call c terminates = terminate c
after_call c opens = (socket c).0
after_call c takes_id = (next_transient_socket_id c).0

abbrev pub after_all : ContextLife → List Call → ContextLife
after_all c [] = c
after_all c (call ∷ calls) = after_all (after_call c call) calls

-- A context that was shut down or terminated.
record IsStopped (c : ContextLife) : Type 0 where
  refuses : ensure_running c ≡ err terminated

call-IsStopped : (c : ContextLife) (call : Call) → IsStopped c → IsStopped (after_call c call)
unfolding ensure_running shutdown terminate socket next_transient_socket_id
call-IsStopped c shuts_down h = record { refuses = refl }
call-IsStopped c terminates h = record { refuses = refl }
call-IsStopped c opens h = record { refuses = ground (arith, h.refuses) }
call-IsStopped c takes_id h = record { refuses = h.refuses }

calls-IsStopped :
    (calls : List Call) (c : ContextLife) → IsStopped c → IsStopped (after_all c calls)
calls-IsStopped [] c h = h
calls-IsStopped (call ∷ calls) c h =
    calls-IsStopped calls (after_call c call) (call-IsStopped c call h)

refused : (c : ContextLife) → IsStopped c → (socket c).1 ≡ err terminated
unfolding socket
refused c h = rw (h.refuses, socket) refl

-- After a context is shut down or terminated, no call of it makes it run again: whatever was
-- called before and after, a new socket is refused as terminated.
pub stopped_for_good :
    (c : ContextLife) (before after : List Call)
    → ((socket (after_all (shutdown (after_all c before)) after)).1 ≡ err terminated)
      × ((socket (after_all (terminate (after_all c before)) after)).1 ≡ err terminated)
unfolding shutdown terminate ensure_running
stopped_for_good c before after = (
  refused _ (calls-IsStopped after (shutdown (after_all c before)) (record { refuses = refl })),
  refused _ (calls-IsStopped after (terminate (after_all c before)) (record { refuses = refl })),
)

abbrev pub note_id : Result ℕ → List ℕ → List ℕ
note_id (ok id) rest = id ∷ rest
note_id (err e) rest = rest

-- The ids that calls give out, in order.
abbrev pub ids : ContextLife → List Call → List ℕ
ids c [] = []
ids c (shuts_down ∷ calls) = ids (shutdown c) calls
ids c (terminates ∷ calls) = ids (terminate c) calls
ids c (opens ∷ calls) = note_id (socket c).1 (ids (socket c).0 calls)
ids c (takes_id ∷ calls) = c.next_socket_id ∷ ids (next_transient_socket_id c).0 calls

abbrev pub Counting : ℕ → List ℕ → Type 0
Counting n [] = Unit {0}
Counting n (id ∷ rest) = (id ≡ n) × Counting (n + 1) rest

advanced :
    (c : ContextLife) (n k : ℕ)
    → c.next_socket_id ≡ n
    → n + (1 + k) < 2 ^ 64
    → (next_transient_socket_id c).0.next_socket_id ≡ n + 1
unfolding next_transient_socket_id
advanced c n k same h = ground arith

socket_refused : (c : ContextLife) {e : Error} → ensure_running c ≡ err e → socket c ≡ (c, err e)
unfolding socket
socket_refused c failed = rw (failed, socket) refl

socket_opened :
    (c : ContextLife) (u : Unit {0})
    → ensure_running c ≡ ok u
    → socket c ≡ ((next_transient_socket_id c).0, ok c.next_socket_id)
unfolding socket next_transient_socket_id
socket_opened c u passed = rw (passed, socket) refl

ids-socket :
    (c : ContextLife) (calls : List Call) {r : ContextLife × Result ℕ}
    → socket c ≡ r
    → ids c (opens ∷ calls) ≡ note_id r.1 (ids r.0 calls)
ids-socket c calls same = ap (λ (r : ContextLife × Result ℕ). note_id r.1 (ids r.0 calls)) same

count_from :
    (calls : List Call) (c : ContextLife) (n : ℕ)
    → c.next_socket_id ≡ n
    → n + length calls < 2 ^ 64
    → Counting n (ids c calls)
unfolding shutdown terminate socket
count_from [] c n same h = tt
count_from (shuts_down ∷ calls) c n same h = count_from calls (shutdown c) n same (omega arith)
count_from (terminates ∷ calls) c n same h = count_from calls (terminate c) n same (omega arith)
count_from (opens ∷ calls) c n same h = elim (Result-cases (ensure_running c)) [
  | inl (e, failed) ↦
      subst (Counting n) (sym (ids-socket c calls (socket_refused c failed)))
        (count_from calls c n same (omega arith))
  | inr (u, passed) ↦ subst (Counting n) (sym (ids-socket c calls (socket_opened c u passed))) (
    same,
    count_from calls (next_transient_socket_id c).0 (n + 1)
        (advanced c n (length calls) same (omega arith)) (omega arith),
  )
]
count_from (takes_id ∷ calls) c n same h = (
  same,
  count_from calls (next_transient_socket_id c).0 (n + 1)
      (advanced c n (length calls) same (omega arith)) (omega arith),
)

-- While the counter does not wrap around, the ids that a context gives to sockets count up one by
-- one, whatever else is called in between; so no two sockets share an id.
pub ids_count_up :
    (c : ContextLife) (calls : List Call)
    → c.next_socket_id + length calls < 2 ^ 64
    → Counting c.next_socket_id (ids c calls)
ids_count_up c calls h = count_from calls c c.next_socket_id refl h
