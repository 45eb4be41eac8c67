-- ===== src/Handshake/Stream/Progress.antt =====
-- Reading shortens the stream, so a loop that reads frames ends.
use libzmq_ru.Base.{ℕ, ◌<◌, ◌≤◌, ◌≡◌, refl, Bool, true, false, length, arith, length-drop}
use libzmq_ru.Error.{Result, ok, err}
use libzmq_ru.Handshake.Stream.{
  Stream, Io, and_then, ◌>>=◌, read_exact, read_body_len, read_zmtp_frame_bytes, read_zmtp_frame,
}

abbrev left : {A : Type 0} → Result A × Stream → ℕ
left p = length p.1.incoming

-- An action that leaves no more to read than there was, and one that leaves less if it succeeds.
abbrev Shrinks : {A : Type 0} → Io A → Type 0
Shrinks m = (s : Stream) → left (m s) ≤ length s.incoming

abbrev Takes : {A : Type 0} → Io A → Type 0
Takes {A = A} m = (s : Stream) (a : A) → (m s).0 ≡ ok a → left (m s) < length s.incoming

module _ {A B : Type 0} (k : A → Io B) (shrinks : (a : A) → Shrinks (k a)) where
  then-Shrinks : (p : Result A × Stream) → left (and_then p k) ≤ left p
  then-Shrinks (ok a, s) = shrinks a s
  then-Shrinks (err e, s) = omega arith

  bind-Shrinks : (m : Io A) → Shrinks m → Shrinks (m >>= k)
  bind-Shrinks m h s = omega (arith, h s, then-Shrinks (m s))

  then-Takes :
      (p : Result A × Stream) (n : ℕ) (b : B)
      → ((a : A) → p.0 ≡ ok a → left p < n)
      → (and_then p k).0 ≡ ok b
      → left (and_then p k) < n
  then-Takes (ok a, s) n b h e = omega (arith, h a refl, shrinks a s)
  then-Takes (err e, s) n b h f = absurd cc

  bind-Takes : (m : Io A) → Takes m → Takes (m >>= k)
  bind-Takes m h s b e = then-Takes (m s) (length s.incoming) b (λ a. h s a) e

read_exact-Shrinks : (n : ℕ) → Shrinks (read_exact n)
unfolding read_exact
read_exact-Shrinks n s = ground (arith, length-drop n s.incoming)

read_exact-Takes : (n : ℕ) → 0 < n → Takes (read_exact n)
unfolding read_exact
read_exact-Takes n pos s a h = ground (arith, length-drop n s.incoming, h)

read_body_len-Shrinks : (long : Bool) → Shrinks (read_body_len long)
unfolding read_body_len
read_body_len-Shrinks true =
    bind-Shrinks _ (λ len s. omega arith) (read_exact 8) (read_exact-Shrinks 8)
read_body_len-Shrinks false =
    bind-Shrinks _ (λ len s. omega arith) (read_exact 1) (read_exact-Shrinks 1)

read_frame_bytes-Takes : Takes read_zmtp_frame_bytes
unfolding read_zmtp_frame_bytes
read_frame_bytes-Takes =
    bind-Takes _
      (λ flags.
        bind-Shrinks _
          (λ body_len.
            bind-Shrinks _ (λ body s. omega arith) (read_exact body_len)
              (read_exact-Shrinks body_len))
          (read_body_len _) (read_body_len-Shrinks _))
      (read_exact 1) (read_exact-Takes 1 (omega arith))

pub read_frame-Takes : Takes read_zmtp_frame
unfolding read_zmtp_frame
read_frame-Takes =
    bind-Takes _ (λ encoded s. omega arith) read_zmtp_frame_bytes read_frame_bytes-Takes
