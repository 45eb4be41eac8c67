-- ===== src/SocketType/Codes.antt =====
-- The numbers of the socket types name them, and types that connect do so either way round.
use libzmq_ru.Base.{ℕ, ◌≡◌, ap, ◌∙◌, ◌↔◌, refl, arith}
use libzmq_ru.Base.Int.{ℤ, pos, negsuc}
use libzmq_ru.Error.{ok}
use libzmq_ru.SocketType.{SocketType, code_of, try_from, inproc_types_compatible, pair}

try_from-code_of : (t : SocketType) → try_from (pos (code_of t)) ≡ ok t
unfolding try_from code_of
try_from-code_of pair = refl
try_from-code_of _ = refl

code_of-try_from : (n : ℕ) (t : SocketType) → try_from (pos n) ≡ ok t → n ≡ code_of t
unfolding try_from code_of
code_of-try_from n pair h = ground arith
code_of-try_from n _ h = ground arith

not_negative : (n : ℕ) (t : SocketType) → try_from (negsuc n) ≡ ok t → negsuc n ≡ pos (code_of t)
unfolding try_from
not_negative n t h = cc

-- A number is read as a socket type exactly when it is the type's number: the reading is the
-- inverse of the enum's discriminants, and no negative number is read.
pub try_from_iff : (v : ℤ) (t : SocketType) → (try_from v ≡ ok t) ↔ (v ≡ pos (code_of t))
try_from_iff (pos n) t =
    (λ h. ap pos (code_of-try_from n t h), λ e. ap try_from e ∙ try_from-code_of t)
try_from_iff (negsuc n) t = (not_negative n t, λ e. cc)

-- Whether two socket types may be connected does not depend on which of them binds.
inproc_types_compatible_comm :
    (a b : SocketType) → inproc_types_compatible a b ≡ inproc_types_compatible b a
unfolding inproc_types_compatible
inproc_types_compatible_comm pair b = ground arith
inproc_types_compatible_comm _ b = ground arith
