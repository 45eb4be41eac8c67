-- ===== src/Handshake/Authorize/Asking.antt =====
-- A call that asks the handler of ZAP requests, up to what it makes of the reply.
use libzmq_ru.Base.{
  ℕ, ◌%◌, ◌^◌, ◌≡◌, refl, ap, ◌∙◌, Bool, true, false, Option, none, some, List, [], ◌∷◌, ◌++◌,
}
use mathlib.Core.List.{append_assoc}
use libzmq_ru.Context.Registry.{
  Registry, connect_inproc, inproc_endpoint, open_world, close_world, lookup,
}
use libzmq_ru.Security.{SecurityOptions, PlainCredentials}
use libzmq_ru.SocketType.{SocketType, req, inproc_types_compatible}
use libzmq_ru.Context.{next_transient_socket_id}
use libzmq_ru.Context.Options.Decimal.{digits}
use libzmq_ru.Context.Registry.Binding.{add_peer-result, fits}
use libzmq_ru.Error.{Result, ok, ◌>>=◌}
use libzmq_ru.Handshake.Authorize.{
  authorize_gssapi_via_zap, authorize_curve_via_zap, Context, Others, Cells, zap_messages,
  send_zap_request, wait_loop, wait_zap_reply, accept_reply, via_zap, zap_dialogue, zap_endpoint,
  authorize_plain_via_zap, authorize_plain, authorize_curve, authorize_gssapi,
}
use libzmq_ru.Inproc.{InprocPeer}
use libzmq_ru.Message.{Message, from_vec, data_of, set_more, set_routing_id}
use libzmq_ru.Message.Payload.{data_of-from_vec}
use libzmq_ru.Zap.{new_request, ZapRequest, encode_request, decode_reply}

pub data_of-framed :
    (frame : List ℕ) (id : ℕ) (more : Bool)
    → data_of (set_more (set_routing_id (from_vec frame) id) more) ≡ frame
unfolding data_of set_more set_routing_id
data_of-framed frame id more = (data_of-from_vec frame).0

-- The messages among the looks at the inbox.
abbrev pub found : List (Option Message) → List Message
found [] = []
found (none ∷ looks) = found looks
found (some m ∷ looks) = m ∷ found looks

head_of : {A : Type 0} → A → List A → A
head_of d [] = d
head_of d (x ∷ xs) = x

tail_of : {A : Type 0} → List A → List A
tail_of [] = []
tail_of (x ∷ xs) = xs

∷-injective : {A : Type 0} (x y : A) (xs ys : List A) → (x ∷ xs) ≡ (y ∷ ys) → (x ≡ y) × (xs ≡ ys)
unfolding head_of tail_of
∷-injective x y xs ys e = (ap (head_of x) e, ap tail_of e)

-- The frames of a reply are put together, whatever the pauses between them.
pub wait_loop-collects :
    (id : ℕ) (looks : List (Option Message)) (frame : List ℕ) (frames acc : List (List ℕ))
    (later : List Message)
    → found looks ≡ zap_messages id (frame ∷ frames) ++ later
    → wait_loop looks acc ≡ decode_reply (acc ++ (frame ∷ frames))
unfolding wait_loop zap_messages set_more
wait_loop-collects id [] frame [] acc later h = absurd cc
wait_loop-collects id [] frame (next ∷ rest) acc later h = absurd cc
wait_loop-collects id (none ∷ looks) frame frames acc later h =
    wait_loop-collects id looks frame frames acc later h
wait_loop-collects id (some m ∷ looks) frame [] acc later h =
    let (same, rest) = ∷-injective m _ _ _ h in
    rw (same, data_of-framed frame (id % 2 ^ 32) false) refl
wait_loop-collects id (some m ∷ looks) frame (next ∷ frames) acc later h =
    let (same, rest) = ∷-injective m _ _ _ h in
    rw (same, data_of-framed frame (id % 2 ^ 32) true)
      (wait_loop-collects id looks next frames (acc ++ (frame ∷ [])) later rest
        ∙ ap decode_reply (append_assoc acc (frame ∷ []) (next ∷ frames)))

-- A client that asks to be let in, with what its mechanism tells of it.
pub data Client : Type 0 where
  plain_client : PlainCredentials → Client
  curve_client : (public_key : List ℕ) → Client
  gssapi_client : (principal : List ℕ) → Client

abbrev pub authorize :
    Others → Cells → Context → SecurityOptions → Client → Context × Result (Unit {0})
authorize others cells context security (plain_client c) =
    authorize_plain others cells context security c
authorize others cells context security (curve_client key) =
    authorize_curve others cells context security key
authorize others cells context security (gssapi_client p) =
    authorize_gssapi others cells context security p

-- The name of a client's mechanism, and its credentials.
abbrev pub mechanism_of : Client → List ℕ
mechanism_of (plain_client c) = b'P' ∷ b'L' ∷ b'A' ∷ b'I' ∷ b'N' ∷ []
mechanism_of (curve_client key) = b'C' ∷ b'U' ∷ b'R' ∷ b'V' ∷ b'E' ∷ []
mechanism_of (gssapi_client p) = b'G' ∷ b'S' ∷ b'S' ∷ b'A' ∷ b'P' ∷ b'I' ∷ []

abbrev pub credentials_of : Client → List (List ℕ)
credentials_of (plain_client c) = c.username ∷ c.password ∷ []
credentials_of (curve_client key) = key ∷ []
credentials_of (gssapi_client p) = p ∷ []

abbrev pub request_from : Context → SecurityOptions → Client → ZapRequest
request_from context security client =
    new_request (digits 19 context.life.next_socket_id) security.zap_domain [] []
      (mechanism_of client) (credentials_of client)

-- The call's own place at the endpoint.
abbrev pub peer_of : Cells → ℕ → InprocPeer
peer_of cells id = record {
  id = id;
  inbox = cells.inbox;
  socket_type = req;
  subscriptions = cells.subscriptions;
}

-- The registry at the moment when the call begins to wait: the call's place at the endpoint `n`
-- is taken, and its request lies in the inbox of the binder.
abbrev pub asked : Cells → Context → SecurityOptions → Client → ℕ → Registry
asked cells context security client n =
    let id = context.life.next_socket_id in
    let connected = (connect_inproc context.registry zap_endpoint (peer_of cells id)).0 in
    close_world connected n (
      send_zap_request (open_world connected n) id
        (encode_request (request_from context security client)))

-- Whether a requester may connect to a binder of a type.
abbrev pub fits_req : SocketType → Bool
fits_req t = inproc_types_compatible t req

pub authorize-via_zap :
    (others : Others) (cells : Cells) (context : Context) (security : SecurityOptions)
    (client : Client) (n : ℕ)
    → inproc_endpoint context.registry zap_endpoint ≡ some n
    → authorize others cells context security client
      ≡ via_zap others cells context security (mechanism_of client) (credentials_of client)
unfolding authorize_plain authorize_curve authorize_gssapi authorize_plain_via_zap
    authorize_curve_via_zap authorize_gssapi_via_zap
authorize-via_zap others cells context security (plain_client c) n h = rw (h, authorize_plain) refl
authorize-via_zap others cells context security (curve_client key) n h =
    rw (h, authorize_curve) refl
authorize-via_zap others cells context security (gssapi_client p) n h =
    rw (h, authorize_gssapi) refl

connect-bound :
    (r : Registry) (name : List ℕ) (n : ℕ) (p : InprocPeer)
    → inproc_endpoint r name ≡ some n
    → fits (r.endpoints n).binder_type p ≡ true
    → (connect_inproc r name p).1 ≡ ok (some n)
unfolding connect_inproc lookup inproc_endpoint
connect-bound r name n p h fit =
    rw (h, connect_inproc, lookup, add_peer-result (open_world r n) p, fit, ◌>>=◌) refl

pub via_zap-bound :
    (others : Others) (cells : Cells) (context : Context) (security : SecurityOptions)
    (client : Client) (n : ℕ)
    → inproc_endpoint context.registry zap_endpoint ≡ some n
    → fits_req (context.registry.endpoints n).binder_type ≡ true
    → (via_zap others cells context security (mechanism_of client) (credentials_of client)).1
      ≡ (wait_zap_reply (others (asked cells context security client n)).1 >>= accept_reply)
unfolding via_zap zap_dialogue next_transient_socket_id
via_zap-bound others cells context security client n h fit =
    rw
      (
        connect-bound context.registry zap_endpoint n (peer_of cells context.life.next_socket_id) h
            fit,
        via_zap,
      )
      refl
