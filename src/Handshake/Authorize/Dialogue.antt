-- ===== src/Handshake/Authorize/Dialogue.antt =====
-- The dialogue with the handler of ZAP requests.
use libzmq_ru.Handshake.Authorize.Asking.{
  data_of-framed, found, wait_loop-collects, Client, authorize, mechanism_of, credentials_of,
  request_from, peer_of, asked, fits_req, authorize-via_zap, via_zap-bound,
}
use libzmq_ru.Base.{
  ◌&&◌, not, Bool, ℕ, ◌%◌, ◌^◌, ◌≡◌, refl, ap, sym, ◌∙◌, true, false, some, List, [], ◌∷◌, ◌++◌,
  map, if◌then◌else◌, ◌==◌, arith, Bool-cases, inl, inr,
}
use mathlib.Core.List.{append_assoc, append-nil}
use libzmq_ru.Context.Registry.{Registry, connect_inproc, inproc_endpoint, open_world, lookup}
use libzmq_ru.Security.{SecurityOptions}
use libzmq_ru.Context.{next_transient_socket_id}
use libzmq_ru.Context.Registry.Binding.{add_peer-result, fits}
use libzmq_ru.Error.{not_supported, Result, ok, err, ◌>>=◌, step_succeeds}
use libzmq_ru.Handshake.Authorize.{
  set_routing_id, set_more, Context, Others, Cells, zap_messages, push_all, send_zap_request,
  wait_zap_reply, accept_reply, starts_with_2, via_zap, zap_endpoint,
}
use libzmq_ru.Inproc.{InprocPeer, World, push_to}
use libzmq_ru.Message.{set_more, set_routing_id, Message, data_of}
use libzmq_ru.Zap.{ZapRequest, ZapReply, encode_request, encode_reply, decode_request}
use libzmq_ru.Zap.RoundTrip.{IsRequest, IsReply, zap_codecs}

-- Where a handler is bound that a requester may connect to, the options decide nothing: whatever
-- mechanism the client uses, it is let in exactly as the reply says that comes in time, whose
-- frames may be found with pauses between them and with other messages behind them.
pub reply_decides :
    (others : Others) (cells : Cells) (context : Context) (security : SecurityOptions)
    (client : Client) (n id : ℕ) (reply : ZapReply) (later : List Message)
    → inproc_endpoint context.registry zap_endpoint ≡ some n
    → fits_req (context.registry.endpoints n).binder_type ≡ true
    → found (others (asked cells context security client n)).1
      ≡ zap_messages id (encode_reply reply) ++ later
    → IsReply reply
    → (authorize others cells context security client).1 ≡ accept_reply reply
unfolding wait_zap_reply encode_reply
reply_decides others cells context security client n id reply later h fit answer valid =
    let looks = (others (asked cells context security client n)).1 in
    let waited : wait_zap_reply looks ≡ ok reply =
      wait_loop-collects id looks _ _ [] later answer
      ∙ (zap_codecs (encode_reply reply) (request_from context security client) reply).1.1
          (refl, valid) in
    rw
      (
        authorize-via_zap others cells context security client n h,
        via_zap-bound others cells context security client n h fit,
        waited,
        ◌>>=◌,
      )
      refl

connect-misfit :
    (r : Registry) (name : List ℕ) (n : ℕ) (p : InprocPeer)
    → inproc_endpoint r name ≡ some n
    → fits (r.endpoints n).binder_type p ≡ false
    → (connect_inproc r name p).1 ≡ err not_supported
unfolding connect_inproc lookup inproc_endpoint
connect-misfit r name n p h misfit =
    rw (h, connect_inproc, lookup, add_peer-result (open_world r n) p, misfit, ◌>>=◌) refl

via_zap-misfit :
    (others : Others) (cells : Cells) (context : Context) (security : SecurityOptions)
    (client : Client) (n : ℕ)
    → inproc_endpoint context.registry zap_endpoint ≡ some n
    → fits_req (context.registry.endpoints n).binder_type ≡ false
    → (via_zap others cells context security (mechanism_of client) (credentials_of client)).1
      ≡ err not_supported
unfolding next_transient_socket_id via_zap
via_zap-misfit others cells context security client n h misfit =
    rw
      (
        connect-misfit context.registry zap_endpoint n (peer_of cells context.life.next_socket_id) h
            misfit,
        via_zap,
      )
      refl

accepted : (reply : ZapReply) → accept_reply reply ≡ ok tt → starts_with_2 reply.status_code ≡ true
unfolding accept_reply
accepted reply h = ground (arith, h)

-- A reply was put together from what the call found, and its status code starts with 2.
abbrev pub Granted : Others → Cells → Context → SecurityOptions → Client → ℕ → Type 0
Granted others cells context security client n =
    (reply : ZapReply) × (wait_zap_reply (others (asked cells context security client n)).1
      ≡ ok reply)
    × (starts_with_2 reply.status_code ≡ true)

-- Where a handler is bound, no client is let in unless a reply was put together from the inbox
-- whose status code starts with 2.
pub entry_needs_reply :
    (others : Others) (cells : Cells) (context : Context) (security : SecurityOptions)
    (client : Client) (n : ℕ)
    → inproc_endpoint context.registry zap_endpoint ≡ some n
    → (authorize others cells context security client).1 ≡ ok tt
    → Granted others cells context security client n
entry_needs_reply others cells context security client n h granted =
    let same =
      ap (λ (x : Context × Result (Unit {0})). x.1)
        (authorize-via_zap others cells context security client n h) in
    elim (Bool-cases (fits_req (context.registry.endpoints n).binder_type)) [
      | inl fit ↦
          let chain =
            sym (via_zap-bound others cells context security client n h fit) ∙ sym same ∙ granted in
          let (reply, waited, rest) = step_succeeds _ accept_reply chain in
          (reply, waited, accepted reply rest)
      | inr misfit ↦
          absurd
            (cc (via_zap-misfit others cells context security client n h misfit, same, granted))
    ]

zap_messages-data_of :
    (id : ℕ) (frames : List (List ℕ)) → map data_of (zap_messages id frames) ≡ frames
unfolding zap_messages
zap_messages-data_of id [] = refl
zap_messages-data_of id (frame ∷ []) = ap (λ x. x ∷ []) (data_of-framed frame (id % 2 ^ 32) false)
zap_messages-data_of id (frame ∷ next ∷ rest) =
    cc (data_of-framed frame (id % 2 ^ 32) true, zap_messages-data_of id (next ∷ rest))

push_all-queues :
    (ms : List Message) (w : World) (q x : ℕ)
    → (push_all w q ms).heap.queues x ≡ (if q == x then w.heap.queues x ++ ms else w.heap.queues x)
unfolding push_to
push_all-queues [] w q x = ground (arith, append-nil (w.heap.queues x))
push_all-queues (m ∷ ms) w q x =
    ground
      (arith, push_all-queues ms (push_to w q m) q x, append_assoc (w.heap.queues x) (m ∷ []) ms)

-- One message in parts, as a peer sends it: all parts but the last say that more follows, and each
-- has the id of the peer.
abbrev pub is_multipart : ℕ → List Message → Bool
is_multipart id [] = false
is_multipart id (m ∷ []) = not m.more && m.routing_id == id
is_multipart id (m ∷ next ∷ rest) = m.more && m.routing_id == id && is_multipart id (next ∷ rest)

zap_messages-is_multipart :
    (id : ℕ) (frame : List ℕ) (frames : List (List ℕ))
    → is_multipart (id % 2 ^ 32) (zap_messages id (frame ∷ frames)) ≡ true
unfolding zap_messages set_more set_routing_id
zap_messages-is_multipart id frame [] = ground arith
zap_messages-is_multipart id frame (next ∷ []) = ground arith
zap_messages-is_multipart id frame (next ∷ last ∷ rest) =
    ground (arith, zap_messages-is_multipart id next (last ∷ rest))

abbrev pub Arrived : World → ℕ → ZapRequest → ℕ → Type 0
Arrived w id request q =
    (ms : List Message) × ((send_zap_request w id (encode_request request)).heap.queues q
      ≡ (if w.endpoint.binder_inbox == q then w.heap.queues q ++ ms else w.heap.queues q))
    × (is_multipart (id % 2 ^ 32) ms ≡ true)
    × (decode_request (map data_of ms) ≡ ok request)

-- A request lies in the binder's inbox behind what was there, as one message in parts from the
-- peer: every part but the last says that more follows, each has the peer's id, and their data
-- decode to the request. No other queue has changed.
pub request_arrives :
    (w : World) (id : ℕ) (request : ZapRequest) (q : ℕ) → IsRequest request → Arrived w id request q
unfolding send_zap_request encode_request
request_arrives w id request q valid =
    let ms = zap_messages id (encode_request request) in
    (
      ms,
      push_all-queues ms w w.endpoint.binder_inbox q,
      zap_messages-is_multipart id _ _,
      rw (zap_messages-data_of id (encode_request request)) (decoded request valid),
    )
  where
    decoded : (r : ZapRequest) → IsRequest r → decode_request (encode_request r) ≡ ok r
    decoded r v =
        (zap_codecs (encode_request r) r (record {
          version = [];
          request_id = [];
          status_code = [];
          status_text = [];
          user_id = [];
          metadata = [];
        })).0.1
          (refl, v)
