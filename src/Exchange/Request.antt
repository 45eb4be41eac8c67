-- ===== src/Exchange/Request.antt =====
-- What a REQ socket sends over an inproc endpoint.
use libzmq_ru.Exchange.Direct.{
  IsRequester, Direct, req-Direct, connection, no_reply_id, routed_by_id, req_is_not_rep,
  rep_is_addressed, send_direct,
}
use libzmq_ru.Base.{subst, ℕ, ◌%◌, ◌^◌, ◌≡◌, refl, ap, sym, ◌∙◌, false, some, [], ◌∷◌, arith}
use libzmq_ru.Context.Registry.{Registry}
use libzmq_ru.Error.{ok}
use libzmq_ru.Exchange.{
  addressed, Exchange, InprocSocket, pattern_of, push, apply_outgoing_routing_id,
  apply_reply_routing_id, after_send,
}
use libzmq_ru.Exchange.Send.{send, resolve_outboxes}
use libzmq_ru.Inproc.{binder_accepts, socket_type_accepts_message}
use libzmq_ru.Message.{Message, set_more, set_routing_id, len}
use libzmq_ru.Pattern.{
  ready_to_send, ready_to_recv, ensure_can_send_for_pattern, after_pattern_send, set_pattern_state,
}
use libzmq_ru.SocketType.{type_eq, code_of, req, rep}

req_may_send :
    (s : InprocSocket)
    → s.socket_type ≡ req
    → s.pattern_state ≡ some ready_to_send
    → ensure_can_send_for_pattern (pattern_of s) ≡ ok tt
unfolding ensure_can_send_for_pattern type_eq code_of
req_may_send s h turn = rw (h, turn) refl

request_route :
    (r : Registry) (n : ℕ) (s : InprocSocket) (m : Message)
    → IsRequester r n s
    → (r.endpoints n).binder_type ≡ rep
    → let x : Exchange = record { registry = r; socket = s } in
      apply_outgoing_routing_id x (apply_reply_routing_id x (set_more m false))
      ≡ set_routing_id (set_more m false) s.id
request_route r n s m h binder =
    let x : Exchange = record { registry = r; socket = s } in
    let m' = set_more m false in
    let same : s.id % 2 ^ 32 ≡ s.id = omega (arith, h.id_fits) in
    ap (apply_outgoing_routing_id x)
      (no_reply_id x m' (ap (λ t. type_eq t rep) h.type ∙ req_is_not_rep))
    ∙ routed_by_id x m' n (connection r n s h) (ap addressed binder ∙ rep_is_addressed)
    ∙ ap (set_routing_id m') same

request_box :
    (r : Registry) (n : ℕ) (s : InprocSocket) (m : Message)
    → IsRequester r n s
    → (r.endpoints n).binder_type ≡ rep
    → let x : Exchange = record { registry = r; socket = s } in
      resolve_outboxes x m ≡ (x, ok ((r.endpoints n).binder_inbox ∷ []))
unfolding resolve_outboxes binder_accepts socket_type_accepts_message
request_box r n s m h binder = rw (connection r n s h, resolve_outboxes, binder) refl

request_turn :
    (x : Exchange) (size : ℕ)
    → x.socket.socket_type ≡ req
    → x.socket.pattern_state ≡ some ready_to_send
    → after_send x false size
      ≡ (record x { socket = record x.socket { pattern_state = some ready_to_recv } }, ok size)
unfolding after_send after_pattern_send set_pattern_state type_eq code_of
request_turn x size h turn = rw (h, turn) refl

-- A REQ socket sends to the inbox of the endpoint, with its own id.
pub request_sent :
    (r : Registry) (n : ℕ) (s : InprocSocket) (m : Message)
    → IsRequester r n s
    → s.pattern_state ≡ some ready_to_send
    → (r.endpoints n).binder_type ≡ rep
    → r.heap.queues (r.endpoints n).binder_inbox ≡ []
    → let x : Exchange = record { registry = r; socket = s } in
      send x m false ≡ (
        push
            (record x { socket = record s { pattern_state = some ready_to_recv } })
            (r.endpoints n).binder_inbox
            (set_routing_id (set_more m false) s.id),
        ok (len m),
      )
unfolding set_routing_id after_send set_more
request_sent r n s m h turn binder empty =
    let x : Exchange = record { registry = r; socket = s } in
    let routed = set_routing_id (set_more m false) s.id in
    let q = (r.endpoints n).binder_inbox in
    send_direct x m routed false q (subst Direct (sym h.type) req-Direct)
      (req_may_send s h.type turn) (request_route r n s m h binder)
      (request_box r n s routed h binder) h.no_conflate empty
    ∙ request_turn (push x q routed) (len m) h.type turn
