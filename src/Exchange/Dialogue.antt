-- ===== src/Exchange/Dialogue.antt =====
-- From two new sockets to an answered request.
use libzmq_ru.Base.{find, ℕ, ◌≡◌, sym, ◌∙◌, subst, false, none, some, List, [], ◌++◌, ◌==◌}
use libzmq_ru.Base.Maps
use libzmq_ru.Context.Registry.{Registry}
use libzmq_ru.Exchange.{InprocSocket}
use libzmq_ru.Exchange.Connection.{inproc_scheme, peer_of}
use libzmq_ru.Exchange.Reply.{Answered, request-Answered}
use libzmq_ru.Exchange.Setup.{
  IsNewRequester, IsNewReplier, AreJoined, BindsFirst, ConnectsFirst, bind_first_joins,
  connect_first_joins,
}
use libzmq_ru.Inproc.Peers.{has_id}
use libzmq_ru.Message.{Message}
use libzmq_ru.Pattern.{ready_to_send, ready_to_recv}

joined-Answered :
    (r r' : Registry) (n : ℕ) (s s' b b' : InprocSocket) (m a : Message)
    → AreJoined r r' n s s' b b'
    → (b.inbox == s.inbox) ≡ false
    → (s.id == 0) ≡ false
    → s.pattern_state ≡ some ready_to_send
    → b.pattern_state ≡ some ready_to_recv
    → r.heap.queues b.inbox ≡ []
    → r.heap.queues s.inbox ≡ []
    → a.routing_id ≡ 0
    → Answered r' n s' b' m a
joined-Answered r r' n s s' b b' m a h apart named s_turn b_turn b_empty s_empty fresh =
    let (id_kept, s_inbox, s_state) = h.requester_kept in
    let (b_inbox, b_state) = h.replier_kept in
    let known =
      subst (λ i. find (has_id i) (r'.endpoints n).peers ≡ some (peer_of s)) (sym id_kept)
        h.known in
    request-Answered r' n s' b' m a (peer_of s) h.requester h.replier h.binder (h.own ∙ sym b_inbox)
      known (sym s_inbox) (rw (b_inbox, s_inbox) apart) (rw (id_kept) named) (s_state ∙ s_turn)
      (b_state ∙ b_turn) (rw (h.same_heap, b_inbox) b_empty) (rw (h.same_heap, s_inbox) s_empty)
      fresh

-- What the calls lead to, with `bind` first and with `connect` first.
abbrev pub NewSocketsAnswered : Registry → (b s : InprocSocket) → List ℕ → (m a : Message) → Type 0
NewSocketsAnswered r b s name m a =
    ((r' : Registry) × (s' : InprocSocket) × (b' : InprocSocket) × BindsFirst r r' s s' b b'
        (inproc_scheme ++ name)
      × Answered r' r.allocated s' b' m a)
    × ((r' : Registry) × (s' : InprocSocket) × (b' : InprocSocket) × ConnectsFirst r r' s s' b b'
          (inproc_scheme ++ name)
        × Answered r' r.allocated s' b' m a)

-- A new REP socket binds an inproc name that is free and that nobody waits for, and a new REQ
-- socket, which sends no hello, connects to it. In either order of the two calls both succeed, and
-- then a request of one part is answered as `Answered` says. Both sockets are at rest with empty
-- inboxes before, their inboxes differ, the id of the REQ socket is positive and fits in 32 bits,
-- neither conflates, and the REP socket has no connection.
pub new_sockets-Answered :
    (r : Registry) (b s : InprocSocket) (name : List ℕ) (m a : Message)
    → IsNewReplier b
    → IsNewRequester s
    → Maps.get r.inproc_endpoints name ≡ none
    → Maps.get r.pending_inproc name ≡ none
    → (b.inbox == s.inbox) ≡ false
    → (s.id == 0) ≡ false
    → s.pattern_state ≡ some ready_to_send
    → b.pattern_state ≡ some ready_to_recv
    → r.heap.queues b.inbox ≡ []
    → r.heap.queues s.inbox ≡ []
    → a.routing_id ≡ 0
    → NewSocketsAnswered r b s name m a
new_sockets-Answered r b s name m a hb hs free alone apart named s_turn b_turn b_empty s_empty
      fresh =
    let (r1, s1, b1, opened1, joined1) = bind_first_joins r b s name hb hs free alone in
    let (r2, s2, b2, opened2, joined2) = connect_first_joins r b s name hb hs free alone in
    (
      (
        r1,
        s1,
        b1,
        opened1,
        joined-Answered r r1 r.allocated s s1 b b1 m a joined1 apart named s_turn b_turn b_empty
            s_empty fresh,
      ),
      (
        r2,
        s2,
        b2,
        opened2,
        joined-Answered r r2 r.allocated s s2 b b2 m a joined2 apart named s_turn b_turn b_empty
            s_empty fresh,
      ),
    )
