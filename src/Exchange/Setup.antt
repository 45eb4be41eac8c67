-- ===== src/Exchange/Setup.antt =====
-- A REP socket binds an endpoint and a REQ socket connects to it, in either order, from a registry
-- where the name is free: what they have then is what a request and its reply need.
use libzmq_ru.Base.{
  bytes_eq_refl, ℕ, ◌^◌, ◌<◌, ◌≡◌, refl, ap, ◌∙◌, false, Option, none, some, List, [], ◌∷◌, ◌++◌,
  find, arith,
}
use libzmq_ru.Base.Maps
use libzmq_ru.Base.Maps.{get-insert, get-remove}
use libzmq_ru.Context.Registry.{
  Registry, inproc_endpoint, connect_inproc, lookup, pend, fresh_world,
}
use libzmq_ru.Error.{ok}
use libzmq_ru.Exchange.{InprocSocket}
use libzmq_ru.Exchange.Connection.{inproc_scheme, binder_outbox, bind, connect, binder_of, peer_of}
use libzmq_ru.Exchange.Calls.{
  hosted, hosting, visiting, bind_alone, bind_awaited, bind_result, connect_result, found_name,
  connect_hosted,
}
use libzmq_ru.Exchange.Direct.{IsRequester, IsReplier}
use libzmq_ru.Inproc.{InprocPeer, new}
use libzmq_ru.Inproc.Peers.{has_id}
use libzmq_ru.SocketType.{req, rep}

-- A new REQ socket, and a new REP socket.
pub record IsNewRequester (s : InprocSocket) : Type 0 where
  pub type : s.socket_type ≡ req
  pub no_hello : s.hello_msg ≡ []
  pub no_conflate : s.conflate ≡ false
  pub id_fits : s.id < 2 ^ 32

pub record IsNewReplier (b : InprocSocket) : Type 0 where
  pub type : b.socket_type ≡ rep
  pub unconnected : b.connected_endpoint ≡ none
  pub no_outbox : b.direct_outbox ≡ none
  pub no_conflate : b.conflate ≡ false

-- What the two sockets and the registry are then.
pub record AreJoined (r r' : Registry) (n : ℕ) (s s' b b' : InprocSocket) : Type 0 where
  pub requester : IsRequester r' n s'
  pub replier : IsReplier n b'
  pub same_heap : r'.heap ≡ r.heap
  pub binder : (r'.endpoints n).binder_type ≡ rep
  pub own : (r'.endpoints n).binder_inbox ≡ b.inbox
  pub known : find (has_id s.id) (r'.endpoints n).peers ≡ some (peer_of s)
  pub requester_kept : (s'.id ≡ s.id) × (s'.inbox ≡ s.inbox) × (s'.pattern_state ≡ s.pattern_state)
  pub replier_kept : (b'.inbox ≡ b.inbox) × (b'.pattern_state ≡ b.pattern_state)

-- The two orders of the calls, all accepted, from `r` to `r'`.
abbrev pub BindsFirst : (r r' : Registry) (s s' b b' : InprocSocket) (endpoint : List ℕ) → Type 0
BindsFirst r r' s s' b b' endpoint =
    (r1 : Registry) × (bind (record { registry = r; socket = b }) endpoint
      ≡ (record { registry = r1; socket = b' }, ok tt))
    × (connect (record { registry = r1; socket = s }) endpoint
        ≡ (record { registry = r'; socket = s' }, ok tt))

abbrev pub ConnectsFirst : (r r' : Registry) (s s' b b' : InprocSocket) (endpoint : List ℕ) → Type 0
ConnectsFirst r r' s s' b b' endpoint =
    (r1 : Registry) × (connect (record { registry = r; socket = s }) endpoint
      ≡ (record { registry = r1; socket = s' }, ok tt))
    × (bind (record { registry = r1; socket = b }) endpoint
        ≡ (record { registry = r'; socket = b' }, ok tt))

hosting-IsReplier :
    (b : InprocSocket) (name : List ℕ) (n : ℕ) → IsNewReplier b → IsReplier n (hosting b name n)
hosting-IsReplier b name n h = record {
  type = h.type;
  bound = refl;
  unconnected = h.unconnected;
  no_outbox = h.no_outbox;
  no_conflate = h.no_conflate;
}

visiting-IsRequester :
    (r : Registry) (s : InprocSocket) (name : List ℕ) (n : ℕ) (outbox : Option ℕ)
    → IsNewRequester s
    → Maps.get r.inproc_endpoints name ≡ some n
    → IsRequester r n (visiting s name outbox)
unfolding inproc_endpoint
visiting-IsRequester r s name n outbox h found = record {
  type = h.type;
  place = (name, refl, found);
  no_conflate = h.no_conflate;
  id_fits = h.id_fits;
}

-- The endpoint of a REP socket with one peer.
one_peer :
    (r r' : Registry) (b : InprocSocket) (s : InprocSocket) (n : ℕ)
    → b.socket_type ≡ rep
    → r'.endpoints n ≡ record (fresh_world r (binder_of b)).endpoint { peers = peer_of s ∷ [] }
    → ((r'.endpoints n).binder_type ≡ rep)
      × ((r'.endpoints n).binder_inbox ≡ b.inbox)
      × (find (has_id s.id) (r'.endpoints n).peers ≡ some (peer_of s))
unfolding new find
one_peer r r' b s n hb e = (
  ap (λ e. e.binder_type) e ∙ hb,
  ap (λ e. e.binder_inbox) e,
  ap (λ e. find (has_id s.id) e.peers) e ∙ ground arith,
)

pub bind_first_joins :
    (r : Registry) (b s : InprocSocket) (name : List ℕ)
    → IsNewReplier b
    → IsNewRequester s
    → Maps.get r.inproc_endpoints name ≡ none
    → Maps.get r.pending_inproc name ≡ none
    → (r' : Registry) × (s' : InprocSocket) × (b' : InprocSocket) × BindsFirst r r' s s' b b'
        (inproc_scheme ++ name)
      × AreJoined r r' r.allocated s s' b b'
bind_first_joins r b s name hb hs free alone =
    let (r2, joins, same, names, peers) = connect_hosted r b name (peer_of s) hb.type hs.type in
    let (binder, own, known) = one_peer r r2 b s r.allocated hb.type peers in
    (
      r2,
      visiting s name (binder_outbox r2 (some r.allocated)),
      hosting b name r.allocated,
      (
        hosted r b name [],
        bind_result r (hosted r b name []) b name r.allocated (bind_alone r b name free alone),
        connect_result (hosted r b name []) r2 s name (some r.allocated) hs.type hs.no_hello joins,
      ),
      record {
        requester =
            visiting-IsRequester r2 s name r.allocated _ hs
              (ap (λ m. Maps.get m name) names ∙ found_name r name r.allocated);
        replier = hosting-IsReplier b name r.allocated hb;
        same_heap = same;
        binder = binder;
        own = own;
        known = known;
        requester_kept = (refl, refl, refl);
        replier_kept = (refl, refl);
      },
    )

connect_unbound :
    (r : Registry) (name : List ℕ) (p : InprocPeer)
    → Maps.get r.inproc_endpoints name ≡ none
    → connect_inproc r name p ≡ (pend r name p, ok none)
unfolding connect_inproc lookup
connect_unbound r name p free = ground (arith, free)

pending_one :
    (r : Registry) (name : List ℕ) (p : InprocPeer)
    → Maps.get r.pending_inproc name ≡ none
    → Maps.get (pend r name p).pending_inproc name ≡ some (p ∷ [])
unfolding pend
pending_one r name p alone =
    ground (arith, alone, get-insert r.pending_inproc name (p ∷ []) name, bytes_eq_refl name)

pend_rest :
    (r : Registry) (name : List ℕ) (p : InprocPeer)
    → ((pend r name p).inproc_endpoints ≡ r.inproc_endpoints)
      × ((pend r name p).allocated ≡ r.allocated)
      × ((pend r name p).heap ≡ r.heap)
unfolding pend
pend_rest r name p = (refl, refl, refl)

own_endpoint :
    (r : Registry) (b : InprocSocket) (name : List ℕ) (p : InprocPeer)
    → (hosted r b name (p ∷ [])).endpoints r.allocated
      ≡ record (fresh_world r (binder_of b)).endpoint { peers = p ∷ [] }
own_endpoint r b name p = ground arith

pub connect_first_joins :
    (r : Registry) (b s : InprocSocket) (name : List ℕ)
    → IsNewReplier b
    → IsNewRequester s
    → Maps.get r.inproc_endpoints name ≡ none
    → Maps.get r.pending_inproc name ≡ none
    → (r' : Registry) × (s' : InprocSocket) × (b' : InprocSocket) × ConnectsFirst r r' s s' b b'
        (inproc_scheme ++ name)
      × AreJoined r r' r.allocated s s' b b'
unfolding pend
connect_first_joins r b s name hb hs free alone =
    let r1 = pend r name (peer_of s) in
    let r2 = hosted r1 b name (peer_of s ∷ []) in
    let (binder, own, known) =
      one_peer r1 r2 b s r.allocated hb.type (own_endpoint r1 b name (peer_of s)) in
    (
      r2,
      visiting s name none,
      hosting b name r.allocated,
      (
        r1,
        connect_result r r1 s name none hs.type hs.no_hello
            (connect_unbound r name (peer_of s) free),
        bind_result r1 r2 b name r.allocated (
            bind_awaited r1 b name (peer_of s) hb.type hs.type free
              (pending_one r name (peer_of s) alone)),
      ),
      record {
        requester =
            visiting-IsRequester r2 s name r.allocated _ hs (found_name r1 name r.allocated);
        replier = hosting-IsReplier b name r.allocated hb;
        same_heap = refl;
        binder = binder;
        own = own;
        known = known;
        requester_kept = (refl, refl, refl);
        replier_kept = (refl, refl);
      },
    )
