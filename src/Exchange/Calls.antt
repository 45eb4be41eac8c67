-- ===== src/Exchange/Calls.antt =====
-- `bind` and `connect` at a free name, for a REP and a REQ socket.
use libzmq_ru.Base.{
  bytes_eq_refl, ℕ, ◌+◌, ◌≡◌, refl, Option, none, some, List, [], ◌∷◌, ◌++◌, ◌==◌, if◌then◌else◌,
  arith, bytes_eq,
}
use libzmq_ru.Base.Maps
use libzmq_ru.Base.Maps.{get-insert, get-remove}
use libzmq_ru.Context.Registry.{
  Registry, open_world, close_world, bind_inproc, connect_inproc, lookup, add_all, fresh_world,
}
use libzmq_ru.Error.{ok}
use libzmq_ru.Exchange.{InprocSocket}
use libzmq_ru.Exchange.Connection.{
  inproc_scheme, binder_outbox, bind, connect, bound, joined, inproc_name, binder_of, peer_of,
  send_inproc_hello_message, send_inproc_probe_router, send_inproc_lifecycle_message,
}
use libzmq_ru.Inproc.{World, InprocPeer, new}
use libzmq_ru.Inproc.Peers.{add_peer, replay_xsub_subscriptions, send_welcome_to_xsub}
use libzmq_ru.SocketType.{type_eq, code_of, req, rep, inproc_types_compatible}

-- A REQ peer is put behind the others.
req_added :
    (w : World) (p : InprocPeer)
    → p.socket_type ≡ req
    → w.endpoint.binder_type ≡ rep
    → add_peer w p
      ≡ (record w { endpoint = record w.endpoint { peers = w.endpoint.peers ++ (p ∷ []) } }, ok tt)
unfolding add_peer replay_xsub_subscriptions send_welcome_to_xsub inproc_types_compatible type_eq
    code_of
req_added w p h binder = rw (binder, add_peer, h) (ground (arith, h, binder))

pub named : (name : List ℕ) → inproc_name (inproc_scheme ++ name) ≡ some name
unfolding inproc_name bytes_eq
named name = refl

-- The registry after a REP socket binds a free name, with the peers that waited for it.
abbrev pub hosted : Registry → InprocSocket → List ℕ → List InprocPeer → Registry
hosted r b name peers = record r {
  endpoints = λ k.
      if k == r.allocated
      then record (fresh_world r (binder_of b)).endpoint { peers = peers }
      else r.endpoints k;
  allocated = r.allocated + 1;
  inproc_endpoints = Maps.insert r.inproc_endpoints name r.allocated;
  pending_inproc = Maps.remove r.pending_inproc name;
}

pub bind_alone :
    (r : Registry) (b : InprocSocket) (name : List ℕ)
    → Maps.get r.inproc_endpoints name ≡ none
    → Maps.get r.pending_inproc name ≡ none
    → bind_inproc r name (binder_of b) ≡ (hosted r b name [], ok r.allocated)
unfolding bind_inproc add_all Maps.contains_key new
bind_alone r b name free alone = ground (arith, free, alone)

pub bind_awaited :
    (r : Registry) (b : InprocSocket) (name : List ℕ) (p : InprocPeer)
    → b.socket_type ≡ rep
    → p.socket_type ≡ req
    → Maps.get r.inproc_endpoints name ≡ none
    → Maps.get r.pending_inproc name ≡ some (p ∷ [])
    → bind_inproc r name (binder_of b) ≡ (hosted r b name (p ∷ []), ok r.allocated)
unfolding bind_inproc add_all Maps.contains_key new
bind_awaited r b name p hb hp free waits =
    ground (arith, free, waits, req_added (fresh_world r (binder_of b)) p hp hb)

-- What a socket has after it binds or connects.
abbrev pub hosting : InprocSocket → List ℕ → ℕ → InprocSocket
hosting b name n = record b {
  bound_endpoint_name = some name;
  bound_endpoint = some n;
  last_endpoint = inproc_scheme ++ name;
}

abbrev pub visiting : InprocSocket → List ℕ → Option ℕ → InprocSocket
visiting s name outbox = record s {
  connected_endpoint = some name;
  direct_outbox = outbox;
  last_endpoint = inproc_scheme ++ name;
}

pub bind_result :
    (r r' : Registry) (b : InprocSocket) (name : List ℕ) (n : ℕ)
    → bind_inproc r name (binder_of b) ≡ (r', ok n)
    → bind (record { registry = r; socket = b }) (inproc_scheme ++ name)
      ≡ (record { registry = r'; socket = hosting b name n }, ok tt)
unfolding bind bound
bind_result r r' b name n h = rw (named name, bind, h) refl

no_words :
    (r : Registry) (s : InprocSocket) (name : List ℕ) (found : Option ℕ)
    → s.socket_type ≡ req
    → s.hello_msg ≡ []
    → joined s (inproc_scheme ++ name) name (r, ok found)
      ≡ (record { registry = r; socket = visiting s name (binder_outbox r found) }, ok tt)
unfolding joined send_inproc_probe_router send_inproc_hello_message send_inproc_lifecycle_message
    type_eq code_of
no_words r s name found h quiet = ground (arith, h, quiet)

pub connect_result :
    (r r' : Registry) (s : InprocSocket) (name : List ℕ) (found : Option ℕ)
    → s.socket_type ≡ req
    → s.hello_msg ≡ []
    → connect_inproc r name (peer_of s) ≡ (r', ok found)
    → connect (record { registry = r; socket = s }) (inproc_scheme ++ name)
      ≡ (record { registry = r'; socket = visiting s name (binder_outbox r' found) }, ok tt)
unfolding connect
connect_result r r' s name found h quiet done =
    rw (named name, connect, done) (no_words r' s name found h quiet)

pub found_name :
    (r : Registry) (name : List ℕ) (n : ℕ)
    → Maps.get (Maps.insert r.inproc_endpoints name n) name ≡ some n
found_name r name n = ground (arith, get-insert r.inproc_endpoints name n name, bytes_eq_refl name)

-- A REQ socket connects to an endpoint that has no other peers.
pub connect_hosted :
    (r : Registry) (b : InprocSocket) (name : List ℕ) (p : InprocPeer)
    → b.socket_type ≡ rep
    → p.socket_type ≡ req
    → (r2 : Registry) × (connect_inproc (hosted r b name []) name p ≡ (r2, ok (some r.allocated)))
      × (r2.heap ≡ r.heap)
      × (r2.inproc_endpoints ≡ (hosted r b name []).inproc_endpoints)
      × (r2.endpoints r.allocated
          ≡ record (fresh_world r (binder_of b)).endpoint { peers = p ∷ [] })
unfolding connect_inproc lookup new
connect_hosted r b name p hb hp =
    let added = req_added (open_world (hosted r b name []) r.allocated) p hp (ground (arith, hb)) in
    (
      close_world (hosted r b name []) r.allocated
          (add_peer (open_world (hosted r b name []) r.allocated) p).0,
      ground (arith, found_name r name r.allocated, added),
      ground (arith, added),
      refl,
      ground (arith, added),
    )
