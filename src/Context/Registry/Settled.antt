-- ===== src/Context/Registry/Settled.antt =====
-- A name has an endpoint or peers that wait for one, never both.
use libzmq_ru.Base.{
  ℕ, ◌≡◌, refl, ◌∙◌, Bool, true, false, not, ◌&&◌, ◌||◌, Option, none, some, List, [], ◌∷◌, ◌++◌,
  any, retain, arith, bytes_eq, bytes_eq_iff,
}
use libzmq_ru.Base.Maps
use libzmq_ru.Base.Maps.{Assoc, get-insert, get-remove}
use libzmq_ru.Context.Registry.{
  Registry, InprocBinder, bind_inproc, connect_inproc, unbind_inproc, disconnect_inproc, lookup,
  pend, fresh_world, peers_of, leave_endpoint, leave_pending,
}
use libzmq_ru.Context.Registry.Binding.{fits, add_all-result}
use libzmq_ru.Error.{ok, err, not_supported}
use libzmq_ru.Inproc.{InprocPeer, new}
use libzmq_ru.Inproc.Peers.{has_id}

-- Names are told apart by their bytes alone.
abbrev pub bound_and_waited : Registry → List ℕ → Bool
bound_and_waited r q =
    Maps.contains_key r.inproc_endpoints q && Maps.contains_key r.pending_inproc q

key-insert {ℓ} :
    {V : Type ℓ} (m : Assoc V) (k : List ℕ) (v : V) (j : List ℕ)
    → Maps.contains_key (Maps.insert m k v) j ≡ (bytes_eq k j || Maps.contains_key m j)
unfolding Maps.contains_key
key-insert m k v j = ground (arith, get-insert m k v j)

key-remove {ℓ} :
    {V : Type ℓ} (m : Assoc V) (k j : List ℕ)
    → Maps.contains_key (Maps.remove m k) j ≡ (not (bytes_eq k j) && Maps.contains_key m j)
unfolding Maps.contains_key
key-remove m k j = ground (arith, get-remove m k j)

key-get {ℓ} :
    {V : Type ℓ} (m : Assoc V) (k : List ℕ) → Maps.get m k ≡ none → Maps.contains_key m k ≡ false
unfolding Maps.contains_key
key-get m k h = rw (h, Maps.contains_key) refl

pub data Request : Type 0 where
  binds : List ℕ → InprocBinder → Request
  connects : List ℕ → InprocPeer → Request
  unbinds : List ℕ → Request
  disconnects : List ℕ → ℕ → Request

abbrev pub after_request : Registry → Request → Registry
after_request r (binds name b) = (bind_inproc r name b).0
after_request r (connects name p) = (connect_inproc r name p).0
after_request r (unbinds name) = (unbind_inproc r name).0
after_request r (disconnects name id) = (disconnect_inproc r name id).0

abbrev pub after_requests : Registry → List Request → Registry
after_requests r [] = r
after_requests r (request ∷ requests) = after_requests (after_request r request) requests

key_some {ℓ} :
    {V : Type ℓ} (m : Assoc V) (k : List ℕ) {v : V}
    → Maps.get m k ≡ some v
    → Maps.contains_key m k ≡ true
unfolding Maps.contains_key
key_some m k h = rw (h, Maps.contains_key) refl

leave_endpoint-settled :
    (r : Registry) (found : Option ℕ) (id : ℕ) (q : List ℕ)
    → bound_and_waited (leave_endpoint r found id).0 q ≡ bound_and_waited r q
unfolding leave_endpoint
leave_endpoint-settled r none id q = refl
leave_endpoint-settled r (some n) id q = refl

leave_pending-settled :
    (r : Registry) (name : List ℕ) (waiting : Option (List InprocPeer)) (id : ℕ) (q : List ℕ)
    → Maps.get r.pending_inproc name ≡ waiting
    → bound_and_waited r q ≡ false
    → bound_and_waited (leave_pending r name waiting id).0 q ≡ false
unfolding leave_pending
leave_pending-settled r name none id q known h = h
leave_pending-settled r name (some peers) id q known h =
    let left = retain (λ p. not (has_id id p)) peers in
    ground (
      arith,
      key_some r.pending_inproc name known,
      key-insert r.pending_inproc name left q,
      key-remove r.pending_inproc name q,
      bytes_eq_iff name q,
    )

request_settled :
    (r : Registry) (request : Request) (q : List ℕ)
    → bound_and_waited r q ≡ false
    → bound_and_waited (after_request r request) q ≡ false
unfolding bind_inproc connect_inproc unbind_inproc disconnect_inproc lookup pend leave_endpoint
    leave_pending
request_settled r (binds name b) q h =
    ground
      (arith, key-insert r.inproc_endpoints name r.allocated q, key-remove r.pending_inproc name q)
request_settled r (connects name p) q h =
    let peers = peers_of (Maps.get r.pending_inproc name) ++ (p ∷ []) in
    ground (
      arith,
      key-get r.inproc_endpoints name,
      key-insert r.pending_inproc name peers q,
      bytes_eq_iff name q,
    )
request_settled r (unbinds name) q h = ground (arith, key-remove r.inproc_endpoints name q)
request_settled r (disconnects name id) q h =
    let r1 = (leave_endpoint r (Maps.get r.inproc_endpoints name) id).0 in
    leave_pending-settled r1 name (Maps.get r1.pending_inproc name) id q refl
      (leave_endpoint-settled r (Maps.get r.inproc_endpoints name) id q ∙ h)

-- A name that is not at once bound and waited for never comes to be so, whatever sockets bind,
-- connect, unbind and disconnect, as long as each of these operations is done in one piece: no
-- peer waits for a name that is bound.
pub requests_settled :
    (r : Registry) (requests : List Request) (q : List ℕ)
    → bound_and_waited r q ≡ false
    → bound_and_waited (after_requests r requests) q ≡ false
requests_settled r [] q h = h
requests_settled r (request ∷ requests) q h =
    requests_settled (after_request r request) requests q (request_settled r request q h)

-- But `connect_inproc` lets go of the first lock before it takes the second: if the name is bound
-- in between, by a bind that succeeds, the peer ends up waiting for a name that is bound.
pub bind_between_strands :
    (r : Registry) (name : List ℕ) (b : InprocBinder) (p : InprocPeer) (n : ℕ)
    → lookup r name ≡ none
    → (bind_inproc r name b).1 ≡ ok n
    → (Maps.get (pend (bind_inproc r name b).0 name p).pending_inproc name ≡ some (p ∷ []))
      × (lookup (pend (bind_inproc r name b).0 name p) name ≡ some n)
unfolding lookup pend bind_inproc
bind_between_strands r name b p n missing bound = ground (
  arith,
  get-insert r.inproc_endpoints name r.allocated name,
  get-remove r.pending_inproc name name,
  get-insert (Maps.remove r.pending_inproc name) name (p ∷ []) name,
  bytes_eq_iff name name,
)

-- Binding a name that is not bound fails if the type of some waiting peer does not fit, as not
-- supported; the name stays unbound, and all the peers that waited for it are gone, those that fit
-- as well.
pub misfit_fails_bind :
    (r : Registry) (name : List ℕ) (b : InprocBinder)
    → Maps.contains_key r.inproc_endpoints name ≡ false
    → any (λ p. not (fits b.socket_type p)) (peers_of (Maps.get r.pending_inproc name)) ≡ true
    → ((bind_inproc r name b).1 ≡ err not_supported)
      × (lookup (bind_inproc r name b).0 name ≡ none)
      × (Maps.get (bind_inproc r name b).0.pending_inproc name ≡ none)
unfolding lookup bind_inproc Maps.contains_key new
misfit_fails_bind r name b fresh misfit = ground (
  arith,
  add_all-result (peers_of (Maps.get r.pending_inproc name)) (fresh_world r b),
  get-remove r.pending_inproc name name,
  bytes_eq_iff name name,
)
