-- ===== src/Context/Registry/Order.antt =====
-- Whether a socket binds or its peer connects first makes no difference.
use libzmq_ru.Base.{
  ℕ, ◌+◌, ◌≡◌, refl, ap, sym, subst, ◌∙◌, true, false, Option, none, some, List, [], ◌∷◌, ◌++◌,
  ◌==◌, if◌then◌else◌, arith, bytes_eq_iff,
}
use libzmq_ru.Base.Maps
use libzmq_ru.Base.Maps.{Assoc, get-insert}
use libzmq_ru.Context.Registry.{
  new, Registry, InprocBinder, add_all, bind_inproc, connect_inproc, lookup, pend, fresh_world,
  peers_of, open_world, close_world,
}
use libzmq_ru.Context.Registry.Binding.{
  fits, add_peer-result, add_peer-type, add_all-append, add_all_step,
}
use libzmq_ru.Error.{Result, ok, ◌>>=◌}
use libzmq_ru.Inproc.{World, InprocPeer, new}
use libzmq_ru.Inproc.Peers.{add_peer}

-- The registry once an endpoint is bound, with the world that the loop over its peers left.
abbrev pub bound_registry : Registry → List ℕ → World → Registry
bound_registry r name w = record r {
  heap = w.heap;
  endpoints = λ k. if k == r.allocated then w.endpoint else r.endpoints k;
  allocated = r.allocated + 1;
  inproc_endpoints = Maps.insert r.inproc_endpoints name r.allocated;
  pending_inproc = Maps.remove r.pending_inproc name;
}

abbrev pub waiting : Registry → List ℕ → List InprocPeer
waiting r name = peers_of (Maps.get r.pending_inproc name)

pub bind_succeeds :
    (r : Registry) (name : List ℕ) (b : InprocBinder) (u : Unit {0})
    → Maps.contains_key r.inproc_endpoints name ≡ false
    → (add_all (fresh_world r b) (waiting r name)).1 ≡ ok u
    → bind_inproc r name b
      ≡ (bound_registry r name (add_all (fresh_world r b) (waiting r name)).0, ok r.allocated)
unfolding bind_inproc
bind_succeeds r name b u fresh added = rw (fresh, added, bind_inproc) refl

connect_known :
    (r : Registry) (name : List ℕ) (p : InprocPeer) {n : ℕ}
    → Maps.get r.inproc_endpoints name ≡ some n
    → connect_inproc r name p ≡ (
      close_world r n (add_peer (open_world r n) p).0,
      (add_peer (open_world r n) p).1 >>= λ _. ok (some n),
    )
unfolding connect_inproc lookup
connect_known r name p found = rw (found, connect_inproc) refl

connect_unknown :
    (r : Registry) (name : List ℕ) (p : InprocPeer)
    → Maps.get r.inproc_endpoints name ≡ none
    → connect_inproc r name p ≡ (pend r name p, ok none)
unfolding connect_inproc lookup
connect_unknown r name p missing = rw (missing, connect_inproc) refl

remove-insert {ℓ} :
    {V : Type ℓ} (m : Assoc V) (k : List ℕ) (v : V)
    → Maps.remove (Maps.insert m k v) k ≡ Maps.remove m k
unfolding Maps.remove Maps.insert
remove-insert [] k v = ground (arith, bytes_eq_iff k k)
remove-insert ((j, w) ∷ m) k v = ground (arith, remove-insert m k v)

get_inserted {ℓ} :
    {V : Type ℓ} (m : Assoc V) (k : List ℕ) (v : V) → Maps.get (Maps.insert m k v) k ≡ some v
get_inserted m k v = ground (arith, get-insert m k v k, bytes_eq_iff k k)

missing_key {ℓ} :
    {V : Type ℓ} (m : Assoc V) (k : List ℕ) → Maps.contains_key m k ≡ false → Maps.get m k ≡ none
unfolding Maps.contains_key
missing_key m k h = ground arith

same_number : (n : ℕ) → (n == n) ≡ true
same_number n = ground arith

reopen :
    (r : Registry) (name : List ℕ) (w : World)
    → open_world (bound_registry r name w) r.allocated ≡ w
reopen r name w = rw (same_number r.allocated) refl

-- The registries that agree in all that an operation can observe.
pub record SameRegistry (r s : Registry) : Type 0 where
  pub heap : r.heap ≡ s.heap
  pub endpoints : (k : ℕ) → r.endpoints k ≡ s.endpoints k
  pub allocated : r.allocated ≡ s.allocated
  pub names : r.inproc_endpoints ≡ s.inproc_endpoints
  pub pending : r.pending_inproc ≡ s.pending_inproc

abbrev connects_first : Registry → List ℕ → InprocBinder → InprocPeer → Registry × Result ℕ
connects_first r name b p = bind_inproc (connect_inproc r name p).0 name b

abbrev binds_first : Registry → List ℕ → InprocBinder → InprocPeer → Registry × Result (Option ℕ)
binds_first r name b p = connect_inproc (bind_inproc r name b).0 name p

abbrev pub OrderIrrelevant : Registry → List ℕ → InprocBinder → InprocPeer → Type 0
OrderIrrelevant r name b p =
    ((connects_first r name b p).1 ≡ ok r.allocated)
    × ((binds_first r name b p).1 ≡ ok (some r.allocated))
    × SameRegistry (connects_first r name b p).0 (binds_first r name b p).0

module _ (r : Registry) (name : List ℕ) (b : InprocBinder) (p : InprocPeer)
    (fresh : Maps.contains_key r.inproc_endpoints name ≡ false)
    (added : (add_all (fresh_world r b) (waiting r name)).1 ≡ ok tt)
    (passed : (add_peer (add_all (fresh_world r b) (waiting r name)).0 p).1 ≡ ok tt) where
  -- The endpoint with the waiting peers, and with the new one.
  abbrev before_peer : World
  before_peer = (add_all (fresh_world r b) (waiting r name)).0

  abbrev with_peer : World
  with_peer = (add_peer before_peer p).0

  waits_last : waiting (pend r name p) name ≡ waiting r name ++ (p ∷ [])
  unfolding pend
  waits_last = ap peers_of (get_inserted r.pending_inproc name (waiting r name ++ (p ∷ [])))

  all_added : add_all (fresh_world r b) (waiting r name ++ (p ∷ [])) ≡ (with_peer, ok tt)
  all_added =
      add_all-append (waiting r name) (fresh_world r b) p added
      ∙ add_all_step before_peer p [] passed
      ∙ (unfold add_all in refl)

  late_bind :
      connects_first r name b p ≡ (bound_registry (pend r name p) name with_peer, ok r.allocated)
  unfolding pend
  late_bind =
      let step = connect_unknown r name p (missing_key r.inproc_endpoints name fresh) in
      let loop : add_all (fresh_world (pend r name p) b) (waiting (pend r name p) name)
          ≡ (with_peer, ok tt) =
        ap (add_all (fresh_world r b)) waits_last ∙ all_added in
      ap (λ (s : Registry × Result (Option ℕ)). bind_inproc s.0 name b) step
      ∙ bind_succeeds (pend r name p) name b tt fresh
          (ap (λ (l : World × Result (Unit {0})). l.1) loop)
      ∙ ap
          (λ (l : World × Result (Unit {0})).
            (bound_registry (pend r name p) name l.0, ok r.allocated))
          loop

  early_bind : binds_first r name b p ≡ (
    close_world (bound_registry r name before_peer) r.allocated with_peer,
    ok (some r.allocated),
  )
  early_bind =
      let bound = bound_registry r name before_peer in
      ap (λ (s : Registry × Result ℕ). connect_inproc s.0 name p)
        (bind_succeeds r name b tt fresh added)
      ∙ connect_known bound name p (get_inserted r.inproc_endpoints name r.allocated)
      ∙ ap
          (λ (w : World). (
            close_world bound r.allocated (add_peer w p).0,
            (add_peer w p).1 >>= λ _. ok (some r.allocated),
          ))
          (reopen r name before_peer)
      ∙ ap
          (λ (res : Result (Unit {0})).
            (close_world bound r.allocated with_peer, res >>= λ _. ok (some r.allocated)))
          passed

  last_endpoint :
      (k : ℕ)
      → (bound_registry (pend r name p) name with_peer).endpoints k
        ≡ (close_world (bound_registry r name before_peer) r.allocated with_peer).endpoints k
  unfolding pend
  last_endpoint k = ground arith

  same_end :
      SameRegistry
        (bound_registry (pend r name p) name with_peer)
        (close_world (bound_registry r name before_peer) r.allocated with_peer)
  unfolding pend
  same_end = record {
    heap = refl;
    endpoints = last_endpoint;
    allocated = refl;
    names = refl;
    pending = remove-insert r.pending_inproc name (waiting r name ++ (p ∷ []));
  }

  order_irrelevant : OrderIrrelevant r name b p
  order_irrelevant = (
    ap (λ (s : Registry × Result ℕ). s.1) late_bind,
    ap (λ (s : Registry × Result (Option ℕ)). s.1) early_bind,
    subst2_registries (sym (ap (λ (s : Registry × Result ℕ). s.0) late_bind))
        (sym (ap (λ (s : Registry × Result (Option ℕ)). s.0) early_bind)) same_end,
  )
    where
      subst2_registries : {a c d f : Registry} → a ≡ c → d ≡ f → SameRegistry a d → SameRegistry c f
      subst2_registries {c} {d} first second h =
          subst (λ x. SameRegistry c x) second (subst (λ x. SameRegistry x d) first h)

add_all-type :
    (ps : List InprocPeer) (w : World)
    → (add_all w ps).0.endpoint.binder_type ≡ w.endpoint.binder_type
unfolding add_all
add_all-type [] w = refl
add_all-type (p ∷ ps) w = ground (arith, add_peer-type w p, add_all-type ps (add_peer w p).0)

bind_needs :
    (r : Registry) (name : List ℕ) (b : InprocBinder) {n : ℕ}
    → (bind_inproc r name b).1 ≡ ok n
    → (Maps.contains_key r.inproc_endpoints name ≡ false)
      × ((add_all (fresh_world r b) (waiting r name)).1 ≡ ok tt)
unfolding bind_inproc
bind_needs r name b h = ground arith

-- Where a name can be bound, and a peer's type fits the binder's, it makes no difference whether
-- the peer connects before the socket binds or after: both calls succeed either way, and leave the
-- same queues, the same endpoint with the same peers in the same order, and the same registry.
pub bind-connect-OrderIrrelevant :
    (r : Registry) (name : List ℕ) (b : InprocBinder) (p : InprocPeer) (n : ℕ)
    → (bind_inproc r name b).1 ≡ ok n
    → fits b.socket_type p ≡ true
    → OrderIrrelevant r name b p
unfolding new
bind-connect-OrderIrrelevant r name b p n bound fit =
    let (fresh, added) = bind_needs r name b bound in
    let before = (add_all (fresh_world r b) (waiting r name)).0 in
    let type = add_all-type (waiting r name) (fresh_world r b) in
    order_irrelevant r name b p fresh added (add_peer-result before p ∙ ground (arith, type))
