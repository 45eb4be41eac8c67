-- ===== src/Context/Registry.antt =====
-- `bind_inproc`, `connect_inproc`, `unbind_inproc` and `disconnect_inproc` of context.rs. An
-- endpoint that several sockets share by `Arc` is a cell of the registry, named by a number.
pub mod Binding
pub mod Order
pub mod Settled
use libzmq_ru.Base.{
  ℕ, ◌+◌, Bool, true, false, not, ◌||◌, Option, none, some, List, [], ◌∷◌, ◌++◌, is_empty, length,
  retain, ◌==◌, if◌then◌else◌,
}
use libzmq_ru.Base.Maps
use libzmq_ru.Base.Maps.{Assoc}
use libzmq_ru.Error.{Result, ok, err, invalid_argument, ◌>>=◌}
use libzmq_ru.Inproc.{Heap, InprocEndpoint, InprocPeer, World, new}
use libzmq_ru.Inproc.Peers.{add_peer, remove_peer, has_id}
use libzmq_ru.SocketType.{SocketType}

pub record InprocBinder : Type 0 where
  pub inbox : ℕ
  pub socket_type : SocketType
  pub subscriptions : ℕ
  pub disconnect_msg : ℕ
  pub welcome : ℕ
  pub xpub_policy : ℕ

-- The fields `inproc_endpoints` and `pending_inproc` of `ContextShared`, with the heap.
pub record Registry : Type 0 where
  pub heap : Heap
  pub endpoints : ℕ → InprocEndpoint
  pub allocated : ℕ
  pub inproc_endpoints : Assoc ℕ
  pub pending_inproc : Assoc (List InprocPeer)

-- The endpoint of a number with the heap, and both put back.
abbrev pub open_world : Registry → ℕ → World
open_world r n = record { heap = r.heap; endpoint = r.endpoints n }

abbrev pub close_world : Registry → ℕ → World → Registry
close_world r n w = record r {
  heap = w.heap;
  endpoints = λ k. if k == n then w.endpoint else r.endpoints k;
}

-- The loop over the pending peers, which ends at the first error.
unfoldable pub add_all : World → List InprocPeer → World × Result (Unit {0})
add_all w [] = (w, ok tt)
add_all w (p ∷ ps) =
    let (w', added) = add_peer w p in elim added [ ok _ ↦ add_all w' ps | err e ↦ (w', err e) ]

abbrev pub peers_of : Option (List InprocPeer) → List InprocPeer
peers_of none = []
peers_of (some peers) = peers

abbrev pub fresh_world : Registry → InprocBinder → World
fresh_world r b = record {
  heap = r.heap;
  endpoint = new b.inbox b.socket_type b.subscriptions b.disconnect_msg b.welcome b.xpub_policy;
}

unfoldable pub bind_inproc : Registry → List ℕ → InprocBinder → Registry × Result ℕ
unfolding add_all
bind_inproc r name b =
    let peers = peers_of (Maps.get r.pending_inproc name) in
    let (w, added) = add_all (fresh_world r b) peers in
    let left = record r { heap = w.heap; pending_inproc = Maps.remove r.pending_inproc name } in
    let bound = record (close_world left r.allocated w) {
      allocated = r.allocated + 1;
      inproc_endpoints = Maps.insert r.inproc_endpoints name r.allocated;
    } in
    if Maps.contains_key r.inproc_endpoints name
    then (r, err invalid_argument)
    else elim added [ ok _ ↦ (bound, ok r.allocated) | err e ↦ (left, err e) ]

-- The first half of `connect_inproc`: the endpoint that is looked up under the first lock.
unfoldable pub lookup : Registry → List ℕ → Option ℕ
lookup r name = Maps.get r.inproc_endpoints name

-- The second half, under the second lock, where no endpoint was found.
unfoldable pub pend : Registry → List ℕ → InprocPeer → Registry
pend r name p = record r {
  pending_inproc =
      Maps.insert r.pending_inproc name (peers_of (Maps.get r.pending_inproc name) ++ (p ∷ []));
}

unfoldable pub connect_inproc : Registry → List ℕ → InprocPeer → Registry × Result (Option ℕ)
unfolding lookup pend
connect_inproc r name p = elim (lookup r name) [
  | some n ↦
      (let (w, added) = add_peer (open_world r n) p in
        (close_world r n w, added >>= λ _. ok (some n)))
  | none ↦ (pend r name p, ok none)
]

unfoldable pub unbind_inproc : Registry → List ℕ → Registry × Result ℕ
unbind_inproc r name = elim (Maps.get r.inproc_endpoints name) [
  | none ↦ (r, err invalid_argument)
  | some n ↦ (record r { inproc_endpoints = Maps.remove r.inproc_endpoints name }, ok n)
]

-- The peer leaves the endpoint of the name, if it is bound.
leave_endpoint : Registry → Option ℕ → ℕ → Registry × Bool
leave_endpoint r none id = (r, false)
leave_endpoint r (some n) id =
    let (w, removed) = remove_peer (open_world r n) id true in (close_world r n w, removed)

-- The peer leaves those that wait for the name.
leave_pending : Registry → List ℕ → Option (List InprocPeer) → ℕ → Registry × Bool
leave_pending r name none id = (r, false)
leave_pending r name (some peers) id =
    let left = retain (λ p. not (has_id id p)) peers in
    (
      record r {
        pending_inproc =
            if is_empty left
            then Maps.remove r.pending_inproc name
            else Maps.insert r.pending_inproc name left;
      },
      not (length left == length peers),
    )

unfoldable pub disconnect_inproc : Registry → List ℕ → ℕ → Registry × Result (Unit {0})
unfolding leave_endpoint leave_pending
disconnect_inproc r name id =
    let (r1, left) = leave_endpoint r (Maps.get r.inproc_endpoints name) id in
    let (r2, left_pending) = leave_pending r1 name (Maps.get r1.pending_inproc name) id in
    (r2, if left || left_pending then ok tt else err invalid_argument)

unfoldable pub inproc_endpoint : Registry → List ℕ → Option ℕ
inproc_endpoint r name = Maps.get r.inproc_endpoints name
