-- ===== src/Inproc/Peers.antt =====
-- Peers that come and go.
pub mod Removal
pub mod Departure
pub mod Hearing
use libzmq_ru.Base.{
  ℕ, ◌%◌, ◌^◌, Bool, true, false, not, ◌||◌, ◌&&◌, Option, none, some, List, [], ◌∷◌, ◌++◌,
  is_empty, length, find, retain, ◌==◌, if◌then◌else◌,
}
use libzmq_ru.Error.{Result, ok, err, not_supported}
use libzmq_ru.Inproc.{World, InprocPeer, push_to}
use libzmq_ru.Inproc.Topics.{is_xpub, replay_subscription, replay_unsubscription, forget_manual}
use libzmq_ru.Message.{from_vec, set_routing_id}
use libzmq_ru.SocketType.{
  SocketType, type_eq, inproc_types_compatible, xsub, router, rep, server, peer,
}

unfoldable pub subscribe_all : World → ℕ → List (List ℕ) → World
subscribe_all w peer_id [] = w
subscribe_all w peer_id (prefix ∷ rest) =
    subscribe_all (replay_subscription w peer_id prefix) peer_id rest

unfoldable pub replay_xsub_subscriptions : World → InprocPeer → World
unfolding subscribe_all
replay_xsub_subscriptions w p =
    if not (is_xpub w) || not (type_eq p.socket_type xsub)
    then w
    else subscribe_all w p.id (w.heap.subscriptions p.subscriptions).prefixes

unfoldable pub send_welcome_to_xsub : World → InprocPeer → World
send_welcome_to_xsub w p =
    if not (is_xpub w) || not (type_eq p.socket_type xsub)
    then w
    else elim (w.heap.welcomes w.endpoint.binder_welcome) [
      | none ↦ w
      | some message ↦ push_to w p.inbox (from_vec message)
    ]

unfoldable pub add_peer : World → InprocPeer → World × Result (Unit {0})
add_peer w p =
    if not (inproc_types_compatible w.endpoint.binder_type p.socket_type)
    then (w, err not_supported)
    else (let w1 = record w {
      endpoint = record w.endpoint { peers = w.endpoint.peers ++ (p ∷ []) };
    } in
        let w2 = replay_xsub_subscriptions w1 p in (send_welcome_to_xsub w2 p, ok tt))

abbrev routes_by_id : SocketType → Bool
routes_by_id router = true
routes_by_id rep = true
routes_by_id server = true
routes_by_id peer = true
routes_by_id _ = false

unfoldable pub send_disconnect_message : World → ℕ → World
send_disconnect_message w routing_id =
    let bytes = w.heap.disconnect_msgs w.endpoint.binder_disconnect_msg in
    let message = from_vec bytes in
    if is_empty bytes
    then w
    else push_to w w.endpoint.binder_inbox
        (if routes_by_id w.endpoint.binder_type then set_routing_id message routing_id else message)

pub unsubscribe_all : World → ℕ → List (List ℕ) → World
unsubscribe_all w peer_id [] = w
unsubscribe_all w peer_id (prefix ∷ rest) =
    unsubscribe_all (replay_unsubscription w peer_id prefix false) peer_id rest

pub forget_all : World → ℕ → List (List ℕ) → World
forget_all w peer_id [] = w
forget_all w peer_id (prefix ∷ rest) = forget_all (forget_manual w peer_id prefix) peer_id rest

unfoldable pub remove_xsub_peer_subscriptions : World → InprocPeer → World
unfolding unsubscribe_all forget_all
remove_xsub_peer_subscriptions w p =
    if not (is_xpub w)
    then w
    else (let prefixes = (w.heap.subscriptions p.subscriptions).prefixes in
        forget_all (unsubscribe_all w p.id prefixes) p.id prefixes)

abbrev pub has_id : ℕ → InprocPeer → Bool
has_id peer_id p = p.id == peer_id

-- The subscriptions of the removed peer go with it, if it is an XSUB.
drop_subscriptions : World → Option InprocPeer → World
drop_subscriptions w none = w
drop_subscriptions w (some p) =
    if type_eq p.socket_type xsub then remove_xsub_peer_subscriptions w p else w

unfoldable pub remove_peer : World → ℕ → Bool → World × Bool
unfolding drop_subscriptions
remove_peer w peer_id notify_disconnect =
    let peers = w.endpoint.peers in
    let removed_peer = find (has_id peer_id) peers in
    let left = retain (λ p. not (has_id peer_id p)) peers in
    let removed = not (length left == length peers) in
    let w1 = record w { endpoint = record w.endpoint { peers = left } } in
    let w2 = drop_subscriptions w1 removed_peer in
    (
      if removed && notify_disconnect then send_disconnect_message w2 (peer_id % 2 ^ 32) else w2,
      removed,
    )
