-- ===== src/Subscriber.antt =====
-- `subscribe`, `unsubscribe`, `join` and `leave` of crates/libzmq-core/src/socket.rs: a socket's
-- subscriptions, and what an XPUB binder that it is connected to hears of them.
pub mod Agreement
pub mod History
mod Examples
use libzmq_ru.Base.{
  ℕ, Bool, true, false, not, ◌&&◌, ◌||◌, Option, none, some, List, ◌==◌, any, is_empty, length, ltb,
  if◌then◌else◌,
}
use libzmq_ru.Base.Maps
use libzmq_ru.Constants.{zmq_group_max_length}
use libzmq_ru.Context.Registry.{Registry, open_world, close_world, inproc_endpoint}
use libzmq_ru.Error.{Result, ok, err, not_supported, invalid_argument}
use libzmq_ru.Inproc.{World, Heap}
use libzmq_ru.Inproc.Topics.{
  replay_subscription, replay_duplicate_subscription, replay_unsubscription,
  manual_subscribe_last_peer, manual_unsubscribe_last_peer,
}
use libzmq_ru.SocketType.{SocketType, type_eq, xpub, xsub, sub, dish}
use libzmq_ru.Subscriptions.{SubscriptionState, insert, remove}

-- The fields of a socket that these operations read. The endpoint that it has bound is a cell of
-- the registry, the one that it is connected to a name.
pub record SubscriberSocket : Type 0 where
  pub id : ℕ
  pub socket_type : SocketType
  pub xpub_manual : Bool
  pub xsub_verbose_unsubscribe : Bool
  pub subscriptions : ℕ
  pub bound_endpoint : Option ℕ
  pub connected_endpoint : Option (List ℕ)

abbrev pub set_subscriptions : Heap → ℕ → SubscriptionState → Heap
set_subscriptions h n s = record h { subscriptions = λ k. if k == n then s else h.subscriptions k }

-- The endpoint that the socket is connected to, if its name is bound.
abbrev pub connected : Registry → SubscriberSocket → Option ℕ
connected r s = elim s.connected_endpoint [ none ↦ none | some name ↦ inproc_endpoint r name ]

-- What the endpoint is told of a subscription, or of one that was there already.
unfoldable pub tell_subscription : World → ℕ → List ℕ → Bool → World
tell_subscription w id prefix inserted =
    if inserted then replay_subscription w id prefix else replay_duplicate_subscription w id prefix

unfoldable pub tell_unsubscription : World → SubscriberSocket → List ℕ → Bool → World
tell_unsubscription w s prefix removed =
    let verbose_unmatched = type_eq s.socket_type xsub && s.xsub_verbose_unsubscribe in
    if removed || verbose_unmatched
    then replay_unsubscription w s.id prefix (verbose_unmatched && not removed)
    else w

-- The socket's set in the heap of a world, and the call's result.
unfoldable pub insert_own : World → SubscriberSocket → List ℕ → World × Bool
insert_own w s prefix =
    let (subscriptions, inserted) = insert (w.heap.subscriptions s.subscriptions) prefix in
    (record w { heap = set_subscriptions w.heap s.subscriptions subscriptions }, inserted)

unfoldable pub remove_own : World → SubscriberSocket → List ℕ → World × Bool
remove_own w s prefix =
    let (subscriptions, removed) = remove (w.heap.subscriptions s.subscriptions) prefix in
    (record w { heap = set_subscriptions w.heap s.subscriptions subscriptions }, removed)

-- The two calls of a socket that is connected to an endpoint, in the endpoint's world.
unfoldable pub subscribe_in : World → SubscriberSocket → List ℕ → World
unfolding insert_own tell_subscription
subscribe_in w s prefix =
    let (w', inserted) = insert_own w s prefix in tell_subscription w' s.id prefix inserted

unfoldable pub unsubscribe_in : World → SubscriberSocket → List ℕ → World
unfolding remove_own tell_unsubscription
unsubscribe_in w s prefix =
    let (w', removed) = remove_own w s prefix in tell_unsubscription w' s prefix removed

abbrev pub can_subscribe : SocketType → Bool
can_subscribe t = type_eq t sub || type_eq t xsub

abbrev pub is_manual : SubscriberSocket → Bool
is_manual s = type_eq s.socket_type xpub && s.xpub_manual

-- The call of a manual XPUB socket on the endpoint that it has bound.
abbrev pub on_bound :
    (World → World × Result (Unit {0})) → Registry → Option ℕ → Registry × Result (Unit {0})
on_bound call r none = (r, ok tt)
on_bound call r (some n) = let (w, result) = call (open_world r n) in (close_world r n w, result)

unfoldable pub subscribe : Registry → SubscriberSocket → List ℕ → Registry × Result (Unit {0})
unfolding subscribe_in
subscribe r s prefix =
    if is_manual s
    then on_bound (λ w. manual_subscribe_last_peer w prefix) r s.bound_endpoint
    else if not (can_subscribe s.socket_type)
    then (r, err not_supported)
    else elim (connected r s) [
      | some n ↦ (close_world r n (subscribe_in (open_world r n) s prefix), ok tt)
      | none ↦ (
        record r {
          heap =
              set_subscriptions r.heap s.subscriptions
                (insert (r.heap.subscriptions s.subscriptions) prefix).0;
        },
        ok tt,
      )
    ]

unfoldable pub unsubscribe : Registry → SubscriberSocket → List ℕ → Registry × Result (Unit {0})
unfolding unsubscribe_in
unsubscribe r s prefix =
    if is_manual s
    then on_bound (λ w. manual_unsubscribe_last_peer w prefix) r s.bound_endpoint
    else if not (can_subscribe s.socket_type)
    then (r, err not_supported)
    else elim (connected r s) [
      | some n ↦ (close_world r n (unsubscribe_in (open_world r n) s prefix), ok tt)
      | none ↦ (
        record r {
          heap =
              set_subscriptions r.heap s.subscriptions
                (remove (r.heap.subscriptions s.subscriptions) prefix).0;
        },
        ok tt,
      )
    ]

abbrev pub is_group : List ℕ → Bool
is_group group =
    not (is_empty group || ltb zmq_group_max_length (length group) || any (λ b. b == 0) group)

unfoldable pub join : Heap → SubscriberSocket → List ℕ → Heap × Result (Unit {0})
unfolding any
join h s group =
    if not (type_eq s.socket_type dish)
    then (h, err not_supported)
    else if not (is_group group)
    then (h, err invalid_argument)
    else (
      set_subscriptions h s.subscriptions (insert (h.subscriptions s.subscriptions) group).0,
      ok tt,
    )

unfoldable pub leave : Heap → SubscriberSocket → List ℕ → Heap × Result (Unit {0})
unfolding any
leave h s group =
    if not (type_eq s.socket_type dish)
    then (h, err not_supported)
    else if not (is_group group)
    then (h, err invalid_argument)
    else (
      set_subscriptions h s.subscriptions (remove (h.subscriptions s.subscriptions) group).0,
      ok tt,
    )
