-- ===== src/Inproc/Examples.antt =====
-- Endpoints with a few peers, and the theorems at them.
use libzmq_ru.Base.{
  ℕ, ◌≡◌, ◌<◌, ◌==◌, refl, true, false, none, List, [], ◌∷◌, find, get_elem?, bytes_eq, arith,
  if◌then◌else◌,
}
use libzmq_ru.Base.Maps
use libzmq_ru.Inproc.{type_eq, World, Heap, InprocEndpoint, InprocPeer, peer_accepts, new}
use libzmq_ru.Inproc.Peers.Hearing.{
  PeerEvent, subscribes, repeats, unsubscribes, changes, comes, goes,
}
use libzmq_ru.Inproc.Peers.{remove_peer}
use libzmq_ru.Inproc.Peers.Removal.{has_topic, has_manual}
use libzmq_ru.Inproc.Peers.Departure.{Departed, remove_peer-Departed}
use libzmq_ru.Inproc.Dispatch.{next_peer, inbox_of, send_owned_to_matching_peers}
use libzmq_ru.Inproc.Dispatch.Delivery.{DeliveredOnce, send-DeliveredOnce}
use libzmq_ru.Inproc.Dispatch.Rotation.{after_calls, next_peer_fair}
use libzmq_ru.Message.{from_vec}
use libzmq_ru.SocketType.{SocketType, xpub, xsub, push, pull, pub_type, sub}
use libzmq_ru.Subscriptions.{SubscriptionState, default_state}

-- Subscription set 1 has the topic [65], all others are empty; queue 0 is the binder's.
abbrev subscribed : SubscriptionState
subscribed = record {
  prefixes = (65 ∷ []) ∷ [];
  exact = (65 ∷ [], 1) ∷ [];
  first_bytes = λ b. b == 65;
  lengths = 1 ∷ [];
  has_empty = false;
}

abbrev subscriptions_at : ℕ → SubscriptionState
subscriptions_at n = if n == 1 then subscribed else default_state

abbrev heap : Heap
heap = record {
  queues = λ _. [];
  subscriptions = subscriptions_at;
  disconnect_msgs = λ _. [];
  welcomes = λ _. none;
  policies = λ _. record {
    verbose_subscribe = false;
    verbose_unsubscribe = false;
    manual = false;
    manual_last_value = false;
  };
}

abbrev peer_of : SocketType → ℕ → InprocPeer
peer_of t n = record { id = n; inbox = n; socket_type = t; subscriptions = n }

abbrev binder : SocketType → List InprocPeer → World
binder t peers = record { heap = heap; endpoint = record (new 0 t 0 0 0 0) { peers = peers } }

abbrev two_subs : World
two_subs = binder pub_type (peer_of sub 1 ∷ peer_of sub 2 ∷ [])

send-DeliveredOnce_example : DeliveredOnce two_subs (from_vec (65 ∷ 1 ∷ []))
send-DeliveredOnce_example = send-DeliveredOnce two_subs (from_vec (65 ∷ 1 ∷ []))

-- Only the first peer subscribes to the message's topic.
one_of_two : (send_owned_to_matching_peers two_subs (from_vec (65 ∷ 1 ∷ []))).1 ≡ 1
unfolding send_owned_to_matching_peers peer_accepts libzmq_ru.Inproc.socket_type_accepts_message
    libzmq_ru.Subscriptions.matches_prefix_of libzmq_ru.Message.data_of from_vec Maps.contains_key
    bytes_eq libzmq_ru.Inproc.push_to default_state
one_of_two = refl

abbrev two_pulls : World
two_pulls = binder push (peer_of pull 1 ∷ peer_of pull 2 ∷ [])

next_peer_fair_example :
    (n : ℕ) × (n < 2)
    × ((next_peer (after_calls n two_pulls)).1 ≡ inbox_of (get_elem? two_pulls.endpoint.peers 1))
unfolding new
next_peer_fair_example = next_peer_fair two_pulls 1 (omega arith) (omega arith)

abbrev quiet_xpub : World
quiet_xpub = binder xpub (peer_of xsub 1 ∷ peer_of xsub 2 ∷ [])

-- The first peer comes to a topic twice, the second comes, a third connects, the first leaves the
-- topic and another that nobody has, and is removed.
abbrev come_and_go : List PeerEvent
come_and_go =
    subscribes 1 (65 ∷ [])
    ∷ subscribes 1 (65 ∷ [])
    ∷ repeats 1 (65 ∷ [])
    ∷ subscribes 2 (65 ∷ [])
    ∷ comes (peer_of xsub 3)
    ∷ changes 1 default_state
    ∷ unsubscribes 1 (65 ∷ [])
    ∷ unsubscribes 1 (66 ∷ [])
    ∷ goes 1 true
    ∷ []

-- Both peers have the topic [65] with the binder, and the first was put under [66] by a manual one.
abbrev with_topics : World
with_topics = record quiet_xpub {
  endpoint = record quiet_xpub.endpoint {
    xpub_peer_topics = (65 ∷ [], 1 ∷ 2 ∷ []) ∷ [];
    xpub_manual_topics = (65 ∷ [], 1 ∷ []) ∷ (66 ∷ [], 1 ∷ 2 ∷ []) ∷ [];
  };
}

remove_peer-Departed_example : Departed with_topics 1 true ((65 ∷ []) ∷ []) (66 ∷ []) 1
unfolding find libzmq_ru.SocketType.type_eq new
remove_peer-Departed_example =
    remove_peer-Departed with_topics 1 true (peer_of xsub 1) (66 ∷ []) 1 refl refl refl

-- The first peer is gone from [65] and stays under [66].
manual_topic_stays :
    (has_topic (remove_peer with_topics 1 true).0 (65 ∷ []) 1 ≡ false)
    × (has_manual (remove_peer with_topics 1 true).0 (65 ∷ []) 1 ≡ false)
    × (has_manual (remove_peer with_topics 1 true).0 (66 ∷ []) 1 ≡ true)
unfolding find libzmq_ru.SocketType.type_eq new Maps.contains bytes_eq libzmq_ru.Inproc.set_contains
    Maps.get
manual_topic_stays =
    let at65 =
      remove_peer-Departed with_topics 1 true (peer_of xsub 1) (65 ∷ []) 1 refl refl refl in
    let at66 =
      remove_peer-Departed with_topics 1 true (peer_of xsub 1) (66 ∷ []) 1 refl refl refl in
    (at65.2, at65.3, at66.3)
