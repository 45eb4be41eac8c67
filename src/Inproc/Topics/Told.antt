-- ===== src/Inproc/Topics/Told.antt =====
-- What one subscription change does to an XPUB binder's topics.
use libzmq_ru.Base.{
  ℕ, ◌≡◌, Bool, true, false, ◌&&◌, List, [], ◌==◌, if◌then◌else◌, arith, bytes_eq, bytes_eq_iff,
}
use libzmq_ru.Base.Maps
use libzmq_ru.Base.Maps.{get-insert, get-remove}
use libzmq_ru.Inproc.{World, set_insert, set_remove, push_to, set_last_peer, set_peer_topics}
use libzmq_ru.Inproc.Peers.Removal.{has_topic}
use libzmq_ru.Inproc.Sets.{set_contains-insert, set_contains-remove, empty_contains}
use libzmq_ru.Inproc.Topics.{
  is_xpub, topic_peers, replay_subscription, replay_duplicate_subscription, replay_unsubscription,
  should_replay_subscription, should_replay_unsubscription, replay_subscription_change,
}

-- The topics after a change, for any peer `k`; the queues of subscriptions stay as they are.
pub record Told (w v : World) (id : ℕ) (p q : List ℕ) (k : ℕ) (now : Bool) : Type 0 where
  pub topic : has_topic v q k ≡ (if bytes_eq p q && id == k then now else has_topic w q k)
  pub binder : v.endpoint.binder_type ≡ w.endpoint.binder_type
  pub sets : v.heap.subscriptions ≡ w.heap.subscriptions

pub subscription-Told :
    (w : World) (id : ℕ) (p q : List ℕ) (k : ℕ)
    → is_xpub w ≡ true
    → Told w (replay_subscription w id p) id p q k true
unfolding replay_subscription should_replay_subscription replay_subscription_change set_last_peer
    set_peer_topics push_to
subscription-Told w id p q k h =
    let topics = w.endpoint.xpub_peer_topics in
    let before = topic_peers (Maps.get topics p) in
    record {
      topic = ground (
        arith,
        get-insert topics p (set_insert before id) q,
        bytes_eq_iff p q,
        set_contains-insert before id k,
      );
      binder = ground arith;
      sets = ground arith;
    }

pub unsubscription-Told :
    (w : World) (id : ℕ) (p q : List ℕ) (k : ℕ)
    → is_xpub w ≡ true
    → Told w (replay_unsubscription w id p false) id p q k false
unfolding replay_unsubscription should_replay_unsubscription replay_subscription_change
    set_last_peer set_peer_topics push_to
unsubscription-Told w id p q k h =
    let topics = w.endpoint.xpub_peer_topics in
    let left = set_remove (topic_peers (Maps.get topics p)) id in
    record {
      topic = ground (
        arith,
        get-insert topics p left q,
        get-remove topics p q,
        bytes_eq_iff p q,
        set_contains-remove (topic_peers (Maps.get topics p)) id k,
        empty_contains left k,
        empty_contains [] k,
      );
      binder = ground arith;
      sets = ground arith;
    }

-- A change that leaves the topics alone.
pub record Unchanged (w v : World) : Type 0 where
  pub topics : v.endpoint.xpub_peer_topics ≡ w.endpoint.xpub_peer_topics
  pub binder : v.endpoint.binder_type ≡ w.endpoint.binder_type
  pub sets : v.heap.subscriptions ≡ w.heap.subscriptions

pub duplicate-Unchanged :
    (w : World) (id : ℕ) (p : List ℕ) → Unchanged w (replay_duplicate_subscription w id p)
unfolding replay_duplicate_subscription should_replay_subscription replay_subscription_change
    set_last_peer set_peer_topics push_to
duplicate-Unchanged w id p = record {
  topics = ground arith;
  binder = ground arith;
  sets = ground arith;
}

pub unmatched-Unchanged :
    (w : World) (id : ℕ) (p : List ℕ) → Unchanged w (replay_unsubscription w id p true)
unfolding replay_unsubscription should_replay_unsubscription replay_subscription_change
    set_last_peer set_peer_topics push_to
unmatched-Unchanged w id p = record {
  topics = ground arith;
  binder = ground arith;
  sets = ground arith;
}
