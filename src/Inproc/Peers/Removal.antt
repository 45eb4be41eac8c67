-- ===== src/Inproc/Peers/Removal.antt =====
-- The topics after the prefixes of a peer are taken back.
use libzmq_ru.Base.{
  refl, ◌&&◌, ◌==◌, ℕ, ◌≡◌, ap, ◌∙◌, Bool, true, false, List, [], ◌∷◌, if◌then◌else◌, arith,
  bytes_eq, bytes_eq_iff,
}
use libzmq_ru.Base.Maps
use libzmq_ru.Base.Maps.{Assoc, contains, get-insert, get-remove}
use libzmq_ru.Inproc.{
  World, set_contains, set_remove, push_to, set_last_peer, set_peer_topics, set_manual_topics,
}
use libzmq_ru.Inproc.Sets.{set_contains-remove, empty_contains}
use libzmq_ru.Inproc.Topics.{
  is_xpub, topic_peers, should_replay_unsubscription, replay_unsubscription,
  replay_subscription_change, forget_manual,
}
use libzmq_ru.Inproc.Peers.{unsubscribe_all, forget_all}
use libzmq_ru.SocketType.{type_eq, xsub}

-- Whether a topic has a peer, in the two maps of an endpoint.
abbrev pub has_topic : World → List ℕ → ℕ → Bool
has_topic w q id = set_contains (topic_peers (Maps.get w.endpoint.xpub_peer_topics q)) id

abbrev pub has_manual : World → List ℕ → ℕ → Bool
has_manual w q id = set_contains (topic_peers (Maps.get w.endpoint.xpub_manual_topics q)) id

-- What an unsubscription leaves alone.
pub record Kept (w v : World) : Type 0 where
  pub binder_type : v.endpoint.binder_type ≡ w.endpoint.binder_type
  pub peers : v.endpoint.peers ≡ w.endpoint.peers
  pub manual : v.endpoint.xpub_manual_topics ≡ w.endpoint.xpub_manual_topics

pub unsubscription-Kept :
    (w : World) (id : ℕ) (p : List ℕ) → Kept w (replay_unsubscription w id p false)
unfolding replay_unsubscription should_replay_unsubscription replay_subscription_change
    set_last_peer set_peer_topics push_to
unsubscription-Kept w id p = ground arith

-- The topics after one unsubscription, and after one manual topic is forgotten, for any peer `k`.
unsubscription_topics :
    (w : World) (id : ℕ) (p q : List ℕ) (k : ℕ)
    → is_xpub w ≡ true
    → has_topic (replay_unsubscription w id p false) q k
      ≡ (if bytes_eq p q && id == k then false else has_topic w q k)
unfolding replay_unsubscription should_replay_unsubscription replay_subscription_change
    set_last_peer set_peer_topics push_to
unsubscription_topics w id p q k h =
    let topics = w.endpoint.xpub_peer_topics in
    let left = set_remove (topic_peers (Maps.get topics p)) id in
    ground (
      arith,
      get-insert topics p left q,
      get-remove topics p q,
      bytes_eq_iff p q,
      set_contains-remove (topic_peers (Maps.get topics p)) id k,
      empty_contains left k,
      empty_contains [] k,
    )

forget_manual_topics :
    (w : World) (id : ℕ) (p q : List ℕ) (k : ℕ)
    → has_manual (forget_manual w id p) q k
      ≡ (if bytes_eq p q && id == k then false else has_manual w q k)
unfolding forget_manual set_manual_topics
forget_manual_topics w id p q k =
    let topics = w.endpoint.xpub_manual_topics in
    let left = set_remove (topic_peers (Maps.get topics p)) id in
    ground (
      arith,
      get-insert topics p left q,
      get-remove topics p q,
      bytes_eq_iff p q,
      set_contains-remove (topic_peers (Maps.get topics p)) id k,
      empty_contains left k,
      empty_contains [] k,
    )

binder_stays : {w v : World} → Kept w v → is_xpub w ≡ true → is_xpub v ≡ true
binder_stays k h = ap (λ t. type_eq t libzmq_ru.SocketType.xpub) k.binder_type ∙ h

-- Whether a peer is left in a topic when the prefixes `ps` of the peer `id` are taken back.
abbrev pub left_in : Bool → (id : ℕ) (ps : List (List ℕ)) (q : List ℕ) (k : ℕ) → Bool
left_in before id ps q k = if contains ps q && id == k then false else before

pub unsubscribe_all_topics :
    (w : World) (id : ℕ) (ps : List (List ℕ)) (q : List ℕ) (k : ℕ)
    → is_xpub w ≡ true
    → has_topic (unsubscribe_all w id ps) q k ≡ left_in (has_topic w q k) id ps q k
unfolding unsubscribe_all contains
unsubscribe_all_topics w id [] q k h = refl
unsubscribe_all_topics w id (p ∷ ps) q k h = ground (
  arith,
  unsubscribe_all_topics (replay_unsubscription w id p false) id ps q k
      (binder_stays (unsubscription-Kept w id p) h),
  unsubscription_topics w id p q k h,
)

pub forget_all_topics :
    (w : World) (id : ℕ) (ps : List (List ℕ)) (q : List ℕ) (k : ℕ)
    → has_manual (forget_all w id ps) q k ≡ left_in (has_manual w q k) id ps q k
unfolding forget_all contains
forget_all_topics w id [] q k = refl
forget_all_topics w id (p ∷ ps) q k =
    ground
      (arith, forget_all_topics (forget_manual w id p) id ps q k, forget_manual_topics w id p q k)
