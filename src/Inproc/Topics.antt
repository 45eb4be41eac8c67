-- ===== src/Inproc/Topics.antt =====
-- The topics of an XPUB binder: which subscription changes of XSUB peers reach its inbox.
pub mod Upstream
pub mod Told
pub mod Heard
use libzmq_ru.Base.{
  ℕ, Bool, true, false, not, ◌||◌, Option, none, some, List, [], ◌∷◌, is_empty, length, ◌==◌,
  if◌then◌else◌,
}
use libzmq_ru.Base.Maps
use libzmq_ru.Error.{Result, ok, err, not_supported}
use libzmq_ru.Inproc.{
  World, set_insert, set_remove, push_to, set_last_peer, set_peer_topics, set_manual_topics,
  policy_of,
}
use libzmq_ru.Message.{from_vec}
use libzmq_ru.SocketType.{type_eq, xpub}

abbrev pub is_xpub : World → Bool
is_xpub w = type_eq w.endpoint.binder_type xpub

abbrev u8_from : Bool → ℕ
u8_from true = 1
u8_from false = 0

unfoldable pub replay_subscription_change : World → Bool → List ℕ → World
replay_subscription_change w subscribe prefix =
    if not (is_xpub w)
    then w
    else push_to w w.endpoint.binder_inbox (from_vec (u8_from subscribe ∷ prefix))

-- `entry(prefix).or_default()`
abbrev pub topic_peers : Option (List ℕ) → List ℕ
topic_peers none = []
topic_peers (some peers) = peers

note_peer : Bool → World → ℕ → World
note_peer notify w peer_id = if notify then set_last_peer w (some peer_id) else w

-- The world after the call, and whether the binder is told.
unfoldable pub should_replay_subscription : World → ℕ → List ℕ → Bool → World × Bool
unfolding note_peer
should_replay_subscription w peer_id prefix duplicate_from_peer =
    if not (is_xpub w)
    then (w, false)
    else if duplicate_from_peer
    then (let notify = (policy_of w).verbose_subscribe || (policy_of w).manual in
        (note_peer notify w peer_id, notify))
    else (let topics = w.endpoint.xpub_peer_topics in
        let peers = set_insert (topic_peers (Maps.get topics prefix)) peer_id in
        let notify =
          length peers == 1 || ((policy_of w).verbose_subscribe || (policy_of w).manual) in
        (note_peer notify (set_peer_topics w (Maps.insert topics prefix peers)) peer_id, notify))

unfoldable pub replay_subscription : World → ℕ → List ℕ → World
replay_subscription w peer_id prefix =
    let (w', notify) = should_replay_subscription w peer_id prefix false in
    if notify then replay_subscription_change w' true prefix else w'

unfoldable pub replay_duplicate_subscription : World → ℕ → List ℕ → World
replay_duplicate_subscription w peer_id prefix =
    let (w', notify) = should_replay_subscription w peer_id prefix true in
    if notify then replay_subscription_change w' true prefix else w'

-- The branch on a topic that is known, with its peers less this one.
drop_topic_peer : World → ℕ → List ℕ → List ℕ → World × Bool
unfolding note_peer
drop_topic_peer w peer_id prefix peers =
    let topics = w.endpoint.xpub_peer_topics in
    if is_empty peers
    then (set_last_peer (set_peer_topics w (Maps.remove topics prefix)) (some peer_id), true)
    else (let notify = (policy_of w).verbose_unsubscribe || (policy_of w).manual in
        (note_peer notify (set_peer_topics w (Maps.insert topics prefix peers)) peer_id, notify))

unfoldable pub should_replay_unsubscription : World → ℕ → List ℕ → Bool → World × Bool
unfolding drop_topic_peer
should_replay_unsubscription w peer_id prefix unmatched_from_peer =
    if not (is_xpub w)
    then (w, false)
    else if unmatched_from_peer
    then (set_last_peer w (some peer_id), true)
    else elim (Maps.get w.endpoint.xpub_peer_topics prefix) [
      | none ↦ (w, true)
      | some peers ↦ drop_topic_peer w peer_id prefix (set_remove peers peer_id)
    ]

unfoldable pub replay_unsubscription : World → ℕ → List ℕ → Bool → World
replay_unsubscription w peer_id prefix unmatched_from_peer =
    let (w', notify) = should_replay_unsubscription w peer_id prefix unmatched_from_peer in
    if notify then replay_subscription_change w' false prefix else w'

unfoldable pub manual_subscribe_last_peer : World → List ℕ → World × Result (Unit {0})
manual_subscribe_last_peer w prefix =
    if not (is_xpub w) then (w, err not_supported) else elim w.endpoint.xpub_last_peer [
      | none ↦ (w, ok tt)
      | some peer_id ↦
          (let topics = w.endpoint.xpub_manual_topics in
            let peers = set_insert (topic_peers (Maps.get topics prefix)) peer_id in
            (set_manual_topics w (Maps.insert topics prefix peers), ok tt))
    ]

-- `peers.remove(&id)` in the topic's set, which goes with its last peer.
unfoldable pub forget_manual : World → ℕ → List ℕ → World
forget_manual w peer_id prefix =
    let topics = w.endpoint.xpub_manual_topics in
    elim (Maps.get topics prefix) [
      | none ↦ w
      | some peers ↦
          (let left = set_remove peers peer_id in
            if is_empty left
            then set_manual_topics w (Maps.remove topics prefix)
            else set_manual_topics w (Maps.insert topics prefix left))
    ]

unfoldable pub manual_unsubscribe_last_peer : World → List ℕ → World × Result (Unit {0})
manual_unsubscribe_last_peer w prefix =
    if not (is_xpub w) then (w, err not_supported) else elim w.endpoint.xpub_last_peer [
      | none ↦ (w, ok tt)
      | some peer_id ↦ (forget_manual w peer_id prefix, ok tt)
    ]
