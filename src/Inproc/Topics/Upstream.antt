-- ===== src/Inproc/Topics/Upstream.antt =====
-- What an XPUB binder hears of its peers' topics: a topic is announced when its first peer comes,
-- and withdrawn when its last peer goes.
use libzmq_ru.Base.{
  refl, any, ℕ, ◌+◌, ◌≡◌, true, false, List, [], ◌∷◌, ◌++◌, length, is_empty, ◌==◌, if◌then◌else◌,
  arith, bytes_eq, bytes_eq_iff,
}
use libzmq_ru.Base.Maps
use libzmq_ru.Base.Maps.{Assoc, get-insert, get-remove}
use libzmq_ru.Inproc.{
  set_remove, World, set_contains, set_insert, push_to, set_last_peer, set_peer_topics, policy_of,
}
use libzmq_ru.Inproc.Topics.{
  drop_topic_peer, should_replay_unsubscription, replay_unsubscription, is_xpub,
  replay_subscription_change, topic_peers, should_replay_subscription, replay_subscription,
}
use libzmq_ru.Message.{Message, from_vec, data_of}
use libzmq_ru.Message.Payload.{data_of-from_vec}

-- How often a frame stands in a queue.
abbrev pub frames : List ℕ → List Message → ℕ
frames frame [] = 0
frames frame (m ∷ ms) = (if bytes_eq (data_of m) frame then 1 else 0) + frames frame ms

frames-append :
    (frame : List ℕ) (ms : List Message) (bytes : List ℕ)
    → frames frame (ms ++ (from_vec bytes ∷ []))
      ≡ frames frame ms + (if bytes_eq bytes frame then 1 else 0)
frames-append frame [] bytes = let stored = (data_of-from_vec bytes).0 in rw stored (omega arith)
frames-append frame (m ∷ ms) bytes = omega (arith, frames-append frame ms bytes)

abbrev held_by : List ℕ → ℕ
held_by [] = 0
held_by (p ∷ ps) = 1

-- 1 if some peer has the topic, and 0 if none has.
abbrev pub held : World → List ℕ → ℕ
held w q = held_by (topic_peers (Maps.get w.endpoint.xpub_peer_topics q))

abbrev pub inbox : World → List Message
inbox w = w.heap.queues w.endpoint.binder_inbox

-- An XPUB binder with the default policy, that has announced each topic as often as it has
-- withdrawn it, and once more if some peer has it.
pub record IsBalanced (w : World) : Type 0 where
  pub binder : is_xpub w ≡ true
  pub quiet_subscribe : (policy_of w).verbose_subscribe ≡ false
  pub quiet_unsubscribe : (policy_of w).verbose_unsubscribe ≡ false
  pub automatic : (policy_of w).manual ≡ false
  pub balance : (q : List ℕ) → frames (1 ∷ q) (inbox w) ≡ frames (0 ∷ q) (inbox w) + held w q

set_insert_new :
    (s : List ℕ) (x : ℕ)
    → set_contains s x ≡ false
    → ((length (set_insert s x) == 1) ≡ is_empty s) × (held_by (set_insert s x) ≡ 1)
unfolding set_insert
set_insert_new [] x h = ground arith
set_insert_new (y ∷ []) x h = ground arith
set_insert_new (y ∷ z ∷ s) x h = ground arith

balance_subscribe :
    (w : World) (id : ℕ) (p q : List ℕ)
    → IsBalanced w
    → set_contains (topic_peers (Maps.get w.endpoint.xpub_peer_topics p)) id ≡ false
    → frames (1 ∷ q) (inbox (replay_subscription w id p))
      ≡ frames (0 ∷ q) (inbox (replay_subscription w id p)) + held (replay_subscription w id p) q
unfolding replay_subscription should_replay_subscription replay_subscription_change set_last_peer
    set_peer_topics push_to bytes_eq
balance_subscribe w id p q h fresh =
    let topics = w.endpoint.xpub_peer_topics in
    let before = topic_peers (Maps.get topics p) in
    ground (
      arith,
      h.balance q,
      set_insert_new before id fresh,
      get-insert topics p (set_insert before id) q,
      frames-append (1 ∷ q) (inbox w) (1 ∷ p),
      frames-append (0 ∷ q) (inbox w) (1 ∷ p),
      bytes_eq_iff p q,
    )

set_remove_some : (s : List ℕ) (x : ℕ) → set_contains s x ≡ true → (held_by s ≡ 1)
unfolding set_contains any
set_remove_some [] x h = cc
set_remove_some (y ∷ s) x h = refl

held_by_nonempty : (s : List ℕ) → is_empty s ≡ false → held_by s ≡ 1
held_by_nonempty [] h = cc
held_by_nonempty (y ∷ s) h = refl

balance_unsubscribe :
    (w : World) (id : ℕ) (p q : List ℕ)
    → IsBalanced w
    → set_contains (topic_peers (Maps.get w.endpoint.xpub_peer_topics p)) id ≡ true
    → frames (1 ∷ q) (inbox (replay_unsubscription w id p false))
      ≡ frames (0 ∷ q) (inbox (replay_unsubscription w id p false))
        + held (replay_unsubscription w id p false) q
unfolding replay_unsubscription should_replay_unsubscription drop_topic_peer
    replay_subscription_change set_last_peer set_peer_topics push_to bytes_eq
balance_unsubscribe w id p q h present =
    let topics = w.endpoint.xpub_peer_topics in
    let before = topic_peers (Maps.get topics p) in
    let left = set_remove before id in
    ground (
      arith,
      h.balance q,
      set_remove_some before id present,
      held_by_nonempty left,
      get-insert topics p left q,
      get-remove topics p q,
      frames-append (1 ∷ q) (inbox w) (0 ∷ p),
      frames-append (0 ∷ q) (inbox w) (0 ∷ p),
      bytes_eq_iff p q,
    )

subscribe-IsBalanced :
    (w : World) (id : ℕ) (p : List ℕ)
    → IsBalanced w
    → set_contains (topic_peers (Maps.get w.endpoint.xpub_peer_topics p)) id ≡ false
    → IsBalanced (replay_subscription w id p)
unfolding replay_subscription should_replay_subscription replay_subscription_change set_last_peer
    set_peer_topics push_to policy_of
subscribe-IsBalanced w id p h fresh = record {
  binder = ground (arith, h.binder);
  quiet_subscribe = ground (arith, h.quiet_subscribe);
  quiet_unsubscribe = ground (arith, h.quiet_unsubscribe);
  automatic = ground (arith, h.automatic);
  balance = λ q. balance_subscribe w id p q h fresh;
}

unsubscribe-IsBalanced :
    (w : World) (id : ℕ) (p : List ℕ)
    → IsBalanced w
    → set_contains (topic_peers (Maps.get w.endpoint.xpub_peer_topics p)) id ≡ true
    → IsBalanced (replay_unsubscription w id p false)
unfolding replay_unsubscription should_replay_unsubscription drop_topic_peer
    replay_subscription_change set_last_peer set_peer_topics push_to policy_of
unsubscribe-IsBalanced w id p h present = record {
  binder = ground (arith, h.binder);
  quiet_subscribe = ground (arith, h.quiet_subscribe);
  quiet_unsubscribe = ground (arith, h.quiet_unsubscribe);
  automatic = ground (arith, h.automatic);
  balance = λ q. balance_unsubscribe w id p q h present;
}

-- Changes by peers that are not in the topic before they subscribe, and are in it before they
-- unsubscribe.
pub data Change (w : World) : World → Type 0 where
  subscribes :
      (id : ℕ) (p : List ℕ)
      → set_contains (topic_peers (Maps.get w.endpoint.xpub_peer_topics p)) id ≡ false
      → Change w (replay_subscription w id p)
  unsubscribes :
      (id : ℕ) (p : List ℕ)
      → set_contains (topic_peers (Maps.get w.endpoint.xpub_peer_topics p)) id ≡ true
      → Change w (replay_unsubscription w id p false)

pub data Reach (w : World) : World → Type 0 where
  here : Reach w w
  next : {u v : World} → Reach w u → Change u v → Reach w v

Change-IsBalanced : {w v : World} → Change w v → IsBalanced w → IsBalanced v
Change-IsBalanced {w} (subscribes id p fresh) h = subscribe-IsBalanced w id p h fresh
Change-IsBalanced {w} (unsubscribes id p present) h = unsubscribe-IsBalanced w id p h present

-- Whatever such changes there are, an XPUB binder with the default policy whose
-- announcements balance keeps them balanced: in its inbox each topic is announced as often as it
-- is withdrawn, and once more exactly while some peer has it.
pub Reach-IsBalanced : {w v : World} → IsBalanced w → Reach w v → IsBalanced v
Reach-IsBalanced h here = h
Reach-IsBalanced h (next r c) = Change-IsBalanced c (Reach-IsBalanced h r)
