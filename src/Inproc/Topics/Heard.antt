-- ===== src/Inproc/Topics/Heard.antt =====
-- What an XPUB binder has heard of a topic last, over all that peers do: they subscribe and
-- unsubscribe, to topics that they have or have not.
use libzmq_ru.Base.{
  refl, ap, any, ℕ, ◌≡◌, Bool, true, false, not, List, [], ◌∷◌, ◌++◌, length, is_empty, ◌==◌,
  if◌then◌else◌, arith, bytes_eq, bytes_eq_iff,
}
use libzmq_ru.Base.Maps
use libzmq_ru.Base.Maps.{Assoc, get-insert, get-remove}
use libzmq_ru.Inproc.{
  set_remove, World, set_contains, set_insert, push_to, set_last_peer, set_peer_topics, policy_of,
}
use libzmq_ru.Inproc.Topics.{
  drop_topic_peer, should_replay_unsubscription, replay_unsubscription, is_xpub,
  replay_subscription_change, topic_peers, should_replay_subscription, replay_subscription,
  replay_duplicate_subscription,
}
use libzmq_ru.Message.{Message, from_vec, data_of}
use libzmq_ru.Message.Payload.{data_of-from_vec}

-- Whether a topic is announced once a frame is read, given whether it was before.
abbrev pub verdict : Bool → List ℕ → List ℕ → Bool
verdict before q frame =
    if bytes_eq frame (1 ∷ q) then true else if bytes_eq frame (0 ∷ q) then false else before

-- The last word on a topic in a queue.
abbrev pub last_word : Bool → List ℕ → List Message → Bool
last_word before q [] = before
last_word before q (m ∷ ms) = last_word (verdict before q (data_of m)) q ms

abbrev pub has_peers : World → List ℕ → Bool
has_peers w q = not (is_empty (topic_peers (Maps.get w.endpoint.xpub_peer_topics q)))

abbrev pub inbox : World → List Message
inbox w = w.heap.queues w.endpoint.binder_inbox

-- An XPUB binder with the default policy and no message for peers that leave, whose inbox is `n`:
-- the last word on each topic there is whether some peer has it.
pub record IsHeard (n : ℕ) (w : World) : Type 0 where
  pub binder : is_xpub w ≡ true
  pub quiet_subscribe : (policy_of w).verbose_subscribe ≡ false
  pub quiet_unsubscribe : (policy_of w).verbose_unsubscribe ≡ false
  pub automatic : (policy_of w).manual ≡ false
  pub no_farewell : w.heap.disconnect_msgs w.endpoint.binder_disconnect_msg ≡ []
  pub place : w.endpoint.binder_inbox ≡ n
  pub heard : (q : List ℕ) → last_word false q (inbox w) ≡ has_peers w q

last_word-append :
    (before : Bool) (q : List ℕ) (ms : List Message) (frame : List ℕ)
    → last_word before q (ms ++ (from_vec frame ∷ [])) ≡ verdict (last_word before q ms) q frame
last_word-append before q [] frame = ap (verdict before q) (data_of-from_vec frame).0
last_word-append before q (m ∷ ms) frame =
    last_word-append (verdict before q (data_of m)) q ms frame

inserted_some :
    (s : List ℕ) (x : ℕ)
    → (is_empty (set_insert s x) ≡ false)
      × (is_empty s ≡ true → (length (set_insert s x) == 1) ≡ true)
unfolding set_insert set_contains any
inserted_some [] x = (refl, λ h. refl)
inserted_some (y ∷ s) x = ground arith

left_some : (s : List ℕ) (x : ℕ) → is_empty s ≡ true → is_empty (set_remove s x) ≡ true
unfolding set_remove
left_some [] x h = refl
left_some (y ∷ s) x h = cc

heard_subscribe :
    (n : ℕ) (w : World) (id : ℕ) (p q : List ℕ)
    → IsHeard n w
    → last_word false q (inbox (replay_subscription w id p))
      ≡ has_peers (replay_subscription w id p) q
unfolding replay_subscription should_replay_subscription replay_subscription_change set_last_peer
    set_peer_topics push_to bytes_eq
heard_subscribe n w id p q h =
    let topics = w.endpoint.xpub_peer_topics in
    let before = topic_peers (Maps.get topics p) in
    ground (
      arith,
      h.heard q,
      inserted_some before id,
      get-insert topics p (set_insert before id) q,
      last_word-append false q (inbox w) (1 ∷ p),
      bytes_eq_iff p q,
    )

heard_unsubscribe :
    (n : ℕ) (w : World) (id : ℕ) (p q : List ℕ)
    → IsHeard n w
    → last_word false q (inbox (replay_unsubscription w id p false))
      ≡ has_peers (replay_unsubscription w id p false) q
unfolding replay_unsubscription should_replay_unsubscription drop_topic_peer
    replay_subscription_change set_last_peer set_peer_topics push_to bytes_eq
heard_unsubscribe n w id p q h =
    let topics = w.endpoint.xpub_peer_topics in
    let before = topic_peers (Maps.get topics p) in
    let left = set_remove before id in
    ground (
      arith,
      h.heard q,
      left_some before id,
      get-insert topics p left q,
      get-remove topics p q,
      last_word-append false q (inbox w) (0 ∷ p),
      bytes_eq_iff p q,
    )

pub subscribe-IsHeard :
    (n : ℕ) (w : World) (id : ℕ) (p : List ℕ) → IsHeard n w → IsHeard n (replay_subscription w id p)
unfolding replay_subscription should_replay_subscription replay_subscription_change set_last_peer
    set_peer_topics push_to policy_of
subscribe-IsHeard n w id p h = record {
  binder = ground (arith, h.binder);
  quiet_subscribe = ground (arith, h.quiet_subscribe);
  quiet_unsubscribe = ground (arith, h.quiet_unsubscribe);
  automatic = ground (arith, h.automatic);
  no_farewell = ground (arith, h.no_farewell);
  place = ground (arith, h.place);
  heard = λ q. heard_subscribe n w id p q h;
}

pub unsubscribe-IsHeard :
    (n : ℕ) (w : World) (id : ℕ) (p : List ℕ)
    → IsHeard n w
    → IsHeard n (replay_unsubscription w id p false)
unfolding replay_unsubscription should_replay_unsubscription drop_topic_peer
    replay_subscription_change set_last_peer set_peer_topics push_to policy_of
unsubscribe-IsHeard n w id p h = record {
  binder = ground (arith, h.binder);
  quiet_subscribe = ground (arith, h.quiet_subscribe);
  quiet_unsubscribe = ground (arith, h.quiet_unsubscribe);
  automatic = ground (arith, h.automatic);
  no_farewell = ground (arith, h.no_farewell);
  place = ground (arith, h.place);
  heard = λ q. heard_unsubscribe n w id p q h;
}

-- A subscription that the peer has already is not passed on.
pub repeat-IsHeard :
    (n : ℕ) (w : World) (id : ℕ) (p : List ℕ)
    → IsHeard n w
    → replay_duplicate_subscription w id p ≡ w
unfolding replay_duplicate_subscription should_replay_subscription
repeat-IsHeard n w id p h = ground (arith, h.quiet_subscribe, h.automatic)
