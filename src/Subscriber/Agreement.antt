-- ===== src/Subscriber/Agreement.antt =====
-- An XPUB binder's topics agree with its peers' own subscriptions.
use libzmq_ru.Base.{
  ℕ, ◌≡◌, refl, ap, ◌∙◌, inl, inr, Bool, true, false, not, ◌&&◌, List, ◌==◌, if◌then◌else◌, arith,
  Bool-cases, bytes_eq, bytes_eq_iff,
}
use libzmq_ru.Base.Maps
use libzmq_ru.Base.Maps.{get-insert, get-remove}
use libzmq_ru.Inproc.{World, set_contains}
use libzmq_ru.Inproc.Peers.Removal.{has_topic}
use libzmq_ru.Inproc.Topics.{is_xpub, topic_peers}
use libzmq_ru.Subscriber.{
  SubscriberSocket, set_subscriptions, subscribe_in, unsubscribe_in, insert_own, remove_own,
  tell_subscription, tell_unsubscription,
}
use libzmq_ru.SocketType.{type_eq, xpub, xsub}
use libzmq_ru.Subscriptions.{SubscriptionState, insert, remove}
use libzmq_ru.Subscriptions.Presence.{has_prefix, insert-has_prefix, remove-has_prefix}
use libzmq_ru.Inproc.Topics.Told.{
  subscription-Told, unsubscription-Told, duplicate-Unchanged, unmatched-Unchanged,
}

-- Whether a socket's id stands at a topic just when the socket has the prefix.
abbrev pub Agrees : World → SubscriberSocket → List ℕ → Type 0
Agrees w s q = has_topic w q s.id ≡ has_prefix (w.heap.subscriptions s.subscriptions) q

-- Two sockets are one, or differ in their ids and in their subscription sets.
abbrev pub own_sets : SubscriberSocket → SubscriberSocket → Bool
own_sets c t =
    (if c.id == t.id
      then c.subscriptions == t.subscriptions
      else not (c.subscriptions == t.subscriptions))

-- What a call does at one topic for one socket, by the change of the caller's own set.
record Step (w v : World) (c : SubscriberSocket) (p q : List ℕ) (k : ℕ) (changed now : Bool)
    : Type 0 where
  topic :
      has_topic v q k ≡ (if changed && (bytes_eq p q && c.id == k) then now else has_topic w q k)
  binder : v.endpoint.binder_type ≡ w.endpoint.binder_type
  sets : v.heap.subscriptions ≡ w.heap.subscriptions

told_subscription :
    (w : World) (c : SubscriberSocket) (p q : List ℕ) (k : ℕ) (inserted : Bool)
    → is_xpub w ≡ true
    → Step w (tell_subscription w c.id p inserted) c p q k inserted true
unfolding tell_subscription
told_subscription w c p q k true h =
    let told = subscription-Told w c.id p q k h in
    record { topic = told.topic; binder = told.binder; sets = told.sets }
told_subscription w c p q k false h =
    let same = duplicate-Unchanged w c.id p in
    record {
      topic = ap (λ topics. set_contains (topic_peers (Maps.get topics q)) k) same.topics;
      binder = same.binder;
      sets = same.sets;
    }

told_unsubscription :
    (w : World) (c : SubscriberSocket) (p q : List ℕ) (k : ℕ) (removed : Bool)
    → is_xpub w ≡ true
    → Step w (tell_unsubscription w c p removed) c p q k removed false
unfolding tell_unsubscription
told_unsubscription w c p q k true h =
    let told = unsubscription-Told w c.id p q k h in
    elim (Bool-cases (type_eq c.socket_type xsub && c.xsub_verbose_unsubscribe)) [
      | inl verbose ↦
          rw verbose (record { topic = told.topic; binder = told.binder; sets = told.sets })
      | inr quiet ↦ rw quiet (record { topic = told.topic; binder = told.binder; sets = told.sets })
    ]
told_unsubscription w c p q k false h =
    let same = unmatched-Unchanged w c.id p in
    elim (Bool-cases (type_eq c.socket_type xsub && c.xsub_verbose_unsubscribe)) [
      | inl verbose ↦ rw verbose (record {
        topic = ap (λ topics. set_contains (topic_peers (Maps.get topics q)) k) same.topics;
        binder = same.binder;
        sets = same.sets;
      })
      | inr quiet ↦ rw quiet (record { topic = refl; binder = refl; sets = refl })
    ]

-- The set of a socket `t` after the set of `c` is replaced.
set_after :
    (w : World) (c t : SubscriberSocket) (fresh : SubscriptionState) (q : List ℕ)
    → has_prefix ((set_subscriptions w.heap c.subscriptions fresh).subscriptions t.subscriptions) q
      ≡ (if t.subscriptions == c.subscriptions
          then has_prefix fresh q
          else has_prefix (w.heap.subscriptions t.subscriptions) q)
set_after w c t fresh q = elim (Bool-cases (t.subscriptions == c.subscriptions)) [
  | inl same ↦ rw same refl
  | inr other ↦ rw other refl
]

same_set :
    (w : World) (c t : SubscriberSocket) (q : List ℕ)
    → (t.subscriptions == c.subscriptions) ≡ true
    → has_prefix (w.heap.subscriptions c.subscriptions) q
      ≡ has_prefix (w.heap.subscriptions t.subscriptions) q
same_set w c t q same =
    let number : c.subscriptions ≡ t.subscriptions = ground (arith, same) in
    ap (λ n. has_prefix (w.heap.subscriptions n) q) number

same_prefix :
    (s : SubscriptionState) (p q : List ℕ) → bytes_eq p q ≡ true → has_prefix s p ≡ has_prefix s q
same_prefix s p q same = ap (has_prefix s) ((bytes_eq_iff p q).0 same)

pub subscribe-Agrees :
    (w : World) (c t : SubscriberSocket) (p q : List ℕ)
    → is_xpub w ≡ true
    → own_sets c t ≡ true
    → Agrees w t q
    → Agrees (subscribe_in w c p) t q × (is_xpub (subscribe_in w c p) ≡ true)
unfolding subscribe_in insert_own
subscribe-Agrees w c t p q binder own h =
    let before = w.heap.subscriptions c.subscriptions in
    let outcome = insert-has_prefix before p q in
    let w1 = (insert_own w c p).0 in
    let told = told_subscription w1 c p q t.id (insert before p).1 binder in
    let after =
      ap (λ (sets : ℕ → SubscriptionState). has_prefix (sets t.subscriptions) q) told.sets in
    (
      ground (
        arith,
        told.topic,
        after,
        set_after w c t (insert before p).0 q,
        outcome.0,
        outcome.1,
        same_set w c t q,
        same_prefix before p q,
      ),
      ap (λ type. type_eq type xpub) told.binder ∙ binder,
    )

pub unsubscribe-Agrees :
    (w : World) (c t : SubscriberSocket) (p q : List ℕ)
    → is_xpub w ≡ true
    → own_sets c t ≡ true
    → Agrees w t q
    → Agrees (unsubscribe_in w c p) t q × (is_xpub (unsubscribe_in w c p) ≡ true)
unfolding unsubscribe_in remove_own
unsubscribe-Agrees w c t p q binder own h =
    let before = w.heap.subscriptions c.subscriptions in
    let outcome = remove-has_prefix before p q in
    let w1 = (remove_own w c p).0 in
    let told = told_unsubscription w1 c p q t.id (remove before p).1 binder in
    let after =
      ap (λ (sets : ℕ → SubscriptionState). has_prefix (sets t.subscriptions) q) told.sets in
    (
      ground (
        arith,
        told.topic,
        after,
        set_after w c t (remove before p).0 q,
        outcome.0,
        outcome.1,
        same_set w c t q,
        same_prefix before p q,
      ),
      ap (λ type. type_eq type xpub) told.binder ∙ binder,
    )
