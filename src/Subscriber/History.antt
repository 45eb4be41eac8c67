-- ===== src/Subscriber/History.antt =====
-- What an XPUB binder hears over any history of calls of the sockets that are connected to it.
use libzmq_ru.Base.{
  ℕ, ◌≡◌, ap, sym, subst, ◌∙◌, inl, inr, Bool, true, false, not, ◌&&◌, List, [], ◌∷◌, ◌==◌, All,
  arith, Bool-cases,
}
use libzmq_ru.Inproc.{World, policy_of}
use libzmq_ru.Inproc.Peers.Removal.{has_topic}
use libzmq_ru.Inproc.Topics.{is_xpub, replay_duplicate_subscription, should_replay_subscription}
use libzmq_ru.Inproc.Topics.Upstream.{IsBalanced, Reach, here, next, Reach-IsBalanced}
use libzmq_ru.Inproc.Topics.Upstream as Upstream
use libzmq_ru.Subscriber.{
  SubscriberSocket, subscribe_in, unsubscribe_in, insert_own, remove_own, tell_subscription,
  tell_unsubscription,
}
use libzmq_ru.Subscriber.Agreement.{subscribe-Agrees, unsubscribe-Agrees, own_sets}
use libzmq_ru.SocketType.{type_eq, xsub}
use libzmq_ru.Subscriptions.{insert, remove}
use libzmq_ru.Subscriptions.Presence.{has_prefix, insert-has_prefix, remove-has_prefix}

pub data Call : Type 0 where
  subscribes unsubscribes : SubscriberSocket → List ℕ → Call

abbrev pub after_call : World → Call → World
after_call w (subscribes s p) = subscribe_in w s p
after_call w (unsubscribes s p) = unsubscribe_in w s p

abbrev pub after_calls : World → List Call → World
after_calls w [] = w
after_calls w (c ∷ cs) = after_calls (after_call w c) cs

abbrev pub caller : Call → SubscriberSocket
caller (subscribes s p) = s
caller (unsubscribes s p) = s

-- A socket with a subscription set of its own, which is numbered by the socket's id, and without
-- the option to pass on every unsubscription.
abbrev pub is_plain : SubscriberSocket → Bool
is_plain s = s.subscriptions == s.id && not s.xsub_verbose_unsubscribe

-- An XPUB binder with the default policy whose announcements balance, and whose topics are the
-- prefixes of the connected sockets.
pub record IsConsistent (w : World) : Type 0 where
  pub balanced : IsBalanced w
  pub agrees : (id : ℕ) (q : List ℕ) → has_topic w q id ≡ has_prefix (w.heap.subscriptions id) q

-- The socket of an id.
abbrev socket_of : SubscriberSocket → ℕ → SubscriberSocket
socket_of c id = record c { id = id; subscriptions = id }

plain-own_sets :
    (c : SubscriberSocket) (id : ℕ) → is_plain c ≡ true → own_sets c (socket_of c id) ≡ true
plain-own_sets c id h = ground arith

plain_set :
    (c : SubscriberSocket)
    → is_plain c ≡ true
    → (c.subscriptions ≡ c.id) × (c.xsub_verbose_unsubscribe ≡ false)
plain_set c h = ground arith

insert_own-IsBalanced :
    (w : World) (c : SubscriberSocket) (p : List ℕ) → IsBalanced w → IsBalanced (insert_own w c p).0
unfolding insert_own policy_of
insert_own-IsBalanced w c p h = record {
  binder = h.binder;
  quiet_subscribe = h.quiet_subscribe;
  quiet_unsubscribe = h.quiet_unsubscribe;
  automatic = h.automatic;
  balance = h.balance;
}

remove_own-IsBalanced :
    (w : World) (c : SubscriberSocket) (p : List ℕ) → IsBalanced w → IsBalanced (remove_own w c p).0
unfolding remove_own policy_of
remove_own-IsBalanced w c p h = record {
  binder = h.binder;
  quiet_subscribe = h.quiet_subscribe;
  quiet_unsubscribe = h.quiet_unsubscribe;
  automatic = h.automatic;
  balance = h.balance;
}

-- A subscription that was there already is not told to a quiet binder.
duplicate_quiet :
    (w : World) (id : ℕ) (p : List ℕ) → IsBalanced w → replay_duplicate_subscription w id p ≡ w
unfolding replay_duplicate_subscription should_replay_subscription
duplicate_quiet w id p h = ground (arith, h.binder, h.quiet_subscribe, h.automatic)

subscribe-IsBalanced :
    (w : World) (c : SubscriberSocket) (p : List ℕ)
    → IsBalanced w
    → has_topic w p c.id ≡ has_prefix (w.heap.subscriptions c.subscriptions) p
    → IsBalanced (subscribe_in w c p)
unfolding subscribe_in tell_subscription insert_own
subscribe-IsBalanced w c p h agrees =
    let outcome = insert-has_prefix (w.heap.subscriptions c.subscriptions) p p in
    let w1 = (insert_own w c p).0 in
    let ready = insert_own-IsBalanced w c p h in
    elim (Bool-cases (insert (w.heap.subscriptions c.subscriptions) p).1) [
      | inl inserted ↦ rw inserted (
          Reach-IsBalanced ready
            (next here (Upstream.subscribes c.id p (ground (arith, outcome.0, agrees, inserted)))))
      | inr known ↦ rw known (subst IsBalanced (sym (duplicate_quiet w1 c.id p ready)) ready)
    ]

not_passed_on :
    (c : SubscriberSocket)
    → c.xsub_verbose_unsubscribe ≡ false
    → (type_eq c.socket_type xsub && c.xsub_verbose_unsubscribe) ≡ false
not_passed_on c quiet = ground (arith, quiet)

unsubscribe-IsBalanced :
    (w : World) (c : SubscriberSocket) (p : List ℕ)
    → c.xsub_verbose_unsubscribe ≡ false
    → IsBalanced w
    → has_topic w p c.id ≡ has_prefix (w.heap.subscriptions c.subscriptions) p
    → IsBalanced (unsubscribe_in w c p)
unfolding unsubscribe_in tell_unsubscription remove_own
unsubscribe-IsBalanced w c p quiet h agrees =
    let outcome = remove-has_prefix (w.heap.subscriptions c.subscriptions) p p in
    let w1 = (remove_own w c p).0 in
    let ready = remove_own-IsBalanced w c p h in
    let unmatched = not_passed_on c quiet in
    elim (Bool-cases (remove (w.heap.subscriptions c.subscriptions) p).1) [
      | inl removed ↦
          rw (removed, unmatched)
            (Reach-IsBalanced ready (
              next here
                (Upstream.unsubscribes c.id p (ground (arith, outcome.0, agrees, removed)))))
      | inr kept ↦ rw (kept, unmatched) ready
    ]

-- The agreement at any topic, for the socket of any id.
call-agrees :
    (w : World) (c : Call)
    → is_xpub w ≡ true
    → is_plain (caller c) ≡ true
    → ((id : ℕ) (q : List ℕ) → has_topic w q id ≡ has_prefix (w.heap.subscriptions id) q)
    → (id : ℕ) (q : List ℕ)
    → has_topic (after_call w c) q id ≡ has_prefix ((after_call w c).heap.subscriptions id) q
call-agrees w (subscribes c p) binder plain h id q =
    (subscribe-Agrees w c (socket_of c id) p q binder (plain-own_sets c id plain) (h id q)).0
call-agrees w (unsubscribes c p) binder plain h id q =
    (unsubscribe-Agrees w c (socket_of c id) p q binder (plain-own_sets c id plain) (h id q)).0

own_agrees :
    (w : World) (c : SubscriberSocket) (p : List ℕ)
    → is_plain c ≡ true
    → IsConsistent w
    → has_topic w p c.id ≡ has_prefix (w.heap.subscriptions c.subscriptions) p
own_agrees w c p plain h =
    h.agrees c.id p ∙ ap (λ n. has_prefix (w.heap.subscriptions n) p) (sym (plain_set c plain).0)

call-IsBalanced :
    (w : World) (c : Call)
    → is_plain (caller c) ≡ true
    → IsConsistent w
    → IsBalanced (after_call w c)
call-IsBalanced w (subscribes c p) plain h =
    subscribe-IsBalanced w c p h.balanced (own_agrees w c p plain h)
call-IsBalanced w (unsubscribes c p) plain h =
    unsubscribe-IsBalanced w c p (plain_set c plain).1 h.balanced (own_agrees w c p plain h)

-- Whatever connected sockets subscribe to and unsubscribe from, each with a set of its own and
-- without the option to pass on unmatched unsubscriptions: the topics of an XPUB binder with the
-- default policy stay the prefixes of the sockets, and the frames in the binder's inbox announce
-- each topic as often as they withdraw it, and once more exactly while some socket has the prefix.
-- It does not matter how often a socket repeats a subscription.
pub calls-IsConsistent :
    (calls : List Call) (w : World)
    → IsConsistent w
    → All (λ c. is_plain (caller c) ≡ true) calls
    → IsConsistent (after_calls w calls)
calls-IsConsistent [] w h plain = h
calls-IsConsistent (c ∷ calls) w h plain =
    calls-IsConsistent calls (after_call w c)
      (record {
        balanced = call-IsBalanced w c plain.0 h;
        agrees = call-agrees w c h.balanced.binder plain.0 h.agrees;
      })
      plain.1
