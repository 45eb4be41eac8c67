-- ===== src/Inproc/Peers/Departure.antt =====
-- A peer that is removed is gone from the peers and from the topics of its subscriptions.
use libzmq_ru.Base.{
  ℕ, ◌%◌, ◌^◌, ◌≡◌, ◌≤◌, refl, ap, subst, ◌&&◌, ◌∙◌, Bool, true, false, not, none, some, List, [],
  ◌∷◌, find, retain, length, ◌==◌, if◌then◌else◌, arith,
}
use libzmq_ru.Base.Maps
use libzmq_ru.Base.Maps.{contains}
use libzmq_ru.Inproc.{World, InprocPeer, InprocEndpoint, set_contains, push_to, set_manual_topics}
use libzmq_ru.Inproc.Topics.{is_xpub, forget_manual, topic_peers, replay_unsubscription}
use libzmq_ru.Inproc.Peers.{
  unsubscribe_all, forget_all, remove_xsub_peer_subscriptions, drop_subscriptions, has_id,
  remove_peer, send_disconnect_message,
}
use libzmq_ru.Inproc.Peers.Removal.{
  has_topic, has_manual, unsubscription-Kept, left_in, unsubscribe_all_topics, forget_all_topics,
}
use libzmq_ru.SocketType.{type_eq, xsub}

-- What forgetting manual topics leaves alone.
record Same (w v : World) : Type 0 where
  topics : v.endpoint.xpub_peer_topics ≡ w.endpoint.xpub_peer_topics
  peers : v.endpoint.peers ≡ w.endpoint.peers

forget_manual-Same : (w : World) (id : ℕ) (p : List ℕ) → Same w (forget_manual w id p)
unfolding forget_manual set_manual_topics
forget_manual-Same w id p = ground arith

forget_all-Same : (w : World) (id : ℕ) (ps : List (List ℕ)) → Same w (forget_all w id ps)
unfolding forget_all
forget_all-Same w id [] = record { topics = refl; peers = refl }
forget_all-Same w id (p ∷ ps) =
    let first = forget_manual-Same w id p in
    let rest = forget_all-Same (forget_manual w id p) id ps in
    record { topics = rest.topics ∙ first.topics; peers = rest.peers ∙ first.peers }

unsubscribe_all-peers :
    (w : World) (id : ℕ) (ps : List (List ℕ))
    → (unsubscribe_all w id ps).endpoint.peers ≡ w.endpoint.peers
unfolding unsubscribe_all
unsubscribe_all-peers w id [] = refl
unsubscribe_all-peers w id (p ∷ ps) =
    unsubscribe_all-peers (replay_unsubscription w id p false) id ps
    ∙ (unsubscription-Kept w id p).peers

unsubscribe_all-manual :
    (w : World) (id : ℕ) (ps : List (List ℕ))
    → (unsubscribe_all w id ps).endpoint.xpub_manual_topics ≡ w.endpoint.xpub_manual_topics
unfolding unsubscribe_all
unsubscribe_all-manual w id [] = refl
unsubscribe_all-manual w id (p ∷ ps) =
    unsubscribe_all-manual (replay_unsubscription w id p false) id ps
    ∙ (unsubscription-Kept w id p).manual

-- After the prefixes `ps` of an XSUB peer are dropped, for the topic `q` and any peer `k`.
record Dropped (w v : World) (id : ℕ) (ps : List (List ℕ)) (q : List ℕ) (k : ℕ) : Type 0 where
  peers : v.endpoint.peers ≡ w.endpoint.peers
  topic : has_topic v q k ≡ left_in (has_topic w q k) id ps q k
  manual : has_manual v q k ≡ left_in (has_manual w q k) id ps q k

drop-Dropped :
    (w : World) (p : InprocPeer) (q : List ℕ) (k : ℕ)
    → type_eq p.socket_type xsub ≡ true
    → is_xpub w ≡ true
    → Dropped w
        (drop_subscriptions w (some p))
        p.id
        (w.heap.subscriptions p.subscriptions).prefixes
        q
        k
unfolding drop_subscriptions remove_xsub_peer_subscriptions
drop-Dropped w p q k type binder =
    let prefixes = (w.heap.subscriptions p.subscriptions).prefixes in
    let v = unsubscribe_all w p.id prefixes in
    let same = forget_all-Same v p.id prefixes in
    rw (type, binder, not)
      (record {
        peers = same.peers ∙ unsubscribe_all-peers w p.id prefixes;
        topic =
            ap (λ topics. set_contains (topic_peers (Maps.get topics q)) k) same.topics
            ∙ unsubscribe_all_topics w p.id prefixes q k binder;
        manual =
            forget_all_topics v p.id prefixes q k
            ∙ ap
                (λ topics.
                  left_in (set_contains (topic_peers (Maps.get topics q)) k) p.id prefixes q k)
                (unsubscribe_all-manual w p.id prefixes);
      })

disconnect-endpoint : (w : World) (id : ℕ) → (send_disconnect_message w id).endpoint ≡ w.endpoint
unfolding send_disconnect_message push_to
disconnect-endpoint w id = ground arith

length-retain-le :
    (id : ℕ) (ps : List InprocPeer) → length (retain (λ p. not (has_id id p)) ps) ≤ length ps
unfolding retain
length-retain-le id [] = omega arith
length-retain-le id (p ∷ ps) = ground (arith, length-retain-le id ps)

-- The peer that is found has the id, none is found after it is removed, and the list is shorter.
found_goes :
    (id : ℕ) (ps : List InprocPeer) (p : InprocPeer)
    → find (has_id id) ps ≡ some p
    → (p.id ≡ id) × ((length (retain (λ r. not (has_id id r)) ps) == length ps) ≡ false)
unfolding find retain
found_goes id [] p h = cc
found_goes id (r ∷ ps) p h = ground (arith, found_goes id ps p, length-retain-le id ps)

none_left :
    (id : ℕ) (ps : List InprocPeer) → find (has_id id) (retain (λ p. not (has_id id p)) ps) ≡ none
unfolding find retain
none_left id [] = refl
none_left id (p ∷ ps) = ground (arith, none_left id ps)

-- What a removal leaves: no peer of the id, and in each topic all that were there but the removed
-- peer, which is gone from those of its own prefixes `ps`.
abbrev pub Departed : World → ℕ → Bool → (ps : List (List ℕ)) (q : List ℕ) (k : ℕ) → Type 0
Departed w id notify ps q k =
    let r = remove_peer w id notify in
    (r.1 ≡ true)
    × (find (has_id id) r.0.endpoint.peers ≡ none)
    × (has_topic r.0 q k ≡ left_in (has_topic w q k) id ps q k)
    × (has_manual r.0 q k ≡ left_in (has_manual w q k) id ps q k)

after_removal :
    (w v : World) (id : ℕ) (ps : List (List ℕ)) (q : List ℕ) (k : ℕ) (removed notify : Bool)
    → Dropped w v id ps q k
    → Dropped w (if removed && notify then send_disconnect_message v (id % 2 ^ 32) else v) id ps q k
after_removal w v id ps q k false notify h = h
after_removal w v id ps q k true false h = h
after_removal w v id ps q k true true h =
    let same = disconnect-endpoint v (id % 2 ^ 32) in
    record {
      peers = ap (λ e. e.peers) same ∙ h.peers;
      topic =
          ap (λ (e : InprocEndpoint). set_contains (topic_peers (Maps.get e.xpub_peer_topics q)) k)
            same
          ∙ h.topic;
      manual =
          ap
            (λ (e : InprocEndpoint). set_contains (topic_peers (Maps.get e.xpub_manual_topics q)) k)
            same
          ∙ h.manual;
    }

-- The endpoint once the peer is out of its list.
abbrev without : World → ℕ → World
without w id = record w {
  endpoint = record w.endpoint { peers = retain (λ p. not (has_id id p)) w.endpoint.peers };
}

drop_found :
    (w : World) (p : InprocPeer) (id : ℕ) (q : List ℕ) (k : ℕ)
    → p.id ≡ id
    → type_eq p.socket_type xsub ≡ true
    → is_xpub w ≡ true
    → Dropped
        (without w id)
        (drop_subscriptions (without w id) (some p))
        id
        (w.heap.subscriptions p.subscriptions).prefixes
        q
        k
drop_found w p id q k same type binder =
    subst
      (λ i.
        Dropped (without w id) (drop_subscriptions (without w id) (some p)) i
          (w.heap.subscriptions p.subscriptions).prefixes q k)
      same (drop-Dropped (without w id) p q k type binder)

-- Removing an XSUB peer from an XPUB binder reports that it was there, leaves no peer of its id,
-- and takes the id out of exactly those topics that stand under a prefix of the peer's own
-- subscriptions, both of those that decide what the binder hears and of those that a manual binder
-- sends by. All other peers stay in their topics, and so does the id under a prefix that is not
-- among the peer's subscriptions.
pub remove_peer-Departed :
    (w : World) (id : ℕ) (notify : Bool) (p : InprocPeer) (q : List ℕ) (k : ℕ)
    → find (has_id id) w.endpoint.peers ≡ some p
    → type_eq p.socket_type xsub ≡ true
    → is_xpub w ≡ true
    → Departed w id notify (w.heap.subscriptions p.subscriptions).prefixes q k
unfolding remove_peer
remove_peer-Departed w id notify p q k found type binder =
    let goes = found_goes id w.endpoint.peers p found in
    let dropped = drop_found w p id q k goes.0 type binder in
    let gone = after_removal (without w id) _ id _ q k true notify dropped in
    rw (found, goes.1)
      (
        refl,
        ap (find (has_id id)) gone.peers ∙ none_left id w.endpoint.peers,
        gone.topic,
        gone.manual,
      )
