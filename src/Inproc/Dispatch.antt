-- ===== src/Inproc/Dispatch.antt =====
-- Where a message of the binder goes: to the first peer, to the next in turn, or to those that
-- accept it.
pub mod Delivery
pub mod Rotation
use libzmq_ru.Base.{
  ℕ, ◌+◌, ◌%◌, ◌^◌, Bool, ◌&&◌, Option, none, some, List, [], ◌∷◌, is_empty, length, find, take,
  map, get_elem?, leb, bytes_eq, if◌then◌else◌,
}
use libzmq_ru.Base.Maps.{Assoc}
use libzmq_ru.Inproc.{
  World, InprocPeer, peer_accepts, push_to, policy_of, set_contains, set_insert, set_last_peer,
}
use libzmq_ru.Inproc.Topics.{is_xpub}
use libzmq_ru.Inproc.Peers.{has_id}
use libzmq_ru.Message.{Message, data_of, len}

abbrev pub inbox_of : Option InprocPeer → Option ℕ
inbox_of none = none
inbox_of (some p) = some p.inbox

unfoldable pub first_peer : World → Option ℕ
first_peer w = inbox_of (get_elem? w.endpoint.peers 0)

unfoldable pub peer_count : World → ℕ
peer_count w = length w.endpoint.peers

unfoldable pub peer_queue_depths : World → List ℕ
peer_queue_depths w = map (λ (p : InprocPeer). length (w.heap.queues p.inbox)) w.endpoint.peers

-- `fetch_add` wraps around at 2^64.
unfoldable pub next_peer : World → World × Option ℕ
next_peer w =
    let peers = w.endpoint.peers in
    if is_empty peers then (w, none) else (
      record w { endpoint = record w.endpoint { next_peer = (w.endpoint.next_peer + 1) % 2 ^ 64 } },
      inbox_of (get_elem? peers (w.endpoint.next_peer % length peers)),
    )

unfoldable pub peer_by_id : World → ℕ → Option ℕ
peer_by_id w id = inbox_of (find (has_id id) w.endpoint.peers)

-- `prefix.len() <= message.len() && message.data().starts_with(prefix)`
abbrev pub topic_matches : Message → List ℕ → Bool
topic_matches m prefix =
    leb (length prefix) (len m) && bytes_eq (take (length prefix) (data_of m)) prefix

-- The last peer, if one of the matching topics has it.
last_peer_ids : Message → ℕ → Assoc (List ℕ) → List ℕ → List ℕ
last_peer_ids m last [] ids = ids
last_peer_ids m last ((prefix, peers) ∷ topics) ids =
    last_peer_ids m last topics
      (if set_contains peers last && topic_matches m prefix then set_insert ids last else ids)

extend : List ℕ → List ℕ → List ℕ
extend ids [] = ids
extend ids (p ∷ peers) = extend (set_insert ids p) peers

-- The peers of all matching topics.
topic_ids : Message → Assoc (List ℕ) → List ℕ → List ℕ
unfolding extend
topic_ids m [] ids = ids
topic_ids m ((prefix, peers) ∷ topics) ids =
    topic_ids m topics (if topic_matches m prefix then extend ids peers else ids)

-- With `manual_last_value` the last peer is taken out.
unfoldable pub manual_matching_peer_ids : World → Message → Bool → World × List ℕ
unfolding last_peer_ids topic_ids
manual_matching_peer_ids w m manual_last_value =
    let topics = w.endpoint.xpub_manual_topics in
    let all = topic_ids m topics [] in
    if manual_last_value
    then elim w.endpoint.xpub_last_peer [
      | some last ↦ (set_last_peer w none, last_peer_ids m last topics [])
      | none ↦ (set_last_peer w none, all)
    ]
    else (w, all)

-- The inboxes of the peers that pass a test, in the order of the peers.
inboxes_where : (InprocPeer → Bool) → List InprocPeer → List ℕ
inboxes_where accepts [] = []
inboxes_where accepts (p ∷ ps) =
    let rest = inboxes_where accepts ps in if accepts p then p.inbox ∷ rest else rest

unfoldable pub matching_peers : World → Message → World × List ℕ
unfolding inboxes_where
matching_peers w m =
    let policy = policy_of w in
    let peers = w.endpoint.peers in
    if is_xpub w && policy.manual
    then (let (w', ids) = manual_matching_peer_ids w m policy.manual_last_value in
        (w', inboxes_where (λ p. set_contains ids p.id) peers))
    else (w, inboxes_where (peer_accepts w.heap m) peers)

-- The loop over the peers; the count of messages sent comes back with the world.
send_each : World → Message → List InprocPeer → ℕ → World × ℕ
send_each w m [] sent = (w, sent)
send_each w m (p ∷ ps) sent =
    let accepts = peer_accepts w.heap m p in
    send_each (if accepts then push_to w p.inbox m else w) m ps (if accepts then sent + 1 else sent)

send_to_peers : World → Message → List InprocPeer → World × ℕ
unfolding send_each
send_to_peers w m (p ∷ []) = if peer_accepts w.heap m p then (push_to w p.inbox m, 1) else (w, 0)
send_to_peers w m peers = send_each w m peers 0

unfoldable pub send_owned_to_matching_peers : World → Message → World × ℕ
unfolding send_to_peers
send_owned_to_matching_peers w m = send_to_peers w m w.endpoint.peers
