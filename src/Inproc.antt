-- ===== src/Inproc.antt =====
-- The endpoint of the inproc transport (`InprocEndpoint` of crates/libzmq-core/src/context.rs).
-- What the code shares by `Arc<Mutex<…>>` is a cell of a heap, named by a number: sockets and
-- endpoints that share a queue hold the same number. A lock is never poisoned, since no code
-- panics while it holds one, so an operation that only locks has no error result here.
pub mod Sets
pub mod Topics
pub mod Peers
pub mod Dispatch
mod Examples
use libzmq_ru.Base.{
  ℕ, Bool, true, false, not, ◌||◌, Option, none, some, List, [], ◌∷◌, ◌++◌, any, retain, ◌==◌,
  if◌then◌else◌,
}
use libzmq_ru.Base.Maps.{Assoc}
use libzmq_ru.Message.{Message, data_of}
use libzmq_ru.SocketType.{SocketType, type_eq, sub, xsub, dish}
use libzmq_ru.Subscriptions.{SubscriptionState, matches_prefix_of, contains_exact}

pub record XpubSubscriptionPolicyState : Type 0 where
  pub verbose_subscribe : Bool
  pub verbose_unsubscribe : Bool
  pub manual : Bool
  pub manual_last_value : Bool

pub record Heap : Type 0 where
  pub queues : ℕ → List Message
  pub subscriptions : ℕ → SubscriptionState
  pub disconnect_msgs : ℕ → List ℕ
  pub welcomes : ℕ → Option (List ℕ)
  pub policies : ℕ → XpubSubscriptionPolicyState

pub record InprocPeer : Type 0 where
  pub id : ℕ
  pub inbox : ℕ
  pub socket_type : SocketType
  pub subscriptions : ℕ

-- A topic's set of peers is a list without repetitions.
pub record InprocEndpoint : Type 0 where
  pub binder_inbox : ℕ
  pub binder_type : SocketType
  pub binder_subscriptions : ℕ
  pub binder_disconnect_msg : ℕ
  pub binder_welcome : ℕ
  pub binder_xpub_policy : ℕ
  pub xpub_peer_topics : Assoc (List ℕ)
  pub xpub_manual_topics : Assoc (List ℕ)
  pub xpub_last_peer : Option ℕ
  pub peers : List InprocPeer
  pub next_peer : ℕ

-- The endpoint with the heap that its operations work on.
pub record World : Type 0 where
  pub heap : Heap
  pub endpoint : InprocEndpoint

unfoldable pub new :
    (binder_inbox : ℕ) (binder_type : SocketType)
    (binder_subscriptions binder_disconnect_msg binder_welcome binder_xpub_policy : ℕ)
    → InprocEndpoint
new inbox type subscriptions disconnect_msg welcome policy = record {
  binder_inbox = inbox;
  binder_type = type;
  binder_subscriptions = subscriptions;
  binder_disconnect_msg = disconnect_msg;
  binder_welcome = welcome;
  binder_xpub_policy = policy;
  xpub_peer_topics = [];
  xpub_manual_topics = [];
  xpub_last_peer = none;
  peers = [];
  next_peer = 0;
}

-- `HashSet<usize>`
unfoldable pub set_contains : List ℕ → ℕ → Bool
unfolding any
set_contains s x = any (λ y. y == x) s

unfoldable pub set_insert : List ℕ → ℕ → List ℕ
unfolding set_contains
set_insert s x = if set_contains s x then s else s ++ (x ∷ [])

unfoldable pub set_remove : List ℕ → ℕ → List ℕ
unfolding retain
set_remove s x = retain (λ y. not (y == x)) s

-- `queue.lock().push_back(message)`
abbrev pub push_queue : (ℕ → List Message) → ℕ → Message → ℕ → List Message
push_queue queues q m x = if q == x then queues x ++ (m ∷ []) else queues x

unfoldable pub push_to : World → ℕ → Message → World
push_to w q m = record w { heap = record w.heap { queues = push_queue w.heap.queues q m } }

unfoldable pub set_last_peer : World → Option ℕ → World
set_last_peer w p = record w { endpoint = record w.endpoint { xpub_last_peer = p } }

unfoldable pub set_peer_topics : World → Assoc (List ℕ) → World
set_peer_topics w topics = record w { endpoint = record w.endpoint { xpub_peer_topics = topics } }

unfoldable pub set_manual_topics : World → Assoc (List ℕ) → World
set_manual_topics w topics = record w {
  endpoint = record w.endpoint { xpub_manual_topics = topics };
}

unfoldable pub policy_of : World → XpubSubscriptionPolicyState
policy_of w = w.heap.policies w.endpoint.binder_xpub_policy

abbrev group_accepted : SubscriptionState → Option (List ℕ) → Bool
group_accepted s none = false
group_accepted s (some group) = contains_exact s group

unfoldable pub socket_type_accepts_message : SocketType → SubscriptionState → Message → Bool
socket_type_accepts_message sub s m = matches_prefix_of s (data_of m)
socket_type_accepts_message xsub s m = matches_prefix_of s (data_of m)
socket_type_accepts_message dish s m = group_accepted s m.group
socket_type_accepts_message _ s m = true

unfoldable pub binder_accepts : World → Message → Bool
binder_accepts w m =
    socket_type_accepts_message w.endpoint.binder_type
      (w.heap.subscriptions w.endpoint.binder_subscriptions) m

unfoldable pub peer_accepts : Heap → Message → InprocPeer → Bool
peer_accepts h m p = socket_type_accepts_message p.socket_type (h.subscriptions p.subscriptions) m
