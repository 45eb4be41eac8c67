-- ===== src/Inproc/Peers/Hearing.antt =====
-- What an XPUB binder has heard of a topic last, over all that its peers do.
use libzmq_ru.Base.{ℕ, ◌≡◌, Bool, false, List, [], ◌∷◌, ◌==◌, if◌then◌else◌}
use libzmq_ru.Inproc.{World, InprocPeer}
use libzmq_ru.Inproc.Peers.{add_peer, remove_peer}
use libzmq_ru.Inproc.Topics.{
  replay_unsubscription, replay_subscription, replay_duplicate_subscription,
}
use libzmq_ru.Subscriptions.{SubscriptionState}

-- What peers do: they subscribe, for the first time or again, and unsubscribe, change their own
-- sets of subscriptions, connect, and are removed. A peer may unsubscribe from what it does not have.
pub data PeerEvent : Type 0 where
  subscribes : (id : ℕ) (prefix : List ℕ) → PeerEvent
  repeats : (id : ℕ) (prefix : List ℕ) → PeerEvent
  unsubscribes : (id : ℕ) (prefix : List ℕ) → PeerEvent
  changes : (set : ℕ) → SubscriptionState → PeerEvent
  comes : InprocPeer → PeerEvent
  goes : (id : ℕ) (notify : Bool) → PeerEvent

abbrev pub changed : World → ℕ → SubscriptionState → World
changed w set s = record w {
  heap = record w.heap { subscriptions = λ k. if k == set then s else w.heap.subscriptions k };
}

abbrev pub after_event : World → PeerEvent → World
after_event w (subscribes id prefix) = replay_subscription w id prefix
after_event w (repeats id prefix) = replay_duplicate_subscription w id prefix
after_event w (unsubscribes id prefix) = replay_unsubscription w id prefix false
after_event w (changes set s) = changed w set s
after_event w (comes p) = (add_peer w p).0
after_event w (goes id notify) = (remove_peer w id notify).0

abbrev pub after_events : World → List PeerEvent → World
after_events w [] = w
after_events w (e ∷ es) = after_events (after_event w e) es

-- A peer that comes has an inbox of its own.
abbrev pub IsApart : ℕ → PeerEvent → Type 0
IsApart n (subscribes id prefix) = Unit
IsApart n (repeats id prefix) = Unit
IsApart n (unsubscribes id prefix) = Unit
IsApart n (changes set s) = Unit
IsApart n (comes p) = (p.inbox == n) ≡ false
IsApart n (goes id notify) = Unit
