-- ===== src/Context/Registry/Binding.antt =====
-- A peer may connect before its endpoint is bound.
use libzmq_ru.Base.{
  ℕ, ◌≡◌, refl, ap, sym, ◌∙◌, inl, inr, Bool, not, List, [], ◌∷◌, ◌++◌, any, if◌then◌else◌, arith,
}
use libzmq_ru.Context.Registry.{add_all}
use libzmq_ru.Error.{Result, Error, Result-cases, ok, err, not_supported}
use libzmq_ru.Inproc.{World, InprocPeer, push_to, set_last_peer, set_peer_topics}
use libzmq_ru.Inproc.Peers.{
  add_peer, subscribe_all, replay_xsub_subscriptions, send_welcome_to_xsub,
}
use libzmq_ru.Inproc.Topics.{
  should_replay_subscription, replay_subscription, replay_subscription_change,
}
use libzmq_ru.SocketType.{SocketType, inproc_types_compatible}

-- Whether a peer may connect to a binder of a type.
abbrev pub fits : SocketType → InprocPeer → Bool
fits t p = inproc_types_compatible t p.socket_type

pub add_peer-result :
    (w : World) (p : InprocPeer)
    → (add_peer w p).1 ≡ (if fits w.endpoint.binder_type p then ok tt else err not_supported)
unfolding add_peer
add_peer-result w p = ground arith

replay-type :
    (w : World) (id : ℕ) (q : List ℕ)
    → (replay_subscription w id q).endpoint.binder_type ≡ w.endpoint.binder_type
unfolding replay_subscription should_replay_subscription replay_subscription_change set_last_peer
    set_peer_topics push_to
replay-type w id q = ground arith

subscribe_all-type :
    (ps : List (List ℕ)) (w : World) (id : ℕ)
    → (subscribe_all w id ps).endpoint.binder_type ≡ w.endpoint.binder_type
unfolding subscribe_all
subscribe_all-type [] w id = refl
subscribe_all-type (p ∷ ps) w id =
    subscribe_all-type ps (replay_subscription w id p) id ∙ replay-type w id p

pub add_peer-type :
    (w : World) (p : InprocPeer) → (add_peer w p).0.endpoint.binder_type ≡ w.endpoint.binder_type
unfolding add_peer replay_xsub_subscriptions send_welcome_to_xsub push_to
add_peer-type w p =
    let grown = record w {
      endpoint = record w.endpoint { peers = w.endpoint.peers ++ (p ∷ []) };
    } in
    ground (arith, subscribe_all-type (w.heap.subscriptions p.subscriptions).prefixes grown p.id)

-- The loop over waiting peers fails exactly if one of them does not fit.
pub add_all-result :
    (ps : List InprocPeer) (w : World)
    → (add_all w ps).1
      ≡ (if any (λ p. not (fits w.endpoint.binder_type p)) ps then err not_supported else ok tt)
unfolding add_all any
add_all-result [] w = refl
add_all-result (p ∷ ps) w =
    ground (arith, add_peer-result w p, add_peer-type w p, add_all-result ps (add_peer w p).0)

pub add_all_step :
    (w : World) (p : InprocPeer) (ps : List InprocPeer) {u : Unit {0}}
    → (add_peer w p).1 ≡ ok u
    → add_all w (p ∷ ps) ≡ add_all (add_peer w p).0 ps
unfolding add_all
add_all_step w p ps passed = rw (passed, add_all) refl

pub add_all_stop :
    (w : World) (p : InprocPeer) (ps : List InprocPeer) {e : Error}
    → (add_peer w p).1 ≡ err e
    → (add_all w (p ∷ ps)).1 ≡ err e
unfolding add_all
add_all_stop w p ps failed = rw (failed, add_all) refl

pub add_all-append :
    (ps : List InprocPeer) (w : World) (p : InprocPeer)
    → (add_all w ps).1 ≡ ok tt
    → add_all w (ps ++ (p ∷ [])) ≡ add_all (add_all w ps).0 (p ∷ [])
unfolding add_all
add_all-append [] w p h = refl
add_all-append (q ∷ ps) w p h = elim (Result-cases (add_peer w q).1) [
  | inl (e, failed) ↦ absurd (fails failed (add_all_stop w q ps failed))
  | inr (u, passed) ↦
      let step = add_all_step w q ps passed in
      add_all_step w q (ps ++ (p ∷ [])) passed
      ∙ add_all-append ps (add_peer w q).0 p
          (ap (λ (r : World × Result (Unit {0})). r.1) (sym step) ∙ h)
      ∙ ap (λ (r : World × Result (Unit {0})). add_all r.0 (p ∷ [])) (sym step)
]
  where
    fails : {e : Error} → (add_peer w q).1 ≡ err e → (add_all w (q ∷ ps)).1 ≡ err e → ⊥
    fails failed stopped = cc
