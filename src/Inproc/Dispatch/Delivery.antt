-- ===== src/Inproc/Dispatch/Delivery.antt =====
-- A message reaches exactly the peers that accept it.
use libzmq_ru.Base.{
  subst, inl, inr, ℕ, suc, ◌+◌, ◌≡◌, refl, sym, ap, ◌∙◌, Bool, true, ◌&&◌, List, [], ◌∷◌, ◌++◌,
  replicate, ◌==◌, if◌then◌else◌, arith, Bool-cases,
}
use mathlib.Core.List.{append_assoc, append-nil}
use libzmq_ru.Inproc.{World, InprocPeer, peer_accepts, push_to}
use libzmq_ru.Inproc.Dispatch.{send_each, send_to_peers, send_owned_to_matching_peers}
use libzmq_ru.Message.{Message}

-- How many of the peers pass a test and read from a queue.
abbrev pub deliveries : (InprocPeer → Bool) → ℕ → List InprocPeer → ℕ
deliveries accepts q [] = 0
deliveries accepts q (p ∷ ps) =
    (if accepts p && p.inbox == q then 1 else 0) + deliveries accepts q ps

abbrev pub accepting : (InprocPeer → Bool) → List InprocPeer → ℕ
accepting accepts [] = 0
accepting accepts (p ∷ ps) = (if accepts p then 1 else 0) + accepting accepts ps

append_replicate :
    (xs : List Message) (m : Message) (n : ℕ)
    → (xs ++ (m ∷ [])) ++ replicate n m ≡ xs ++ replicate (suc n) m
append_replicate xs m n = append_assoc xs (m ∷ []) (replicate n m)

push_step :
    (w : World) (i : ℕ) (m : Message) (q n : ℕ)
    → (push_to w i m).heap.queues q ++ replicate n m
      ≡ w.heap.queues q ++ replicate ((if true && i == q then 1 else 0) + n) m
unfolding push_to
push_step w i m q n =
    let grown : suc n ≡ 1 + n = omega arith in
    let same : n ≡ 0 + n = omega arith in
    elim (Bool-cases (i == q)) [
      | inl hit ↦ rw hit (
          append_replicate (w.heap.queues q) m n ∙ ap (λ k. w.heap.queues q ++ replicate k m) grown)
      | inr miss ↦ rw miss (ap (λ k. w.heap.queues q ++ replicate k m) same)
    ]

-- A push changes no subscription, so it changes no decision.
peer_accepts-push_to :
    (w : World) (i : ℕ) (m m' : Message)
    → peer_accepts (push_to w i m).heap m' ≡ peer_accepts w.heap m'
unfolding push_to peer_accepts
peer_accepts-push_to w i m m' = refl

plain : (n : ℕ) → n ≡ 0 + n
plain n = omega arith

send_each-queues :
    (w : World) (m : Message) (ps : List InprocPeer) (sent q : ℕ)
    → (send_each w m ps sent).0.heap.queues q
      ≡ w.heap.queues q ++ replicate (deliveries (peer_accepts w.heap m) q ps) m
unfolding send_each
send_each-queues w m [] sent q = sym (append-nil (w.heap.queues q))
send_each-queues w m (p ∷ ps) sent q = elim (Bool-cases (peer_accepts w.heap m p)) [
  | inl yes' ↦
      let next = push_to w p.inbox m in
      rw (yes', send_each)
        (send_each-queues next m ps (sent + 1) q
          ∙ ap (λ accepts. next.heap.queues q ++ replicate (deliveries accepts q ps) m)
              (peer_accepts-push_to w p.inbox m m)
          ∙ push_step w p.inbox m q (deliveries (peer_accepts w.heap m) q ps))
  | inr no' ↦
      rw (no', send_each)
        (send_each-queues w m ps sent q
          ∙ ap (λ k. w.heap.queues q ++ replicate k m)
              (plain (deliveries (peer_accepts w.heap m) q ps)))
]

send_each-sent :
    (w : World) (m : Message) (ps : List InprocPeer) (sent : ℕ)
    → (send_each w m ps sent).1 ≡ sent + accepting (peer_accepts w.heap m) ps
unfolding send_each
send_each-sent w m [] sent = omega arith
send_each-sent w m (p ∷ ps) sent = elim (Bool-cases (peer_accepts w.heap m p)) [
  | inl yes' ↦
      rw (yes', send_each)
        (send_each-sent (push_to w p.inbox m) m ps (sent + 1)
          ∙ ap (λ accepts. (sent + 1) + accepting accepts ps) (peer_accepts-push_to w p.inbox m m)
          ∙ omega arith)
  | inr no' ↦ rw (no', send_each) (send_each-sent w m ps sent ∙ omega arith)
]

send_each-endpoint :
    (w : World) (m : Message) (ps : List InprocPeer) (sent : ℕ)
    → (send_each w m ps sent).0.endpoint ≡ w.endpoint
unfolding send_each
send_each-endpoint w m [] sent = refl
send_each-endpoint w m (p ∷ ps) sent = elim (Bool-cases (peer_accepts w.heap m p)) [
  | inl yes' ↦
      rw (yes', send_each)
        (send_each-endpoint (push_to w p.inbox m) m ps (sent + 1) ∙ (unfold push_to in refl))
  | inr no' ↦ rw (no', send_each) (send_each-endpoint w m ps sent)
]

abbrev Sent : World → Message → List InprocPeer → World × ℕ → Type 0
Sent w m ps r =
    ((q : ℕ)
      → r.0.heap.queues q
        ≡ w.heap.queues q ++ replicate (deliveries (peer_accepts w.heap m) q ps) m)
    × (r.1 ≡ accepting (peer_accepts w.heap m) ps)
    × (r.0.endpoint ≡ w.endpoint)

send_each-Sent : (w : World) (m : Message) (ps : List InprocPeer) → Sent w m ps (send_each w m ps 0)
send_each-Sent w m ps = (
  λ q. send_each-queues w m ps 0 q,
  send_each-sent w m ps 0 ∙ omega arith,
  send_each-endpoint w m ps 0,
)

-- The shortcut for one peer does what the loop does.
one_peer :
    (w : World) (m : Message) (p : InprocPeer)
    → send_to_peers w m (p ∷ []) ≡ send_each w m (p ∷ []) 0
unfolding send_to_peers send_each
one_peer w m p = elim (Bool-cases (peer_accepts w.heap m p)) [
  | inl yes' ↦ rw (yes', send_each)
  | inr no' ↦ rw (no', send_each)
]

send_to_peers-Sent :
    (w : World) (m : Message) (ps : List InprocPeer) → Sent w m ps (send_to_peers w m ps)
unfolding send_to_peers
send_to_peers-Sent w m [] = send_each-Sent w m []
send_to_peers-Sent w m (p ∷ []) =
    subst (Sent w m (p ∷ [])) (sym (one_peer w m p)) (send_each-Sent w m (p ∷ []))
send_to_peers-Sent w m (p ∷ p' ∷ ps) = send_each-Sent w m (p ∷ p' ∷ ps)

abbrev pub DeliveredOnce : World → Message → Type 0
DeliveredOnce w m = Sent w m w.endpoint.peers (send_owned_to_matching_peers w m)

-- A message that the binder sends to its matching peers is appended to each queue once for every
-- peer that reads from it and accepts the message, and to no other queue; the result is the number
-- of these peers, and the endpoint is unchanged. The shortcut for a single peer is no exception.
pub send-DeliveredOnce : (w : World) (m : Message) → DeliveredOnce w m
unfolding send_owned_to_matching_peers
send-DeliveredOnce w m = send_to_peers-Sent w m w.endpoint.peers
