-- ===== src/Inproc/Dispatch/Rotation.antt =====
-- The peers are served in turn.
use mathlib.Core.Path.{ap₂}
use native.Mathlib.Nat.{mul-add-mod_self_right, mod-eq_of_lt, div-add-mod', mod-lt}
use libzmq_ru.Base.{
  Bool-cases, inl, inr, leb, ℕ, zero, suc, ◌+◌, ◌-◌, ◌*◌, ◌/◌, ◌%◌, ◌^◌, ◌<◌, ◌≡◌, ap, ◌∙◌, Option,
  List, length, get_elem?, if◌then◌else◌, arith,
}
use libzmq_ru.Inproc.{World, InprocPeer}
use libzmq_ru.Inproc.Dispatch.{next_peer, inbox_of}

-- The world after a number of calls of `next_peer`.
abbrev pub after_calls : ℕ → World → World
after_calls zero w = w
after_calls (suc n) w = after_calls n (next_peer w).0

next_peer-peers : (w : World) → (next_peer w).0.endpoint.peers ≡ w.endpoint.peers
unfolding next_peer
next_peer-peers w = ground arith

next_peer_counter :
    (w : World)
    → 0 < length w.endpoint.peers
    → w.endpoint.next_peer + 1 < 2 ^ 64
    → (next_peer w).0.endpoint.next_peer ≡ w.endpoint.next_peer + 1
unfolding next_peer
next_peer_counter w h k = ground arith

abbrev turn : List InprocPeer → ℕ → Option ℕ
turn peers n = inbox_of (get_elem? peers (n % length peers))

next_peer_now :
    (w : World)
    → 0 < length w.endpoint.peers
    → (next_peer w).1 ≡ turn w.endpoint.peers w.endpoint.next_peer
unfolding next_peer
next_peer_now w h = ground arith

-- The call after `n` others returns the peer at the counter's value plus `n`, modulo the peers.
next_peer-after_calls :
    (n : ℕ) (w : World)
    → 0 < length w.endpoint.peers
    → w.endpoint.next_peer + n < 2 ^ 64
    → (next_peer (after_calls n w)).1 ≡ turn w.endpoint.peers (w.endpoint.next_peer + n)
next_peer-after_calls zero w h k = next_peer_now w h ∙ ap (turn w.endpoint.peers) (omega arith)
next_peer-after_calls (suc n) w h k =
    let peers = next_peer-peers w in
    let counter = next_peer_counter w h (omega arith) in
    let more =
      next_peer-after_calls n (next_peer w).0 (omega (arith, ap length peers))
        (omega (arith, counter)) in
    more ∙ ap₂ turn peers (omega (arith, counter))

-- Some call within a round of the peers comes to the place `j`.
abbrev round_offset : ℕ → ℕ → ℕ → ℕ
round_offset c len j = if leb (c % len) j then j - c % len else j + len - c % len

mod_multiple : (q len j : ℕ) → j < len → (q * len + j) % len ≡ j
mod_multiple q len j h = mul-add-mod_self_right q len j ∙ mod-eq_of_lt h

round_offset-mod : (c len j : ℕ) → j < len → (c + round_offset c len j) % len ≡ j
round_offset-mod c len j h =
    let quotient = c / len in
    let division = div-add-mod' c len in
    elim (Bool-cases (leb (c % len) j)) [
      | inl ahead ↦
          let offset : c + (j - c % len) ≡ quotient * len + j = ground (arith, division) in
          rw ahead (ap (λ n. n % len) offset ∙ mod_multiple quotient len j h)
      | inr behind ↦
          let small = mod-lt c {m = len} (omega arith) in
          let offset : c + (j + len - c % len) ≡ suc quotient * len + j =
            ground (arith, division, small) in
          rw behind (ap (λ n. n % len) offset ∙ mod_multiple (suc quotient) len j h)
    ]

-- While the counter does not wrap around, each peer of an endpoint is returned by one of the next
-- calls, as many as there are peers: no peer is passed over.
pub next_peer_fair :
    (w : World) (j : ℕ)
    → j < length w.endpoint.peers
    → w.endpoint.next_peer + length w.endpoint.peers < 2 ^ 64
    → (n : ℕ) × (n < length w.endpoint.peers)
      × ((next_peer (after_calls n w)).1 ≡ inbox_of (get_elem? w.endpoint.peers j))
next_peer_fair w j h k =
    let c = w.endpoint.next_peer in
    let len = length w.endpoint.peers in
    let n = round_offset c len j in
    let small : n < len = ground arith in
    (
      n,
      small,
      next_peer-after_calls n w (omega arith) (omega arith)
          ∙ ap (λ i. inbox_of (get_elem? w.endpoint.peers i)) (round_offset-mod c len j h),
    )
