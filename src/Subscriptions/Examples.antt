-- ===== src/Subscriptions/Examples.antt =====
-- Runs of the subscription state, and the theorems at inputs that meet their hypotheses.
use libzmq_ru.Base.{ℕ, ◌≡◌, ◌↔◌, refl, Bool, true, false, List, [], ◌∷◌, arith}
use libzmq_ru.Subscriptions.{
  SubscriptionState, default_state, insert, remove, remove_last, matches_prefix_of, run, step,
  subscribes, unsubscribes, Change,
}
use libzmq_ru.Subscriptions.Index.{default-IsIndexed}
use libzmq_ru.Subscriptions.Preserved.{run-IsIndexed}
use libzmq_ru.Subscriptions.Matching.{IsSubscribed, matches-IsSubscribed}
use libzmq_ru.Subscriptions.Counts.{RemoveOutcome, remove_outcome}

abbrev topic : List ℕ
topic = b'a' ∷ b'b' ∷ []

abbrev history : List Change
history =
    subscribes topic ∷ subscribes topic ∷ subscribes [] ∷ unsubscribes topic ∷ unsubscribes [] ∷ []

still_subscribed :
    (matches_prefix_of (run default_state history) (b'a' ∷ b'b' ∷ b'c' ∷ []) ≡ true)
    × (matches_prefix_of (run default_state history) (b'a' ∷ b'c' ∷ []) ≡ false)
unfolding run step insert remove remove_last default_state matches_prefix_of libzmq_ru.Base.Maps.get
    libzmq_ru.Subscriptions.insert_new libzmq_ru.Subscriptions.index_prefix
    libzmq_ru.Base.Maps.insert libzmq_ru.Base.bytes_eq libzmq_ru.Subscriptions.index_all
    libzmq_ru.Base.retain libzmq_ru.Base.Maps.contains_key libzmq_ru.Base.Maps.remove
    libzmq_ru.Subscriptions.has_length
still_subscribed = (refl, refl)

matches-IsSubscribed_example :
    (matches_prefix_of (run default_state history) topic ≡ true)
    ↔ IsSubscribed (run default_state history) topic
matches-IsSubscribed_example = matches-IsSubscribed history topic

remove_outcome_example : RemoveOutcome (run default_state history) topic topic
remove_outcome_example =
    remove_outcome (run default_state history) topic topic
      (run-IsIndexed default_state history default-IsIndexed)
