-- ===== src/Subscriber/Examples.antt =====
-- Two sockets that subscribe to topics of an XPUB binder.
use libzmq_ru.Base.{ℕ, refl, false, some, none, List, [], ◌∷◌}
use libzmq_ru.Base.Maps
use libzmq_ru.Inproc.{World, new, policy_of}
use libzmq_ru.SocketType.{SocketType, xpub, xsub}
use libzmq_ru.Subscriber.{SubscriberSocket}
use libzmq_ru.Subscriber.History.{
  Call, subscribes, unsubscribes, after_calls, IsConsistent, calls-IsConsistent,
}
use libzmq_ru.Subscriptions.{default_state}

abbrev quiet : World
quiet = record {
  heap = record {
    queues = λ _. [];
    subscriptions = λ _. default_state;
    disconnect_msgs = λ _. [];
    welcomes = λ _. none;
    policies = λ _. record {
      verbose_subscribe = false;
      verbose_unsubscribe = false;
      manual = false;
      manual_last_value = false;
    };
  };
  endpoint = new 0 xpub 0 0 0 0;
}

abbrev socket : ℕ → SubscriberSocket
socket n = record {
  id = n;
  socket_type = xsub;
  xpub_manual = false;
  xsub_verbose_unsubscribe = false;
  subscriptions = n;
  bound_endpoint = none;
  connected_endpoint = some (97 ∷ []);
}

quiet-IsConsistent : IsConsistent quiet
unfolding new policy_of default_state libzmq_ru.SocketType.type_eq Maps.get Maps.contains_key
    libzmq_ru.Inproc.set_contains
quiet-IsConsistent = record {
  balanced = record {
    binder = refl;
    quiet_subscribe = refl;
    quiet_unsubscribe = refl;
    automatic = refl;
    balance = λ q. refl;
  };
  agrees = λ id q. refl;
}

abbrev calls : List Call
calls =
    subscribes (socket 1) (65 ∷ [])
    ∷ subscribes (socket 1) (65 ∷ [])
    ∷ subscribes (socket 2) (65 ∷ [])
    ∷ unsubscribes (socket 1) (65 ∷ [])
    ∷ unsubscribes (socket 1) (66 ∷ [])
    ∷ []

calls-IsConsistent_example : IsConsistent (after_calls quiet calls)
calls-IsConsistent_example =
    calls-IsConsistent calls quiet quiet-IsConsistent (refl, (refl, (refl, (refl, (refl, tt)))))
