-- ===== src/Context/Examples.antt =====
-- A context with a few sockets, options and endpoints, and the theorems at it.
use libzmq_ru.Base.{ℕ, ◌≡◌, ◌⊎◌, refl, Bool, true, false, some, none, List, [], ◌∷◌, arith}
use libzmq_ru.Base.Int.{pos, negsuc}
use libzmq_ru.Base.Maps
use libzmq_ru.Context.{new_life, shutdown, terminate, is_terminated, socket}
use libzmq_ru.Context.Life.{opens, shuts_down, terminates, after_all, stopped_for_good}
use libzmq_ru.Context.Options.{default_options, set_option, get_option}
use libzmq_ru.Context.Options.Outcome.{get_option-set_option}
use libzmq_ru.Context.Registry.{Registry, InprocBinder, bind_inproc, lookup, pend}
use libzmq_ru.Context.Registry.Order.{OrderIrrelevant, bind-connect-OrderIrrelevant}
use libzmq_ru.Context.Registry.Settled.{
  binds, connects, unbinds, disconnects, after_requests, bound_and_waited, requests_settled,
  bind_between_strands, misfit_fails_bind,
}
use libzmq_ru.Error.{ok, err, terminated, not_supported}
use libzmq_ru.Inproc.{Heap, InprocPeer, new}
use libzmq_ru.SocketType.{SocketType, push, pull, sub}
use libzmq_ru.Subscriptions.{default_state}

stopped_for_good_example :
    ((socket
        (after_all (shutdown (after_all new_life (opens ∷ []))) (terminates ∷ shuts_down ∷ []))).1
      ≡ err terminated)
    × ((socket (
          after_all (terminate (after_all new_life (opens ∷ []))) (terminates ∷ shuts_down ∷ []))).1
        ≡ err terminated)
stopped_for_good_example = stopped_for_good new_life (opens ∷ []) (terminates ∷ shuts_down ∷ [])

-- A context that was terminated and is then shut down no longer says that it is terminated.
shutdown_hides_termination : is_terminated (shutdown (terminate new_life)) ≡ false
unfolding is_terminated shutdown terminate
shutdown_hides_termination = refl

get_option-set_option_example :
    get_option (set_option default_options (pos 9) (negsuc 41)).0 (pos 9) ≡ ok (negsuc 41)
unfolding set_option
get_option-set_option_example =
    get_option-set_option default_options (pos 9) (negsuc 41) refl refl refl

-- Queue and subscriptions 0 are the binder's.
abbrev heap : Heap
heap = record {
  queues = λ _. [];
  subscriptions = λ _. default_state;
  disconnect_msgs = λ _. [];
  welcomes = λ _. none;
  policies = λ _. record {
    verbose_subscribe = false;
    verbose_unsubscribe = false;
    manual = false;
    manual_last_value = false;
  };
}

abbrev binder : SocketType → InprocBinder
binder t = record {
  inbox = 0;
  socket_type = t;
  subscriptions = 0;
  disconnect_msg = 0;
  welcome = 0;
  xpub_policy = 0;
}

abbrev peer_of : SocketType → ℕ → InprocPeer
peer_of t n = record { id = n; inbox = n; socket_type = t; subscriptions = n }

abbrev name : List ℕ
name = 97 ∷ []

-- A registry where one peer waits for a name.
abbrev waited : InprocPeer → Registry
waited p = record {
  heap = heap;
  endpoints = λ _. new 0 push 0 0 0 0;
  allocated = 0;
  inproc_endpoints = [];
  pending_inproc = (name, p ∷ []) ∷ [];
}

bind-connect-OrderIrrelevant_example :
    OrderIrrelevant (waited (peer_of pull 1)) name (binder push) (peer_of pull 2)
unfolding bind_inproc Maps.contains_key libzmq_ru.Base.bytes_eq libzmq_ru.Inproc.Peers.add_peer
    libzmq_ru.SocketType.inproc_types_compatible new
bind-connect-OrderIrrelevant_example =
    bind-connect-OrderIrrelevant (waited (peer_of pull 1)) name (binder push) (peer_of pull 2) 0
      refl refl

requests_settled_example :
    bound_and_waited
      (after_requests (waited (peer_of pull 1)) (
        connects name (peer_of pull 2)
        ∷ binds name (binder push)
        ∷ disconnects name 1
        ∷ unbinds name
        ∷ []))
      name
    ≡ false
unfolding Maps.contains_key
requests_settled_example =
    requests_settled (waited (peer_of pull 1))
      (connects name (peer_of pull 2)
        ∷ binds name (binder push)
        ∷ disconnects name 1
        ∷ unbinds name
        ∷ [])
      name refl

bind_between_strands_example :
    (Maps.get
        (pend
          (bind_inproc (waited (peer_of pull 1)) name (binder push)).0
          name
          (peer_of pull 2)).pending_inproc
        name
      ≡ some (peer_of pull 2 ∷ []))
    × (lookup
          (pend (bind_inproc (waited (peer_of pull 1)) name (binder push)).0 name (peer_of pull 2))
          name
        ≡ some 0)
unfolding lookup Maps.get bind_inproc Maps.contains_key libzmq_ru.Base.bytes_eq
    libzmq_ru.Inproc.Peers.add_peer libzmq_ru.SocketType.inproc_types_compatible new
bind_between_strands_example =
    bind_between_strands (waited (peer_of pull 1)) name (binder push) (peer_of pull 2) 0 refl refl

misfit_fails_bind_example :
    ((bind_inproc (waited (peer_of sub 1)) name (binder push)).1 ≡ err not_supported)
    × (lookup (bind_inproc (waited (peer_of sub 1)) name (binder push)).0 name ≡ none)
    × (Maps.get (bind_inproc (waited (peer_of sub 1)) name (binder push)).0.pending_inproc name
        ≡ none)
unfolding Maps.contains_key libzmq_ru.Base.any libzmq_ru.Base.bytes_eq
    libzmq_ru.SocketType.inproc_types_compatible
misfit_fails_bind_example = misfit_fails_bind (waited (peer_of sub 1)) name (binder push) refl refl
