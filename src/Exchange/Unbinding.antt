-- ===== src/Exchange/Unbinding.antt =====
-- `unbind` after `bind`.
use libzmq_ru.Base.{ℕ, ◌≡◌, refl, none, List, [], ◌++◌, arith, bytes_eq_refl, bytes_eq_iff}
use libzmq_ru.Base.Maps
use libzmq_ru.Base.Maps.{get-insert, get-remove}
use libzmq_ru.Context.Registry.{Registry, unbind_inproc}
use libzmq_ru.Error.{ok}
use libzmq_ru.Exchange.{Exchange, InprocSocket}
use libzmq_ru.Exchange.Calls.{hosted, hosting, bind_alone, bind_result, found_name, named}
use libzmq_ru.Exchange.Connection.{inproc_scheme, bind, unbind, unbound}

unbind_hosted :
    (r : Registry) (b : InprocSocket) (name : List ℕ)
    → let r1 = hosted r b name [] in
      unbind_inproc r1 name
      ≡ (record r1 { inproc_endpoints = Maps.remove r1.inproc_endpoints name }, ok r.allocated)
unfolding unbind_inproc
unbind_hosted r b name = ground (arith, found_name r name r.allocated)

names_restored :
    (r : Registry) (name k : List ℕ) (n : ℕ)
    → Maps.get r.inproc_endpoints name ≡ none
    → Maps.get (Maps.remove (Maps.insert r.inproc_endpoints name n) name) k
      ≡ Maps.get r.inproc_endpoints k
names_restored r name k n free = ground (
  arith,
  get-remove (Maps.insert r.inproc_endpoints name n) name k,
  get-insert r.inproc_endpoints name n k,
  bytes_eq_iff name k,
  free,
)

unbind_result :
    (r r' : Registry) (b : InprocSocket) (name : List ℕ) (n : ℕ)
    → unbind_inproc r name ≡ (r', ok n)
    → unbind (record { registry = r; socket = hosting b name n }) (inproc_scheme ++ name) ≡ (
      record {
        registry = r';
        socket = record (hosting b name n) { bound_endpoint_name = none; bound_endpoint = none };
      },
      ok tt,
    )
unfolding unbind unbound
unbind_result r r' b name n h = rw (named name, unbind, bytes_eq_refl name, h) refl

-- The calls succeed, and leave neither the name with the context nor the endpoint with the socket.
pub record Unbound (r : Registry) (b : InprocSocket) (endpoint : List ℕ) : Type 0 where
  pub at : Exchange
  pub left : Exchange
  pub binds : bind (record { registry = r; socket = b }) endpoint ≡ (at, ok tt)
  pub unbinds : unbind at endpoint ≡ (left, ok tt)
  pub names :
      (k : List ℕ) → Maps.get left.registry.inproc_endpoints k ≡ Maps.get r.inproc_endpoints k
  pub no_name : left.socket.bound_endpoint_name ≡ none
  pub no_endpoint : left.socket.bound_endpoint ≡ none

-- A socket that binds an inproc name that is free and that nobody waits for, and then unbinds it,
-- succeeds twice: the bound names are those from before, and it has no endpoint.
pub unbind-bind :
    (r : Registry) (b : InprocSocket) (name : List ℕ)
    → Maps.get r.inproc_endpoints name ≡ none
    → Maps.get r.pending_inproc name ≡ none
    → Unbound r b (inproc_scheme ++ name)
unbind-bind r b name free alone = record {
  at = record { registry = hosted r b name []; socket = hosting b name r.allocated };
  left = record {
    registry = record (hosted r b name []) {
      inproc_endpoints = Maps.remove (Maps.insert r.inproc_endpoints name r.allocated) name;
    };
    socket = record (hosting b name r.allocated) {
      bound_endpoint_name = none;
      bound_endpoint = none;
    };
  };
  binds = bind_result r (hosted r b name []) b name r.allocated (bind_alone r b name free alone);
  unbinds = unbind_result (hosted r b name []) _ b name r.allocated (unbind_hosted r b name);
  names = λ k. names_restored r name k r.allocated free;
  no_name = refl;
  no_endpoint = refl;
}
