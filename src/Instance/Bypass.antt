-- ===== src/Instance/Bypass.antt =====
-- Two ways in which a client reaches a service without having authenticated.
use qt_rpc.Base.{ℕ, ◌≡◌, refl, sym, subst, ap, String, true, some, List, [], ◌∷◌, arith}
use qt_rpc.Base.Table.{lookup, insert, remove, lookup-insert_self}
use qt_rpc.Qt.{Qt, IsQt}
use qt_rpc.Signature.{Signature}
use qt_rpc.ReturnValue
use qt_rpc.ReturnValue.{ReturnValue}
use qt_rpc.Token.{Heap, AuthToken, of_login}
use qt_rpc.Server.{Server, Factory, request_service}
use qt_rpc.Instance.{
  Services, Instance, connection, next_service, add_service, get_service, get_service_login, log_in,
  wait_for_auth, service, perform, call_function, first_service,
}

module _ {V : Type 0} (q : Qt V) (services : Services V) where
  added :
      (s : Instance V) (name : String) (srv : ℕ) (f : Factory)
      → (request_service s.server name).0 ≡ some (srv, f)
      → add_service q s name ≡ (
        some srv,
        record s {
          service_name = name;
          server = (request_service s.server name).1;
          current_service_id = next_service s;
          services = insert (next_service s) srv s.services;
        },
      )
  unfolding add_service
  added s name srv f e = rw (e, add_service) refl

  -- A registered service whose `auth` refuses a user name and a password stays in the connection
  -- under the next id, and does not wait for another authentication: that id is not put into
  -- needsAuth.
  pub refused_stays :
      (s : Instance V) (name user pass : String) (srv : ℕ) (f : Factory)
      → (request_service s.server name).0 ≡ some (srv, f)
      → ReturnValue.is_error
          (services.auth srv (of_login q s.heap user pass).0 (of_login q s.heap user pass).1).0
        ≡ true
      → (ReturnValue.is_error (get_service_login q services s name user pass).0 ≡ true)
        × (lookup (next_service s) (get_service_login q services s name user pass).1.services
            ≡ some srv)
        × ((get_service_login q services s name user pass).1.needs_auth ≡ s.needs_auth)
  unfolding get_service_login log_in
  refused_stays s name user pass srv f e failed =
      subst
        (λ p.
          (ReturnValue.is_error (log_in q services name user pass p).0 ≡ true)
          × (lookup (next_service s) (log_in q services name user pass p).1.services ≡ some srv)
          × ((log_in q services name user pass p).1.needs_auth ≡ s.needs_auth))
        (sym (added s name srv f e))
        (rw failed failed, lookup-insert_self (next_service s) srv s.services, refl)

  -- the connection after getServiceObject(name) on a new one
  abbrev named : Server → AuthToken → Heap V → String → ℕ → Instance V
  named server token heap name srv = record (connection server token heap) {
    service_name = name;
    server = (request_service server name).1;
    current_service_id = 1;
    services = (1, srv) ∷ [];
    needs_auth = 1 ∷ [];
  }

  get_named :
      (server : Server) (token : AuthToken) (heap : Heap V) (name : String) (srv : ℕ) (f : Factory)
      → (request_service server name).0 ≡ some (srv, f)
      → (get_service q (connection server token heap) name).1 ≡ named server token heap name srv
  unfolding get_service wait_for_auth connection insert remove
  get_named server token heap name srv f e =
      ap (λ p. (wait_for_auth q name p).1) (added (connection server token heap) name srv f e)

  first_named :
      IsQt q
      → (server : Server) (token : AuthToken) (heap : Heap V) (name : String) (srv : ℕ)
      → service q (named server token heap name srv) 0 ≡ some srv
  unfolding service first_service lookup
  first_named qt server token heap name srv = ground (arith, qt.begin_in 1 [])

  -- On a new connection, the service that a client asks for by its name alone is reached by any
  -- function, authenticated or not, when the call names the service 0 instead of its id.
  pub zero_reaches :
      IsQt q
      → (server : Server) (token : AuthToken) (heap : Heap V) (name : String) (srv : ℕ)
        (f : Factory) (id : ℕ) (sig : Signature) (args : List V)
      → (request_service server name).0 ≡ some (srv, f)
      → call_function q services (get_service q (connection server token heap) name).1 id 0 sig args
        ≡ perform q services (get_service q (connection server token heap) name).1 srv id 0 sig args
  unfolding call_function
  zero_reaches qt server token heap name srv f id sig args e =
      subst (λ t. call_function q services t id 0 sig args ≡ perform q services t srv id 0 sig args)
        (sym (get_named server token heap name srv f e))
        (ground (arith, first_named qt server token heap name srv))
