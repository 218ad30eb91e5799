-- ===== src/Admin/Server.antt =====
-- admin/admin.go: setupRouter, Start and Stop of the admin server. `net.Listen`, the HTTP server and
-- the registry of the RPC server are outside.
use supersim.Prelude.{
  ℕ, ◌≡◌, refl, Bool, true, false, if◌then◌else◌, List, [], ◌∷◌, Option, none, some, String, ok,
  panic, External, returns, fails, arith,
}
use supersim.Prelude.State.{Action}
use supersim.Admin.{AdminServer}

-- What a path of the router is answered by.
pub data Handler : Type 0 where
  ready rpc_methods : Handler

-- The routes by method and path; a nil router where the methods cannot be registered.
unfoldable pub setup_router : External (Unit {0}) → Option (List (String × String × Handler))
setup_router (fails e) = none
setup_router (returns u) = some (("GET", "/ready", ready) ∷ ("POST", "/", rpc_methods) ∷ [])

-- What `Start` sets: the router of `srv`, and `cancel`. `serving` is the count of `wg`, and
-- `cancelled` says that the context has ended, at which the server is shut down.
pub record Service : Type 0 where
  pub server : AdminServer
  pub router : Option (Option (List (String × String × Handler)))
  pub has_cancel : Bool
  pub serving : Bool
  pub cancelled : Bool

abbrev pub new_service : AdminServer → Service
new_service s = record {
  server = s;
  router = none;
  has_cancel = false;
  serving = false;
  cancelled = false;
}

-- `listen` gives the port that the listener is bound to; its error is a panic.
unfoldable pub start : External (Unit {0}) → (ℕ → External ℕ) → Action Service String (Unit {0})
start register listen s = elim (listen s.server.port) [
  | fails e ↦ (panic, record s { router = some (setup_router register) })
  | returns port ↦ (
    ok tt,
    record s {
      server = record s.server { port = port };
      router = some (setup_router register);
      has_cancel = true;
      serving = true;
    },
  )
]

-- A server that is shut down stops serving, which is what the wait is for.
abbrev pub after_cancel : Service → Service
after_cancel s = if s.has_cancel then record s { cancelled = true; serving = false } else s

-- Whether `wg.Wait()` ends, and the server then: one that serves and is not shut down is waited for
-- without end.
unfoldable pub stop : Service → Bool × Service
stop s = (if (after_cancel s).serving then false else true, after_cancel s)

-- A server whose port can be had is bound to it, and its first stop ends with nothing left that
-- serves; a stop of one that was never started ends as well; a port that is taken panics.
pub start-stop_lem :
    (register : External (Unit {0})) (listen : ℕ → External ℕ) (a : AdminServer) (port : ℕ)
    → listen a.port ≡ returns port
    → ((start register listen (new_service a)).0 ≡ ok tt)
      × ((start register listen (new_service a)).1.server.port ≡ port)
      × ((stop (start register listen (new_service a)).1).0 ≡ true)
      × ((stop (start register listen (new_service a)).1).1.serving ≡ false)
      × ((stop (new_service a)).0 ≡ true)
unfolding start stop
start-stop_lem register listen a port h =
    (ground (arith, h), ground (arith, h), ground (arith, h), ground (arith, h), refl)

start-panic :
    (register : External (Unit {0})) (listen : ℕ → External ℕ) (s : Service) (e : String)
    → listen s.server.port ≡ fails e
    → (start register listen s).0 ≡ panic
unfolding start
start-panic register listen s e h = ground (arith, h)
