-- ===== src/OpSimulator/Server.antt =====
-- opsimulator/opsimulator.go: Start, Stop, Endpoint and corsHandler of a proxy. The HTTP server, the
-- client and `net.SplitHostPort` are outside.
pub mod Bound
mod Tests
use text.Mathlib.Text.{◌==◌ as str_eq}
use supersim.Prelude.{
  ℕ, ◌==◌, if◌then◌else◌, Bool, true, false, ◌||◌, List, [], ◌∷◌, ◌++◌, Option, none, some, String,
  Result, ok, err, panic, External, returns, fails, from_external, or_panic,
}
use supersim.Prelude.State.{Action, lift, gets, modify, ◌>>=◌, ◌>>◌}
use supersim.Prelude.Text.{Text, codes, decimal}
use supersim.Prelude.Text.Parse.{parse_uint}

-- A constructor to each error of `Start` and `Stop`.
pub data ServerError : Type 0 where
  start_server_failed create_client_failed stop_server_failed : String → ServerError
  already_stopped : ServerError

-- `serve` gives the address that the server is bound to, `split_host_port` a host and a port.
pub record Net : Type 0 where
  pub serve : Text → External Text
  pub split_host_port : Text → External (Text × Text)
  pub dial : Text → External (Unit {0})
  pub stop_server : External (Unit {0})

-- The part of an `OpSimulator` that `Start` and `Stop` change. `background_tasks` says that they were
-- started, `cancelled` that their context has ended.
pub record Server : Type 0 where
  pub host : Text
  pub port : ℕ
  pub http_server : Option Text
  pub eth_client : Option Text
  pub background_tasks : Bool
  pub cancelled : Bool
  pub stopped : Bool

abbrev pub new_server : Text → ℕ → Server
new_server host port = record {
  host = host;
  port = port;
  http_server = none;
  eth_client = none;
  background_tasks = false;
  cancelled = false;
  stopped = false;
}

abbrev pub has_colon : Text → Bool
has_colon [] = false
has_colon (c ∷ s) = let rest = has_colon s in (c == b':' || c == b'%') || rest

-- `net.JoinHostPort`
unfoldable pub join_host_port : Text → Text → Text
join_host_port host port =
    if has_colon host then b'[' ∷ (host ++ codes "]:" ++ port) else host ++ b':' ∷ port

abbrev pub Run : Type 0 → Type 0
Run = Action Server ServerError

-- `fmt.Sprintf("http://%s:%d", opSim.host, opSim.port)`
abbrev pub endpoint : Server → Text
endpoint s = codes "http://" ++ (s.host ++ b':' ∷ decimal s.port)

module _ (net : Net) where
  -- The port that the server is bound to; an address that cannot be read panics.
  unfoldable pub bound_port : Text → Result ServerError ℕ
  bound_port addr = elim (net.split_host_port addr) [
    | fails e ↦ panic
    | returns (host, port_str) ↦ or_panic (parse_uint port_str)
  ]

  -- `if opSim.port == 0`
  unfoldable pub set_port : Text → Run (Unit {0})
  unfolding bound_port
  set_port addr s =
      if s.port == 0
      then elim (bound_port addr) [
        | ok p ↦ (ok tt, record s { port = p })
        | err e ↦ (err e, s)
        | panic ↦ (panic, s)
      ]
      else (ok tt, s)

  unfoldable pub start : Run (Unit {0})
  unfolding set_port
  start = do
    address ← gets (λ s. ok (join_host_port s.host (decimal s.port)))
    addr ← lift (from_external start_server_failed (net.serve address))
    modify (λ s. record s { http_server = some addr })
    set_port addr
    url ← gets (λ s. ok (endpoint s))
    lift (from_external create_client_failed (net.dial url))
    modify (λ s. record s { eth_client = some url })
    modify (λ s. record s { background_tasks = true })

  unfoldable pub stop : Run (Unit {0})
  stop s = if s.stopped then (err already_stopped, s) else (
    elim s.http_server [
      | none ↦ ok tt
      | some addr ↦ from_external stop_server_failed net.stop_server
    ],
    record s { stopped = true; cancelled = true },
  )

-- The headers and the status of a reply; without a status, `next` has written it.
pub record Reply : Type 0 where
  pub headers : List (String × String)
  pub status : ℕ

abbrev pub cors_headers : List (String × String)
cors_headers =
    ("Access-Control-Allow-Origin", "*")
    ∷ ("Access-Control-Allow-Methods", "GET, POST, OPTIONS")
    ∷ ("Access-Control-Allow-Headers", "Content-Type, Authorization")
    ∷ []

unfoldable pub cors_handler : (List (String × String) → Reply) → String → Reply
cors_handler next method =
    if str_eq method "OPTIONS"
    then record { headers = cors_headers; status = 204 }
    else next cors_headers
