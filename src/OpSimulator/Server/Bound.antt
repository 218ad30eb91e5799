-- ===== src/OpSimulator/Server/Bound.antt =====
-- The port of a proxy, and what a stop after a start does.
use supersim.Prelude.{
  ℕ, ◌<◌, ◌^◌, ◌==◌, ◌≡◌, refl, true, some, ok, err, returns, arith, if◌then◌else◌, Bool-cases, inl,
  inr,
}
use supersim.Prelude.Text.{Text, decimal}
use supersim.Prelude.Text.Parse.{parse_uint-decimal}
use supersim.OpSimulator.Server.{
  Net, Server, new_server, join_host_port, endpoint, bound_port, set_port, start, stop,
  already_stopped,
}

module _ (net : Net) (host : Text) (port bound : ℕ) (addr : Text) where
  -- The port that a proxy ends up with: its own, or for 0 the one that its server is bound to.
  abbrev pub port_of : ℕ
  port_of = if port == 0 then bound else port

  abbrev pub started : Server
  started = record (new_server host port_of) {
    http_server = some addr;
    eth_client = some (endpoint (new_server host port_of));
    background_tasks = true;
  }

  abbrev pub serving : ℕ → Server
  serving p = record (new_server host p) { http_server = some addr }

  set_port-serving :
      (shown : Text)
      → net.split_host_port addr ≡ returns (shown, decimal bound)
      → bound < 2 ^ 64
      → set_port net addr (serving port) ≡ (ok tt, serving port_of)
  unfolding set_port bound_port
  set_port-serving shown splits fits = elim (Bool-cases (port == 0)) [
    | inl t ↦ ground (arith, t, splits, parse_uint-decimal bound fits)
    | inr f ↦ ground (arith, f)
  ]

  -- A proxy whose server is bound to a port, as its address says, is started with that port where
  -- it asked for any, and with its own where it asked for one; its client is of that port. A stop
  -- then stops the server, and a second one is refused.
  pub start-stop_lem :
      (shown : Text)
      → net.serve (join_host_port host (decimal port)) ≡ returns addr
      → net.split_host_port addr ≡ returns (shown, decimal bound)
      → bound < 2 ^ 64
      → net.dial (endpoint (new_server host port_of)) ≡ returns tt
      → net.stop_server ≡ returns tt
      → (start net (new_server host port) ≡ (ok tt, started))
        × (stop net started ≡ (ok tt, record started { stopped = true; cancelled = true }))
        × ((stop net (stop net started).1).0 ≡ err already_stopped)
  unfolding start stop
  start-stop_lem shown serves splits fits dials stops = (
    ground (arith, serves, set_port-serving shown splits fits, dials),
    ground (arith, stops),
    refl,
  )
