-- ===== src/OpSimulator/Server/Tests.antt =====
-- A proxy on any port.
use supersim.Prelude.{◌≡◌, refl, true, [], ok, err, returns, arith}
use supersim.Prelude.Text.{Text, codes, decimal}
use supersim.OpSimulator.Server.{
  Net, new_server, start, stop, already_stopped, cors_handler, cors_headers,
}
use supersim.OpSimulator.Server.Bound.{started, start-stop_lem}

abbrev localhost : Text
localhost = codes "127.0.0.1"

abbrev net : Net
net = record {
  serve = λ address. returns (codes "127.0.0.1:40123");
  split_host_port = λ address. returns (localhost, decimal 40_123);
  dial = λ url. returns tt;
  stop_server = returns tt;
}

proxy_runs :
    (start net (new_server localhost 0)
      ≡ (ok tt, started net localhost 0 40_123 (codes "127.0.0.1:40123")))
    × (stop net (started net localhost 0 40_123 (codes "127.0.0.1:40123")) ≡ (
      ok tt,
      record (started net localhost 0 40_123 (codes "127.0.0.1:40123")) {
        stopped = true;
        cancelled = true;
      },
    ))
    × ((stop net (stop net (started net localhost 0 40_123 (codes "127.0.0.1:40123"))).1).0
        ≡ err already_stopped)
proxy_runs =
    start-stop_lem net localhost 0 40_123 (codes "127.0.0.1:40123") localhost refl refl
      (omega arith) refl refl

-- A preflight request is answered at once.
preflight :
    cors_handler (λ headers. record { headers = []; status = 200 }) "OPTIONS"
    ≡ record { headers = cors_headers; status = 204 }
unfolding cors_handler
preflight = refl
