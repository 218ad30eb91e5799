-- ===== src/Orchestrator/TestData.antt =====
-- Endpoints of an L1 and of two chains, for the tests.
use supersim.Prelude.{ℕ, none, External, returns, fails, String, if◌then◌else◌}
use text.Mathlib.Text.{◌==◌ as str_eq}
use supersim.Prelude.Int.{pos}
use supersim.Interop.Types.{Header}
use supersim.Orchestrator.Fork.{RpcClient, Outside}

abbrev pub latest : Header
latest = record { number = pos 550; time = 2_000 }

abbrev pub l1 : Header
l1 = record { number = pos 40; time = 1_995 }

-- A client of chain `id`, which serves the latest block only.
abbrev pub client_of : ℕ → RpcClient
client_of id = record { chain_id = returns (pos id); header_by_number = λ n. returns latest }

abbrev pub endpoints : String → External RpcClient
endpoints url =
    if str_eq url "https://l1"
    then returns (client_of 1)
    else if str_eq url "https://op"
    then returns (client_of 10)
    else if str_eq url "https://base"
    then returns (client_of 8_453)
    else fails "no such host"

abbrev pub outside : Outside
outside = record { rpc_url = λ name. none; dial = endpoints }
