-- ===== src/Admin.antt =====
-- admin/admin.go: the RPC methods of the admin server. The server and the router are outside.
pub mod Messages
pub mod Server
pub mod Chains
mod Tests
use supersim.Prelude.{
  ℕ, ◌==◌, Bool, true, false, if◌then◌else◌, List, [], ◌∷◌, ◌++◌, map, Option, none, some, String,
  Result, ok, err, panic, ◌>>=◌, or_panic, or_err, map_err,
}
use supersim.Prelude.Int.{ℤ, negsuc}
use supersim.Prelude.Text.{Text, codes, decimal}
use supersim.Interop.Types.{Error}
use supersim.Interop.Message.{L2ToL2Message}
use supersim.Interop.Store.{Entry, get}
use supersim.Interop.Indexer.{Indexer}
use supersim.Config.Types.{ChainConfig, NetworkConfig, L2Config}

pub record AdminServer : Type 0 where
  pub network_config : NetworkConfig
  pub indexer : Option Indexer
  pub port : ℕ

-- `NewAdminServer`: the indexer is kept only where interop is enabled and there is one.
unfoldable pub new_admin_server : ℕ → NetworkConfig → Option Indexer → AdminServer
new_admin_server port n indexer = record {
  network_config = n;
  indexer = if n.interop_enabled then indexer else none;
  port = port;
}

-- `Endpoint`, and `ConfigAsString`.
abbrev pub admin_endpoint : AdminServer → Text
admin_endpoint s = codes "http://127.0.0.1:" ++ decimal s.port

abbrev pub admin_config_as_string : AdminServer → Text
admin_config_as_string s = codes "Admin Server: " ++ (admin_endpoint s ++ codes "\n\n")

-- A constructor to each `JSONRPCError`.
pub data AdminError : Type 0 where
  chain_not_found indexer_not_initialized msg_hash_not_provided : AdminError
  get_message_failed : Error → AdminError

-- `ErrorCode`
unfoldable pub error_code : AdminError → ℤ
error_code chain_not_found = negsuc 32601
error_code indexer_not_initialized = negsuc 32600
error_code msg_hash_not_provided = negsuc 32601
error_code (get_message_failed e) = negsuc 32602

unfoldable pub filter_by_chain_id : List ChainConfig → ℕ → Option ChainConfig
filter_by_chain_id [] chain_id = none
filter_by_chain_id (chain ∷ chains) chain_id =
    if chain.chain_id == chain_id then some chain else filter_by_chain_id chains chain_id

-- `JSONL2ToL2Message`
pub record JsonL2ToL2Message : Type 0 where
  pub destination : ℕ
  pub source : ℕ
  pub nonce : ℤ
  pub sender : ℕ
  pub target : ℕ
  pub message : List ℕ

-- The addresses that `GetL1Addresses` replies with, in the order in which it names them.
abbrev pub address_names : List String
address_names =
    "AddressManager" ∷ "L1CrossDomainMessengerProxy" ∷ "L1ERC721BridgeProxy"
    ∷ "L1StandardBridgeProxy" ∷ "L2OutputOracleProxy" ∷ "OptimismMintableERC20FactoryProxy"
    ∷ "OptimismPortalProxy" ∷ "SystemConfigProxy" ∷ "ProxyAdmin" ∷ "SuperchainConfig" ∷ []

-- `addresses` is the list of addresses that a pointer leads to, if it is not nil, by their names.
-- A nil argument, and a chain with no L2 configuration or no addresses, are dereferenced.
unfoldable pub get_l1_addresses :
    (ℕ → Option (String → String))
    → NetworkConfig
    → Option ℕ
    → Result AdminError (List (String × String))
get_l1_addresses addresses n args = do
  chain_id ← or_panic args
  chain ← or_err (filter_by_chain_id n.l2_configs chain_id) chain_not_found
  l2 ← or_panic chain.l2_config
  address_of ← or_panic (addresses l2.l1_addresses)
  ok (map (λ (name : String). (name, address_of name)) address_names)

abbrev pub json_of : L2ToL2Message → JsonL2ToL2Message
json_of m = record {
  destination = m.destination;
  source = m.source;
  nonce = m.nonce;
  sender = m.sender;
  target = m.target;
  message = m.message;
}

-- The second half of `args == nil || args == &common.Hash{}` compares a pointer with that of a new
-- value, so that it never holds.
unfoldable pub get_l2_to_l2_message_by_msg_hash :
    Option Indexer → Option ℕ → Result AdminError JsonL2ToL2Message
get_l2_to_l2_message_by_msg_hash indexer args = do
  i ← or_err indexer indexer_not_initialized
  msg_hash ← or_err args msg_hash_not_provided
  entry ← map_err get_message_failed (get msg_hash i.store).0
  ok (json_of entry.message)
