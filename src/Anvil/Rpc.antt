-- ===== src/Anvil/Rpc.antt =====
-- anvil/anvil.go: the calls that set the state of a chain, each one request to the process, and the
-- getters that print an endpoint. The client is outside.
use supersim.Prelude.{
  ℕ, ◌≡◌, refl, List, [], ◌∷◌, ◌++◌, none, String, Result, panic, External, from_external, ◌>>=◌,
  or_panic,
}
use supersim.Prelude.Int.{ℤ}
use supersim.Prelude.Text.{Text, codes, decimal}
use supersim.Config.Types.{ChainConfig}
use supersim.Anvil.Process.{Anvil}

-- A parameter of a request: `address.Hex()`, a text as it is, `hexutil.EncodeBig`, an `int64`.
pub data Param : Type 0 where
  address quantity : ℕ → Param
  text : String → Param
  int64 : ℤ → Param

pub record Request : Type 0 where
  pub method : String
  pub params : List Param

-- `Endpoint`
abbrev pub chain_endpoint : ChainConfig → Text
chain_endpoint cfg = codes "http://" ++ (cfg.host ++ b':' ∷ decimal cfg.port)

module _ (call : Request → External (Unit {0})) (a : Anvil) where
  -- `a.rpcClient.CallContext`, at a nil client before a start.
  unfoldable pub call_context : Request → Result String (Unit {0})
  call_context request = or_panic a.endpoint >>= λ client. from_external (λ e. e) (call request)

  unfoldable pub set_code : ℕ → String → Result String (Unit {0})
  unfolding call_context
  set_code at code =
      call_context (record { method = "anvil_setCode"; params = address at ∷ text code ∷ [] })

  unfoldable pub set_storage_at : ℕ → String → String → Result String (Unit {0})
  unfolding call_context
  set_storage_at at slot value =
      call_context (record {
        method = "anvil_setStorageAt";
        params = address at ∷ text slot ∷ text value ∷ [];
      })

  unfoldable pub set_balance : ℕ → ℕ → Result String (Unit {0})
  unfolding call_context
  set_balance at value =
      call_context
        (record { method = "anvil_setBalance"; params = address at ∷ quantity value ∷ [] })

  unfoldable pub set_interval_mining : ℤ → Result String (Unit {0})
  unfolding call_context
  set_interval_mining interval =
      call_context (record { method = "evm_setIntervalMining"; params = int64 interval ∷ [] })

  -- A chain that has not been started has no client to call by.
  pub set_interval_mining-panic :
      (interval : ℤ) → a.endpoint ≡ none → set_interval_mining interval ≡ panic
  unfolding set_interval_mining
  set_interval_mining-panic interval h = rw h refl
