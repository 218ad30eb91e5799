-- ===== src/Genesis/Periphery.antt =====
-- genesis/worldgen/periphery.go: the periphery contracts are deployed into a fresh state, which is
-- then imported into that of the L2. The hosts and the forge script are outside; `D` is a dump of a
-- state, and what is imported is recorded.
use supersim.Prelude.{
  ℕ, ◌≡◌, ◌⊎◌, inl, inr, List, [], ◌∷◌, ◌++◌, String, ok, err, External, returns, from_external,
  arith, External-cases,
}
use supersim.Prelude.State.{Action, lift, modify, ◌>>=◌, ◌>>◌}

-- The fields of an L2's configuration that are read.
pub record L2Settings : Type 0 where
  pub l2_chain_id : ℕ
  pub deployer : ℕ
  pub l2_genesis_block_number : ℕ

-- `script.Context`
pub record ScriptContext : Type 0 where
  pub chain_id : ℕ
  pub sender : ℕ
  pub origin : ℕ
  pub fee_recipient : ℕ
  pub gas_limit : ℕ
  pub block_num : ℕ
  pub timestamp : ℕ

-- A script host: its context, and the variables of its environment.
pub record ScriptHost : Type 0 where
  pub context : ScriptContext
  pub env_vars : List (String × String)

-- A constructor to each `fmt.Errorf`.
pub data PeripheryError : Type 0 where
  cheats_failed : ℕ → String → PeripheryError
  load_failed run_failed dump_failed : String → PeripheryError

-- What a host gives back.
pub record Forge (D : Type 0) : Type 0 where
  pub gas_limit : ℕ
  pub enable_cheats : ScriptHost → External (Unit {0})
  pub load_script : ScriptHost → External (Unit {0})
  pub run_script : ScriptHost → External (Unit {0})
  pub state_dump : ScriptHost → External D

-- The dumps that the L2's state has imported, and the scripts that are loaded.
pub record L2State (D : Type 0) : Type 0 where
  pub imported : List D
  pub loaded : ℕ

module _ {D : Type 0} (forge : Forge D) where
  unfoldable pub create_l2_periphery_host : L2Settings → ℕ → ScriptHost
  create_l2_periphery_host l2 genesis_timestamp = record {
    context = record {
      chain_id = l2.l2_chain_id;
      sender = l2.deployer;
      origin = l2.deployer;
      fee_recipient = 0;
      gas_limit = forge.gas_limit;
      block_num = l2.l2_genesis_block_number;
      timestamp = genesis_timestamp;
    };
    env_vars = ("OUTPUT_MODE", "none") ∷ ("FORK", "granite") ∷ [];
  }

  abbrev pub Run : Type 0
  Run = Action (L2State D) PeripheryError (Unit {0})

  -- `defer cleanup()`
  abbrev pub cleaned_up : Run → Run
  cleaned_up m s = let (r, s') = m (record s { loaded = 1 }) in (r, record s' { loaded = 0 })

  unfoldable pub deploy_periphery_contracts : L2Settings → ℕ → Run
  deploy_periphery_contracts l2 genesis_timestamp = do
    let host : ScriptHost = create_l2_periphery_host l2 genesis_timestamp
    lift (from_external (cheats_failed l2.l2_chain_id) (forge.enable_cheats host))
    lift (from_external load_failed (forge.load_script host))
    cleaned_up (do
      lift (from_external run_failed (forge.run_script host))
      dump ← lift (from_external dump_failed (forge.state_dump host))
      modify (λ s. record s { imported = s.imported ++ dump ∷ [] }))

  -- The L2 has imported the state in which the script ran, if there is no error; else nothing has
  -- been changed. In any case the script is no longer loaded.
  pub deploy_periphery_contracts_lem :
      (l2 : L2Settings) (genesis_timestamp : ℕ) (s : L2State D)
      → s.loaded ≡ 0
      → ((dump : D) × (forge.state_dump (create_l2_periphery_host l2 genesis_timestamp)
            ≡ returns dump)
          × (deploy_periphery_contracts l2 genesis_timestamp s
              ≡ (ok tt, record s { imported = s.imported ++ dump ∷ [] })))
        ⊎ ((e : PeripheryError) × (deploy_periphery_contracts l2 genesis_timestamp s ≡ (err e, s)))
  unfolding deploy_periphery_contracts
  deploy_periphery_contracts_lem l2 time s h =
      let host = create_l2_periphery_host l2 time in
      elim (External-cases (forge.enable_cheats host)) [
        | inr (e, q) ↦ inr (cheats_failed l2.l2_chain_id e, ground (arith, q))
        | inl (u, q) ↦ elim (External-cases (forge.load_script host)) [
          | inr (e, l) ↦ inr (load_failed e, ground (arith, q, l))
          | inl (v, l) ↦ elim (External-cases (forge.run_script host)) [
            | inr (e, r) ↦ inr (run_failed e, ground (arith, q, l, r, h))
            | inl (w, r) ↦ elim (External-cases (forge.state_dump host)) [
              | inr (e, d) ↦ inr (dump_failed e, ground (arith, q, l, r, d, h))
              | inl (dump, d) ↦ inl (dump, d, ground (arith, q, l, r, d, h))
            ]
          ]
        ]
      ]
