-- ===== src/Genesis/Deployment.antt =====
-- genesis/deployment.go: the deployment of the embedded files, and the addresses of an L2's
-- contracts on the L1. The files and `json.Unmarshal` are outside; an address is a number.
use supersim.Prelude.{
  ℕ, List, [], ◌∷◌, String, Result, ok, panic, External, returns, fails, ◌>>=◌, from_external,
  or_panic, get_elem?,
}

-- `genesis.L1Deployments`, the fields that are read.
pub record L1Deployments : Type 0 where
  pub address_manager : ℕ
  pub l1_cross_domain_messenger_proxy : ℕ
  pub l1_erc721_bridge_proxy : ℕ
  pub l1_standard_bridge_proxy : ℕ
  pub l2_output_oracle_proxy : ℕ
  pub optimism_mintable_erc20_factory_proxy : ℕ
  pub optimism_portal_proxy : ℕ
  pub system_config_proxy : ℕ
  pub proxy_admin : ℕ

pub record L2GenesisDeployment : Type 0 where
  pub chain_id : ℕ
  pub genesis_json : List ℕ
  pub l1_deployment_addresses : L1Deployments

-- `registry.AddressList`: the fields that are not set here are zero.
pub record AddressList : Type 0 where
  pub address_manager : ℕ
  pub l1_cross_domain_messenger_proxy : ℕ
  pub l1_erc721_bridge_proxy : ℕ
  pub l1_standard_bridge_proxy : ℕ
  pub l2_output_oracle_proxy : ℕ
  pub optimism_mintable_erc20_factory_proxy : ℕ
  pub optimism_portal_proxy : ℕ
  pub system_config_proxy : ℕ
  pub proxy_admin : ℕ
  pub superchain_config : ℕ

unfoldable pub registry_address_list : L2GenesisDeployment → AddressList
registry_address_list d =
    let a = d.l1_deployment_addresses in
    record {
      address_manager = a.address_manager;
      l1_cross_domain_messenger_proxy = a.l1_cross_domain_messenger_proxy;
      l1_erc721_bridge_proxy = a.l1_erc721_bridge_proxy;
      l1_standard_bridge_proxy = a.l1_standard_bridge_proxy;
      l2_output_oracle_proxy = a.l2_output_oracle_proxy;
      optimism_mintable_erc20_factory_proxy = a.optimism_mintable_erc20_factory_proxy;
      optimism_portal_proxy = a.optimism_portal_proxy;
      system_config_proxy = a.system_config_proxy;
      proxy_admin = a.proxy_admin;
      superchain_config = 0;
    }

-- The embedded files by the chain's id.
pub record Files : Type 0 where
  pub l1_genesis : List ℕ
  pub l2_genesis : ℕ → List ℕ
  pub l2_addresses : ℕ → List ℕ
  pub unmarshal : List ℕ → External L1Deployments

module _ (files : Files) where
  unfoldable pub new_l2_genesis_deployment : ℕ → Result String L2GenesisDeployment
  new_l2_genesis_deployment id = elim (files.unmarshal (files.l2_addresses id)) [
    | fails e ↦ panic
    | returns a ↦
        ok (record {
          chain_id = id;
          genesis_json = files.l2_genesis id;
          l1_deployment_addresses = a;
        })
  ]

  unfoldable pub new_l2_genesis_deployments : List ℕ → Result String (List L2GenesisDeployment)
  unfolding new_l2_genesis_deployment
  new_l2_genesis_deployments [] = ok []
  new_l2_genesis_deployments (id ∷ ids) = do
    d ← new_l2_genesis_deployment id
    ds ← new_l2_genesis_deployments ids
    ok (d ∷ ds)

  abbrev pub generated_l2_ids : List ℕ
  generated_l2_ids = 901 ∷ 902 ∷ 903 ∷ 904 ∷ 905 ∷ []

  unfoldable pub generated_l2s : Result String (List L2GenesisDeployment)
  unfolding new_l2_genesis_deployments
  generated_l2s = new_l2_genesis_deployments generated_l2_ids

-- `UnMarshaledL2GenesisJSON`: the genesis of the first L2.
unfoldable pub unmarshaled_l2_genesis_json :
    {J : Type 0} → (List ℕ → External J) → List L2GenesisDeployment → Result String J
unmarshaled_l2_genesis_json unmarshal l2s =
    or_panic (get_elem? l2s 0) >>= λ d. from_external (λ e. e) (unmarshal d.genesis_json)
