-- ===== src/Orchestrator/Network/Ports.antt =====
-- The proxies of a new network: their ports, and the anvils behind them.
use supersim.Prelude.{
  ℕ, ◌+◌, ◌<◌, ◌≡◌, ◌≢◌, refl, ap, ◌∙◌, ltb, if◌then◌else◌, List, [], ◌∷◌, All, length, some, ok,
  arith,
}
use supersim.Prelude.Dict.{Dict, lookup, insert, lookup-insert}
use supersim.Prelude.Int.{word}
use supersim.Config.Types.{ChainConfig, NetworkConfig}
use supersim.Orchestrator.Network.{
  OpSim, Orchestrator, behind_proxy, l2_anvils, next_port, op_sim_of, l2_op_sims, assemble,
  new_orchestrator,
}

abbrev pub IsOther : ℕ → ChainConfig → Type 0
IsOther id c = c.chain_id ≢ id

-- The chain ids of the configurations differ.
abbrev pub Differ : List ChainConfig → Type 0
Differ [] = Unit
Differ (c ∷ cs) = All (IsOther c.chain_id) cs × Differ cs

-- The port of the `i`-th proxy: counted from the first one's, or each of them 0, which asks for any.
abbrev pub port_of : ℕ → ℕ → ℕ
port_of start i = if ltb 0 start then start + i else 0

pub next_port-port_of :
    (start i : ℕ) → start + i + 1 < word → next_port (port_of start i) ≡ port_of start (i + 1)
unfolding next_port
next_port-port_of start i h = ground arith

l2_anvils-other :
    (k : ℕ) (cfgs : List ChainConfig) (chains : Dict ChainConfig)
    → All (IsOther k) cfgs
    → lookup k (l2_anvils cfgs chains) ≡ lookup k chains
unfolding l2_anvils
l2_anvils-other k [] chains h = refl
l2_anvils-other k (c ∷ cs) chains h = ground (
  arith,
  l2_anvils-other k cs (insert c.chain_id (behind_proxy c) chains) h.1,
  lookup-insert c.chain_id k (behind_proxy c) chains,
  h.0,
)

-- The anvil of a configuration stands under its chain id.
abbrev pub HasAnvil : Dict ChainConfig → ChainConfig → Type 0
HasAnvil chains c = lookup c.chain_id chains ≡ some (behind_proxy c)

pub l2_anvils-HasAnvil :
    (cfgs : List ChainConfig) (chains : Dict ChainConfig)
    → Differ cfgs
    → All (HasAnvil (l2_anvils cfgs chains)) cfgs
unfolding l2_anvils
l2_anvils-HasAnvil [] chains h = tt
l2_anvils-HasAnvil (c ∷ cs) chains h =
    let chains' = insert c.chain_id (behind_proxy c) chains in
    (
      ground (
        arith,
        l2_anvils-other c.chain_id cs chains' h.0,
        lookup-insert c.chain_id c.chain_id (behind_proxy c) chains,
      ),
      l2_anvils-HasAnvil cs chains' h.1,
    )

module _ (n : NetworkConfig) (peers : Dict ChainConfig) where
  -- The proxies stand under their chain ids, with the ports from the `i`-th on.
  abbrev pub AllFronted : ℕ → Dict OpSim → List ChainConfig → Type 0
  AllFronted i sims [] = Unit
  AllFronted i sims (c ∷ cs) =
      (lookup c.chain_id sims
        ≡ some (op_sim_of n peers (port_of n.l2_starting_port i) c (behind_proxy c)))
      × AllFronted (i + 1) sims cs

  l2_op_sims-AllFronted :
      (cfgs : List ChainConfig) (i : ℕ) (sims : Dict OpSim)
      → Differ cfgs
      → All (HasAnvil peers) cfgs
      → n.l2_starting_port + i + length cfgs < word
      → (r : Dict OpSim) × (l2_op_sims n peers cfgs (port_of n.l2_starting_port i) sims ≡ ok r)
        × AllFronted i r cfgs
        × ((k : ℕ) → All (IsOther k) cfgs → lookup k r ≡ lookup k sims)
  unfolding l2_op_sims
  l2_op_sims-AllFronted [] i sims d a h = (sims, refl, tt, λ k o. refl)
  l2_op_sims-AllFronted (c ∷ cs) i sims d a h =
      let sim = op_sim_of n peers (port_of n.l2_starting_port i) c (behind_proxy c) in
      let (r, made, fronted, kept) =
        l2_op_sims-AllFronted cs (i + 1) (insert c.chain_id sim sims) d.1 a.1 (omega arith) in
      (
        r,
        rw (a.0, l2_op_sims, next_port-port_of n.l2_starting_port i (omega arith)) made,
        (
          kept c.chain_id d.0 ∙ ground (arith, lookup-insert c.chain_id c.chain_id sim sims),
          fronted,
        ),
        λ k o. kept k o.1 ∙ ground (arith, lookup-insert c.chain_id k sim sims, o.0),
      )

-- Where the chain ids of the L2s differ and the ports end below 2^64, the orchestrator is made, and
-- in front of each L2 is a proxy that knows the anvils of all L2s, and whose port is the starting
-- port plus the place of the L2 in the configuration, or 0 for all if the starting port is 0.
pub new_orchestrator-AllFronted :
    (n : NetworkConfig) (admin_port : ℕ)
    → Differ n.l2_configs
    → n.l2_starting_port + length n.l2_configs < word
    → (o : Orchestrator) × (new_orchestrator n admin_port ≡ ok o)
      × AllFronted n o.l2_chains 0 o.l2_op_sims n.l2_configs
      × All (HasAnvil o.l2_chains) n.l2_configs
unfolding new_orchestrator
new_orchestrator-AllFronted n admin_port d h =
    let chains = l2_anvils n.l2_configs [] in
    let anvils = l2_anvils-HasAnvil n.l2_configs [] d in
    let (sims, made, fronted, kept) =
      l2_op_sims-AllFronted n chains n.l2_configs 0 [] d anvils (omega arith) in
    let start : port_of n.l2_starting_port 0 ≡ n.l2_starting_port = ground arith in
    (
      assemble n admin_port chains sims,
      ground (arith, ap (λ p. l2_op_sims n chains n.l2_configs p []) start),
      fronted,
      anvils,
    )
