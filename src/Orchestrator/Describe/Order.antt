-- ===== src/Orchestrator/Describe/Order.antt =====
-- The order in which the chains are printed.
use mathlib.Core.List.{Perm, append-nil, append_assoc}
use mathlib.Core.List.Perm
use text.Mathlib.TextEquality.{IsScalar-prop}
use supersim.Prelude.{
  ℕ, ◌+◌, ◌<◌, ◌≡◌, refl, sym, ap, ◌∙◌, true, none, some, List, [], ◌∷◌, ◌++◌, String, ok, All,
  length, arith,
}
use supersim.Prelude.Dict.{Dict, lookup, insert, lookup-insert}
use supersim.Prelude.Int.{word}
use supersim.Prelude.Text.{Text, codes, decimal}
use supersim.Prelude.Sorted.{IsSorted, IsAscending, IsSorted-eq_of_perm}
use supersim.Config.Types.{ChainConfig, NetworkConfig, L2Config}
use supersim.Orchestrator.Network.{
  OpSim, Orchestrator, behind_proxy, op_sim_of, l2_op_sims, l2_anvils, assemble, new_orchestrator,
}
use supersim.Orchestrator.Network.Ports.{
  IsOther, Differ, HasAnvil, l2_anvils-HasAnvil, port_of, next_port-port_of,
}
use supersim.Orchestrator.Describe.{
  Printed, sims_of, by_port, op_sim_lines, all_op_sim_lines, config_as_string, heading, chain_line,
  address_lines,
}

OpSim-set : IsSet OpSim
OpSim-set = hlevel IsScalar-prop

insert-new :
    {V : Type 0} (k : ℕ) (v : V) (d : Dict V) → lookup k d ≡ none → insert k v d ≡ d ++ (k, v) ∷ []
unfolding lookup insert
insert-new k v [] h = refl
insert-new k v ((j, w) ∷ d) h = ground (arith, insert-new k v d)

sims_of-append : (d e : Dict OpSim) → sims_of (d ++ e) ≡ sims_of d ++ sims_of e
sims_of-append [] e = refl
sims_of-append ((k, sim) ∷ d) e = ap (◌∷◌ sim) (sims_of-append d e)

-- A chain that a map of proxies does not have yet.
abbrev IsNew : Dict OpSim → ChainConfig → Type 0
IsNew sims c = lookup c.chain_id sims ≡ none

IsNew-insert :
    (k : ℕ) (sim : OpSim) (sims : Dict OpSim) (cs : List ChainConfig)
    → All (IsOther k) cs
    → All (IsNew sims) cs
    → All (IsNew (insert k sim sims)) cs
IsNew-insert k sim sims [] o h = tt
IsNew-insert k sim sims (c ∷ cs) o h = (
  ground (arith, lookup-insert k c.chain_id sim sims, o.0, h.0),
  IsNew-insert k sim sims cs o.1 h.1,
)

module _ (n : NetworkConfig) (peers : Dict ChainConfig) where
  -- The proxies in the order of the configuration, from the `i`-th on.
  abbrev pub in_order : ℕ → List ChainConfig → List OpSim
  in_order i [] = []
  in_order i (c ∷ cs) =
      op_sim_of n peers (port_of n.l2_starting_port i) c (behind_proxy c) ∷ in_order (i + 1) cs

  l2_op_sims-in_order :
      (cfgs : List ChainConfig) (i : ℕ) (sims : Dict OpSim)
      → Differ cfgs
      → All (HasAnvil peers) cfgs
      → All (IsNew sims) cfgs
      → n.l2_starting_port + i + length cfgs < word
      → (r : Dict OpSim) × (l2_op_sims n peers cfgs (port_of n.l2_starting_port i) sims ≡ ok r)
        × (sims_of r ≡ sims_of sims ++ in_order i cfgs)
  unfolding l2_op_sims
  l2_op_sims-in_order [] i sims d a f h = (sims, refl, sym (append-nil (sims_of sims)))
  l2_op_sims-in_order (c ∷ cs) i sims d a f h =
      let sim = op_sim_of n peers (port_of n.l2_starting_port i) c (behind_proxy c) in
      let (r, made, listed) =
        l2_op_sims-in_order cs (i + 1) (insert c.chain_id sim sims) d.1 a.1
          (IsNew-insert c.chain_id sim sims cs d.0 f.1) (omega arith) in
      (
        r,
        rw (a.0, l2_op_sims, next_port-port_of n.l2_starting_port i (omega arith)) made,
        listed
            ∙ ap (λ (e : Dict OpSim). sims_of e ++ in_order (i + 1) cs)
                (insert-new c.chain_id sim sims f.0)
            ∙ ap (λ (e : List OpSim). e ++ in_order (i + 1) cs)
                (sims_of-append sims ((c.chain_id, sim) ∷ []))
            ∙ append_assoc (sims_of sims) (sim ∷ []) (in_order (i + 1) cs),
      )

  in_order-after :
      (first : OpSim) (cfgs : List ChainConfig) (i : ℕ)
      → 0 < n.l2_starting_port
      → first.port < n.l2_starting_port + i
      → All (λ y. by_port first y ≡ true) (in_order i cfgs)
  in_order-after first [] i pos h = tt
  in_order-after first (c ∷ cs) i pos h =
      (ground arith, in_order-after first cs (i + 1) pos (omega arith))

  in_order-IsAscending :
      (cfgs : List ChainConfig) (i : ℕ)
      → 0 < n.l2_starting_port
      → IsAscending by_port (in_order i cfgs)
  in_order-IsAscending [] i pos = tt
  in_order-IsAscending (c ∷ cs) i pos =
      let sim = op_sim_of n peers (port_of n.l2_starting_port i) c (behind_proxy c) in
      (in_order-after sim cs (i + 1) pos (ground arith), in_order-IsAscending cs (i + 1) pos)

-- What is documented of a walk over a map, and of `sort.Slice`.
pub record Orders (out : Printed) : Type 0 where
  pub walks : (d : Dict OpSim) → Perm (out.walk d) (sims_of d)
  pub keeps : (sims : List OpSim) → Perm (out.sort_slice by_port sims) sims
  pub sorts : (sims : List OpSim) → IsSorted by_port (out.sort_slice by_port sims)

-- An L2 with its addresses on the L1.
abbrev pub HasAddresses : Printed → ChainConfig → Type 0
HasAddresses out c =
    (l2 : L2Config) × (address_of : (String → Text)) × (c.l2_config ≡ some l2)
    × (out.addresses l2.l1_addresses ≡ some address_of)

module _ (out : Printed) (start : ℕ) where
  -- The lines of the `i`-th chain.
  abbrev pub chain_text : ℕ → ChainConfig → (String → Text) → Text
  chain_text i c address_of =
      let rpc : Text = codes "http://" ++ (c.host ++ b':' ∷ decimal (start + i)) in
      codes "\n  * "
      ++ (chain_line c rpc (out.log_path (behind_proxy c)) ++ address_lines address_of)

  -- The chains in the order of the configuration.
  abbrev pub network_text : ℕ → (cs : List ChainConfig) → All (HasAddresses out) cs → Text
  network_text i [] h = []
  network_text i (c ∷ cs) ((l2, address_of, a, b), h) =
      chain_text i c address_of ++ network_text (i + 1) cs h

op_sim_lines-chain_text :
    (out : Printed) (n : NetworkConfig) (peers : Dict ChainConfig) (c : ChainConfig) (port : ℕ)
    (i : ℕ) (h : HasAddresses out c)
    → port ≡ n.l2_starting_port + i
    → op_sim_lines out (op_sim_of n peers port c (behind_proxy c))
      ≡ ok (chain_text out n.l2_starting_port i c h.1)
unfolding op_sim_lines
op_sim_lines-chain_text out n peers c port i (l2, address_of, a, b) e = rw (e, a, b) refl

all_op_sim_lines-in_order :
    (out : Printed) (n : NetworkConfig) (peers : Dict ChainConfig) (cfgs : List ChainConfig) (i : ℕ)
    (h : All (HasAddresses out) cfgs)
    → 0 < n.l2_starting_port
    → all_op_sim_lines out (in_order n peers i cfgs)
      ≡ ok (network_text out n.l2_starting_port i cfgs h)
unfolding all_op_sim_lines
all_op_sim_lines-in_order out n peers [] i h pos = refl
all_op_sim_lines-in_order out n peers (c ∷ cs) i (first, h) pos =
    let port : ℕ = port_of n.l2_starting_port i in
    rw (op_sim_lines-chain_text out n peers c port i first (ground arith))
      (ground (arith, all_op_sim_lines-in_order out n peers cs (i + 1) h pos))

no_sims-IsNew : (cfgs : List ChainConfig) → All (IsNew []) cfgs
unfolding lookup
no_sims-IsNew [] = tt
no_sims-IsNew (c ∷ cs) = (refl, no_sims-IsNew cs)

-- Where the chain ids of the L2s differ, the ports count from one that is not 0 and end below 2^64,
-- and each L2 has its addresses: in whatever order the map of the proxies is walked, and however
-- the sort goes about it, the L2s of the orchestrator made are printed in the order of the
-- configuration, each with the port that its place gives.
pub config_as_string_lem :
    (out : Printed) (n : NetworkConfig) (admin_port : ℕ)
    → Orders out
    → Differ n.l2_configs
    → 0 < n.l2_starting_port
    → n.l2_starting_port + length n.l2_configs < word
    → (h : All (HasAddresses out) n.l2_configs)
    → (o : Orchestrator) × (new_orchestrator n admin_port ≡ ok o)
      × (config_as_string out o
          ≡ ok (
              heading o (out.log_path n.l1_config)
              ++ network_text out n.l2_starting_port 0 n.l2_configs h))
unfolding new_orchestrator config_as_string
config_as_string_lem out n admin_port orders d pos fits h =
    let chains = l2_anvils n.l2_configs [] in
    let (sims, made, listed) =
      l2_op_sims-in_order n chains n.l2_configs 0 [] d (l2_anvils-HasAnvil n.l2_configs [] d)
        (no_sims-IsNew n.l2_configs) (omega arith) in
    let start : port_of n.l2_starting_port 0 ≡ n.l2_starting_port = ground arith in
    let walked : List OpSim = out.walk sims in
    let sorted : out.sort_slice by_port walked ≡ in_order n chains 0 n.l2_configs =
      IsSorted-eq_of_perm by_port OpSim-set _ _ (orders.sorts walked)
        (in_order-IsAscending n chains n.l2_configs 0 pos)
        (Perm.trans (orders.keeps walked) (rw (← listed) (orders.walks sims))) in
    (
      assemble n admin_port chains sims,
      ground (arith, ap (λ p. l2_op_sims n chains n.l2_configs p []) start),
      ground (
        arith,
        ap (all_op_sim_lines out) sorted,
        all_op_sim_lines-in_order out n chains n.l2_configs 0 h pos,
      ),
    )
