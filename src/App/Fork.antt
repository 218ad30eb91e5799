-- ===== src/App/Fork.antt =====
-- The program's set-up for a fork whose configuration has passed the check.
use supersim.Prelude.{
  ℕ, suc, ◌≡◌, ◌≢◌, inl, inr, refl, sym, ap, ◌∙◌, Bool, List, [], ◌∷◌, map, some, String, ok, All,
  arith, length, Option-cases, Bool-cases,
}
use text.Mathlib.Text.{◌==◌ as str_eq}
use supersim.Prelude.Dict.{lookup}
use supersim.Interop.Types.{Header}
use supersim.Config.Types.{ChainConfig, CliConfig}
use supersim.Config.Registry.{Registry, Superchain, OpChain, find_chain, op_chain_by_name}
use supersim.Config.Check.Accepts.{Found}
use supersim.Orchestrator.Fork.{Outside, ForkError}
use supersim.Orchestrator.Fork.Chains.{AllForked, found_chains}
use supersim.Orchestrator.Network.Ports.{Differ, IsOther}
use supersim.App.{forwarded_l2, log_chains}

-- The registry holds each chain under its own id.
abbrev pub IsKeyed : Registry → Type 0
IsKeyed reg = (id : ℕ) (c : OpChain) → lookup id reg.op_chains ≡ some c → c.chain_id ≡ id

-- No chain is named twice.
abbrev pub Unrepeated : List String → Type 0
Unrepeated [] = Unit
Unrepeated (n ∷ ns) = All (λ m. m ≢ n) ns × Unrepeated ns

module _ (reg : Registry) (keyed : IsKeyed reg) where
  find_chain-entry :
      (name : String) (ids : List ℕ) (c : OpChain)
      → find_chain reg {E = ForkError} name ids ≡ ok (some c)
      → lookup c.chain_id reg.op_chains ≡ some c
  unfolding find_chain
  find_chain-entry name [] c h = absurd (ground arith)
  find_chain-entry name (id ∷ ids) c h = elim (Option-cases (lookup id reg.op_chains)) [
    | inl q ↦ absurd (ground arith)
    | inr (c', q) ↦ elim (Bool-cases (str_eq c'.chain name)) [
      | inl t ↦
          let same : c' ≡ c = ground arith in
          ap (λ (x : OpChain). lookup x.chain_id reg.op_chains) (sym same)
          ∙ ap (λ i. lookup i reg.op_chains) (keyed id c' q)
          ∙ q
          ∙ ap some same
      | inr f ↦ find_chain-entry name ids c (ground arith)
    ]
  ]

  Found-entry :
      (s : Superchain) (name : String) (f : Found reg ForkError s name)
      → lookup f.0.chain_id reg.op_chains ≡ some f.0
  unfolding op_chain_by_name
  Found-entry s name f = find_chain-entry name s.chain_ids f.0 f.1

  -- Chains of one id have one name.
  same_name :
      (s : Superchain) (m n : String) (f : Found reg ForkError s m) (g : Found reg ForkError s n)
      → f.0.chain_id ≡ g.0.chain_id
      → m ≡ n
  same_name s m n f g e =
      let same : some f.0 ≡ some g.0 =
        sym (Found-entry s m f) ∙ ap (λ i. lookup i reg.op_chains) e ∙ Found-entry s n g in
      let one : f.0 ≡ g.0 = cc in sym f.2 ∙ ap (λ (c : OpChain). c.chain) one ∙ g.2

  All-IsOther :
      (cfgs : List ChainConfig) (i j : ℕ) → i ≡ j → All (IsOther j) cfgs → All (IsOther i) cfgs
  All-IsOther cfgs i j e h = rw e h

  module _ (out : Outside) (logs : String) (interop : Bool) (s : Superchain) (l1 : Header)
      (cs : List OpChain) (cli : CliConfig) where
    abbrev Forked :
        (chains : List String) → All (Found reg ForkError s) chains → List ChainConfig → Type 0
    Forked chains f cfgs =
        AllForked reg out logs interop s l1 cs (found_chains reg out logs s chains f) cfgs

    pub log_chains-Forked :
        (chains : List String) (f : All (Found reg ForkError s) chains) (cfgs : List ChainConfig)
        → Forked chains f cfgs
        → (log_chains reg cfgs ≡ ok tt) × (length (map (forwarded_l2 cli) cfgs) ≡ length chains)
    unfolding log_chains found_chains
    log_chains-Forked [] f [] h = (refl, refl)
    log_chains-Forked [] f (cfg ∷ cfgs) h = absurd h
    log_chains-Forked (chain ∷ chains) f [] h = absurd h
    log_chains-Forked (chain ∷ chains) f (cfg ∷ cfgs) h =
        let (logged, long) = log_chains-Forked chains f.1 cfgs h.1 in
        (rw (h.0.is_config, Found-entry s chain f.0) logged, ap suc long)

    other :
        (name : String) (g : Found reg ForkError s name) (chains : List String)
        (f : All (Found reg ForkError s) chains) (cfgs : List ChainConfig)
        → All (λ m. m ≢ name) chains
        → Forked chains f cfgs
        → All (IsOther g.0.chain_id) (map (forwarded_l2 cli) cfgs)
    unfolding found_chains
    other name g [] f [] n h = tt
    other name g [] f (cfg ∷ cfgs) n h = absurd h
    other name g (chain ∷ chains) f [] n h = absurd h
    other name g (chain ∷ chains) f (cfg ∷ cfgs) n h = (
      λ e. n.0 (
          same_name s chain name f.0 g
            (sym (ap (λ (c : ChainConfig). c.chain_id) h.0.is_config) ∙ e)),
      other name g chains f.1 cfgs n.1 h.1,
    )

    pub Forked-Differ :
        (chains : List String) (f : All (Found reg ForkError s) chains) (cfgs : List ChainConfig)
        → Unrepeated chains
        → Forked chains f cfgs
        → Differ (map (forwarded_l2 cli) cfgs)
    unfolding found_chains
    Forked-Differ [] f [] n h = tt
    Forked-Differ [] f (cfg ∷ cfgs) n h = absurd h
    Forked-Differ (chain ∷ chains) f [] n h = absurd h
    Forked-Differ (chain ∷ chains) f (cfg ∷ cfgs) n h = (
      All-IsOther (map (forwarded_l2 cli) cfgs) cfg.chain_id f.0.0.chain_id
          (ap (λ (c : ChainConfig). c.chain_id) h.0.is_config)
          (other chain f.0 chains f.1 cfgs n.0 h.1),
      Forked-Differ chains f.1 cfgs n.1 h.1,
    )
