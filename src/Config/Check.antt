-- ===== src/Config/Check.antt =====
-- config/cli.go, (*CLIConfig).Check.
pub mod Accepts
use supersim.Prelude.{
  ℕ, ◌==◌, not, if◌then◌else◌, Bool, List, [], ◌∷◌, Option, none, some, String, Result, ok, err,
  map_err, ◌>>=◌, ◌>>◌, or_err, length,
}
use supersim.Prelude.Text.{Text}
use supersim.Config.Types.{CliConfig, ForkCliConfig}
use supersim.Config.Host.{HostError, validate_host}
use supersim.Config.Registry.{
  Registry, Superchain, find_network, superchain_networks, superchain_member_chains,
  is_in_superchain,
}

-- A constructor to each `fmt.Errorf`, with what it lists.
pub data ConfigError : Type 0 where
  invalid_l1_host invalid_l2_host : HostError → ConfigError
  unrecognized_network : String → List String → ConfigError
  no_chains : List String → ConfigError
  unrecognized_chain : String → String → List String → ConfigError

module _ (reg : Registry) where
  -- The loop over the chains. The list in an error is only made where the error is.
  unfoldable pub check_chains :
      ForkCliConfig → Superchain → List String → Result ConfigError (Unit {0})
  check_chains fork s [] = ok tt
  check_chains fork s (chain ∷ chains) =
      let rest = check_chains fork s chains in
      is_in_superchain reg chain s >>= λ found.
      if not found
      then (do
        members ← superchain_member_chains reg s
        err (unrecognized_chain chain fork.network members))
      else rest

  unfoldable pub check_fork : ForkCliConfig → Result ConfigError (Unit {0})
  check_fork fork = do
    s ←
        or_err (find_network fork.network reg.superchains)
          (unrecognized_network fork.network (superchain_networks reg))
    if length fork.chains == 0
        then (do members ← superchain_member_chains reg s; err (no_chains members))
        else check_chains fork s fork.chains

  unfoldable pub check : (Text → Bool) → CliConfig → Result ConfigError (Unit {0})
  check parse_ip c = do
    map_err invalid_l1_host (validate_host parse_ip c.l1_host)
    map_err invalid_l2_host (validate_host parse_ip c.l2_host)
    elim c.fork_config [ none ↦ ok tt | some fork ↦ check_fork fork ]
