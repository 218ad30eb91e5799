-- ===== src/Interop/Applier/Tests.antt =====
-- A forked chain with one dependency, and a genesis where each address has code.
use supersim.Prelude.{ℕ, ◌≡◌, ◌++◌, refl, List, [], ◌∷◌, Option, some, ok, returns}
use supersim.Config.Types.{ChainConfig}
use supersim.Config.TestData.{chain_of, l2_of}
use supersim.Interop.Applier.{
  Alloc, Setup, receipt, not_mined, interop_predeploys, wait_mined, configure,
}
use supersim.Interop.Applier.Applied.{fork_calls, dependency_calls, configure_lem}

abbrev coded : Alloc
coded = record { code = "0x60"; storage = some (("0x0", "0x1") ∷ []); balance = 0 }

abbrev all_coded : ℕ → Option Alloc
all_coded address = some coded

abbrev payload_of : ℕ → List ℕ
payload_of id = 1 ∷ id ∷ []

abbrev setup : Setup
setup = record {
  cross_l2_inbox = 0x22;
  l2_to_l2_cross_domain_messenger = 0x23;
  l1_block = 0x15;
  superchain_weth = 0x24;
  eth_liquidity = 0x25;
  superchain_token_bridge = 0x28;
  genesis = returns all_coded;
  pack_set_config = λ id. returns (payload_of id);
  polls = λ p. not_mined ∷ receipt 1 ∷ [];
  outcome = λ c. returns tt;
}

abbrev forked : ChainConfig
forked = record (chain_of "op" 10 (some (l2_of 10 8_453))) {
  fork_config = some (record { rpc_url = "https://op"; block_number = 100 });
}

is_mined : (p : List ℕ) → wait_mined (setup.polls p) ≡ ok 1
unfolding wait_mined
is_mined p = refl

configure_lem_example : configure setup forked [] ≡ (
  ok tt,
  fork_calls forked.fork_config all_coded (interop_predeploys setup)
      ++ dependency_calls payload_of (8_453 ∷ []),
)
configure_lem_example =
    configure_lem setup (λ c. refl) payload_of (λ id. refl) is_mined forked (l2_of 10 8_453)
      all_coded [] refl refl
      (
        ((coded, refl), (coded, refl)),
        (
          ((coded, refl), (coded, refl)),
          (
            ((coded, refl), (coded, refl)),
            (
              ((coded, refl), (coded, refl)),
              (((coded, refl), (coded, refl)), (((coded, refl), (coded, refl)), tt)),
            ),
          ),
        ),
      )
