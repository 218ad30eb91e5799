-- ===== src/Genesis/World/Tests.antt =====
-- The world of one L1 and two L2s.
use supersim.Prelude.{ℕ, ◌≡◌, refl, [], ◌∷◌, External, All, ◌⊎◌, returns, fails, if◌then◌else◌}
use supersim.Prelude.Int.{pos, to_uint64}
use supersim.Prelude.Text.{Text, decimal, text_eq}
use supersim.Genesis.World.{
  L2Chain, WorldConfig, Deed, create_wallet, build_config, enable_l1_cheats, prepare_l1,
  deploy_superchain, deploy_l2_to_l1, ids, generate_world, perform_all, IsConsistent, check_chain,
  check_chains,
}
use supersim.Genesis.World.Plan.{plan, Runs, IsRefused, generate_world-Runs}

abbrev l2_of : ℕ → Text × L2Chain
l2_of id = (decimal id, record { l2_chain_id = id; l1_chain_id = 900 })

abbrev two_l2s : WorldConfig
two_l2s = record { l1_chain_id = pos 900; l2s = l2_of 901 ∷ l2_of 902 ∷ [] }

-- The contracts of the second L2 cannot be put on the L1.
abbrev second_fails : Deed → External (Unit {0})
second_fails (deploy_l2_to_l1 id) =
    if text_eq id (decimal 902) then fails "reverted" else returns tt
second_fails d = returns tt

generate_world-Runs_example :
    (All (IsConsistent two_l2s.l1_chain_id) two_l2s.l2s
      × Runs second_fails (plan (ids two_l2s.l2s)) [] (generate_world second_fails two_l2s []))
    ⊎ (¬ All (IsConsistent two_l2s.l1_chain_id) two_l2s.l2s
        × IsRefused second_fails [] (generate_world second_fails two_l2s []))
generate_world-Runs_example = generate_world-Runs second_fails two_l2s []

-- It ends there: the L1 is not completed.
not_completed :
    (generate_world second_fails two_l2s []).1
    ≡ create_wallet
      ∷ build_config
      ∷ enable_l1_cheats
      ∷ prepare_l1
      ∷ deploy_superchain
      ∷ deploy_l2_to_l1 (decimal 901)
      ∷ deploy_l2_to_l1 (decimal 902)
      ∷ []
unfolding generate_world perform_all check_chains check_chain text_eq decimal to_uint64
not_completed = refl
