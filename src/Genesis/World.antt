-- ===== src/Genesis/World.antt =====
-- genesis/worldgen/worldgen.go, GenerateWorld: the L1 with the contracts of the L2s, then the L2s.
-- What it calls of op-chain-ops is outside: each call is recorded, in its order, and comes back as
-- `outcome` says. A map is walked in the order of its list.
pub mod Plan
mod Tests
use mathlib.Core.List.{append-nil}
use supersim.Prelude.{
  ℕ, ltb, ◌<◌, ◌==◌, ◌||◌, ◌≡◌, ◌↔◌, refl, sym, not, if◌then◌else◌, Bool, true, false, List, [],
  ◌∷◌, ◌++◌, map, All, String, Result, ok, err, External, returns, from_external, fail_if, arith,
  Result-cases, inl, inr,
}
use supersim.Prelude.Int.{ℤ, pos, negsuc, word, to_uint64}
use supersim.Prelude.State.{Action, lift, ◌>>◌}
use supersim.Prelude.Calls.{Makes, Makes-nothing, Makes-then}
use supersim.Prelude.Text.{Text, decimal, text_eq, text_eq_iff}

-- An L2 of the configuration.
pub record L2Chain : Type 0 where
  pub l2_chain_id : ℕ
  pub l1_chain_id : ℕ

pub record WorldConfig : Type 0 where
  pub l1_chain_id : ℤ
  pub l2s : List (Text × L2Chain)

-- A call of the generator.
pub data Deed : Type 0 where
  create_wallet build_config enable_l1_cheats prepare_l1 deploy_superchain complete_l1 : Deed
  deploy_l2_to_l1 enable_l2_cheats genesis_l2 deploy_periphery complete_l2 : Text → Deed

-- A constructor to each `fmt.Errorf`.
pub data WorldError : Type 0 where
  failed : Deed → String → WorldError
  different_l2_chain_id different_l1_chain_id : Text → WorldError

abbrev pub Run : Type 0
Run = Action (List Deed) WorldError (Unit {0})

-- `cfg.L1.ChainID.IsUint64()`
abbrev pub is_uint64 : ℤ → Bool
is_uint64 (pos n) = ltb n word
is_uint64 (negsuc n) = false

-- The body of the first loop.
unfoldable pub check_chain : ℤ → Text × L2Chain → Result WorldError (Unit {0})
check_chain l1 (id, cfg) =
    if not (text_eq (decimal cfg.l2_chain_id) id)
    then err (different_l2_chain_id id)
    else fail_if (not (is_uint64 l1) || not (to_uint64 l1 == cfg.l1_chain_id))
        (different_l1_chain_id id)

unfoldable pub check_chains : ℤ → List (Text × L2Chain) → Result WorldError (Unit {0})
check_chains l1 [] = ok tt
check_chains l1 (c ∷ cs) =
    let rest = check_chains l1 cs in
    elim (check_chain l1 c) [ ok u ↦ rest | err e ↦ err e | Result.panic ↦ Result.panic ]

abbrev pub ids : List (Text × L2Chain) → List Text
ids l2s = map (λ (c : Text × L2Chain). c.0) l2s

module _ (outcome : Deed → External (Unit {0})) where
  abbrev pub perform : Deed → Run
  perform d made = (from_external (failed d) (outcome d), made ++ d ∷ [])

  unfoldable pub perform_all : List Deed → Run
  perform_all [] = lift (ok tt)
  perform_all (d ∷ ds) = perform d >> perform_all ds

  -- The body of the last loop.
  unfoldable pub generate_l2 : Text → Run
  generate_l2 id = do
    perform (enable_l2_cheats id)
    perform (genesis_l2 id)
    perform (deploy_periphery id)
    perform (complete_l2 id)

  unfoldable pub generate_l2s : List (Text × L2Chain) → Run
  unfolding generate_l2
  generate_l2s [] = lift (ok tt)
  generate_l2s ((id, cfg) ∷ l2s) = generate_l2 id >> generate_l2s l2s

  unfoldable pub generate_world : WorldConfig → Run
  unfolding check_chains perform_all generate_l2s
  generate_world cfg = do
    perform_all (create_wallet ∷ build_config ∷ [])
    lift (check_chains cfg.l1_chain_id cfg.l2s)
    perform_all (enable_l1_cheats ∷ prepare_l1 ∷ deploy_superchain ∷ [])
    perform_all (map deploy_l2_to_l1 (ids cfg.l2s))
    perform complete_l1
    generate_l2s cfg.l2s

-- A chain stands under its own id, and is attached to the L1.
abbrev pub IsConsistent : ℤ → Text × L2Chain → Type 0
IsConsistent l1 (id, cfg) =
    (id ≡ decimal cfg.l2_chain_id) × (l1 ≡ pos cfg.l1_chain_id) × (cfg.l1_chain_id < word)

check_chain_iff : (l1 : ℤ) (c : Text × L2Chain) → (check_chain l1 c ≡ ok tt) ↔ IsConsistent l1 c
unfolding check_chain to_uint64
check_chain_iff (pos n) (id, cfg) = (
  λ h.
      let named : text_eq (decimal cfg.l2_chain_id) id ≡ true = ground arith in
      (sym ((text_eq_iff (decimal cfg.l2_chain_id) id).0 named), ground arith, ground arith),
  λ v. ground (arith, text_eq_iff (decimal cfg.l2_chain_id) id, v.0, v.1, v.2),
)
check_chain_iff (negsuc n) (id, cfg) =
    (λ h. absurd (ground arith), λ v. absurd (ground (arith, v.1)))

pub check_chains_iff :
    (l1 : ℤ) (cs : List (Text × L2Chain)) → (check_chains l1 cs ≡ ok tt) ↔ All (IsConsistent l1) cs
unfolding check_chains
check_chains_iff l1 [] = (λ h. tt, λ v. refl)
check_chains_iff l1 (c ∷ cs) = (
  λ h. elim (Result-cases (check_chain l1 c)) [
    | inl (u, q) ↦ ((check_chain_iff l1 c).0 q, (check_chains_iff l1 cs).0 (ground arith))
    | inr (inl (e, q)) ↦ absurd (ground arith)
    | inr (inr q) ↦ absurd (ground arith)
  ],
  λ v. ground (arith, (check_chain_iff l1 c).1 v.0, (check_chains_iff l1 cs).1 v.1),
)
