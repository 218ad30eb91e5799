-- ===== src/Genesis/World/Plan.antt =====
-- The generation of a world against a plan: one list of calls, made one after the other.
use mathlib.Core.Path.{fun_ext}
use mathlib.Core.List.{append-nil, append_assoc}
use supersim.Prelude.{
  ◌≡◌, ◌≢◌, ◌∙◌, refl, sym, ap, List, [], ◌∷◌, ◌++◌, map, panic, Result-cases, All, String, Result,
  ok, err, External, returns, fails, ◌⊎◌, arith, External-cases, inl, inr,
}
use supersim.Prelude.State.{lift, ◌>>◌}
use supersim.Prelude.Int.{ℤ}
use supersim.Prelude.Text.{Text}
use supersim.Genesis.World.{
  L2Chain, WorldConfig, Deed, create_wallet, build_config, enable_l1_cheats, prepare_l1,
  deploy_superchain, complete_l1, deploy_l2_to_l1, enable_l2_cheats, genesis_l2, deploy_periphery,
  complete_l2, WorldError, failed, Run, perform, perform_all, ids, generate_l2, generate_l2s,
  check_chain, check_chains, generate_world, check_chains_iff, IsConsistent,
}

abbrev l2_deeds : Text → List Deed
l2_deeds id = enable_l2_cheats id ∷ genesis_l2 id ∷ deploy_periphery id ∷ complete_l2 id ∷ []

abbrev pub all_l2_deeds : List Text → List Deed
all_l2_deeds [] = []
all_l2_deeds (id ∷ rest) = l2_deeds id ++ all_l2_deeds rest

-- All contracts are on the L1 before it is completed, and only then is each L2 made.
abbrev pub plan : List Text → List Deed
plan l2s =
    create_wallet
    ∷ build_config
    ∷ enable_l1_cheats
    ∷ prepare_l1
    ∷ deploy_superchain
    ∷ (map deploy_l2_to_l1 l2s ++ complete_l1 ∷ all_l2_deeds l2s)

module _ (outcome : Deed → External (Unit {0})) where
  then-append :
      (xs ys : List Deed) (made : List Deed)
      → (perform_all outcome xs >> perform_all outcome ys) made
        ≡ perform_all outcome (xs ++ ys) made
  unfolding perform_all
  then-append [] ys made = refl
  then-append (d ∷ xs) ys made = elim (External-cases (outcome d)) [
    | inl (u, q) ↦ ground (arith, q, then-append xs ys (made ++ d ∷ []))
    | inr (e, q) ↦ ground (arith, q)
  ]

  perform_all-append :
      (xs ys : List Deed)
      → (perform_all outcome xs >> perform_all outcome ys) ≡ perform_all outcome (xs ++ ys)
  perform_all-append xs ys = fun_ext (then-append xs ys)

  perform_last : (d : Deed) → perform outcome d ≡ perform_all outcome (d ∷ [])
  unfolding perform_all
  perform_last d = fun_ext λ made. elim (External-cases (outcome d)) [
    | inl (u, q) ↦ ground (arith, q)
    | inr (e, q) ↦ ground (arith, q)
  ]

  generate_l2-eq-perform_all :
      (id : Text) → generate_l2 outcome id ≡ perform_all outcome (l2_deeds id)
  unfolding generate_l2 perform_all
  generate_l2-eq-perform_all id =
      ap
        (λ (m : Run).
          perform outcome (enable_l2_cheats id)
          >> (perform outcome (genesis_l2 id) >> (perform outcome (deploy_periphery id) >> m)))
        (perform_last (complete_l2 id))

  generate_l2s-eq-perform_all :
      (l2s : List (Text × L2Chain))
      → generate_l2s outcome l2s ≡ perform_all outcome (all_l2_deeds (ids l2s))
  unfolding generate_l2s perform_all
  generate_l2s-eq-perform_all [] = refl
  generate_l2s-eq-perform_all ((id, cfg) ∷ l2s) =
      ap (λ (m : Run). m >> generate_l2s outcome l2s) (generate_l2-eq-perform_all id)
      ∙ ap (λ (m : Run). perform_all outcome (l2_deeds id) >> m) (generate_l2s-eq-perform_all l2s)
      ∙ perform_all-append (l2_deeds id) (all_l2_deeds (ids l2s))

  complete-eq-perform_all :
      (l2s : List (Text × L2Chain))
      → (perform outcome complete_l1 >> generate_l2s outcome l2s)
        ≡ perform_all outcome (complete_l1 ∷ all_l2_deeds (ids l2s))
  unfolding perform_all
  complete-eq-perform_all l2s =
      ap (λ (m : Run). perform outcome complete_l1 >> m) (generate_l2s-eq-perform_all l2s)

  generate_world-eq-perform_all :
      (cfg : WorldConfig)
      → All (IsConsistent cfg.l1_chain_id) cfg.l2s
      → generate_world outcome cfg ≡ perform_all outcome (plan (ids cfg.l2s))
  unfolding generate_world
  generate_world-eq-perform_all cfg consistent =
      let first : List Deed = create_wallet ∷ build_config ∷ [] in
      let second : List Deed = enable_l1_cheats ∷ prepare_l1 ∷ deploy_superchain ∷ [] in
      let contracts : List Deed = map deploy_l2_to_l1 (ids cfg.l2s) in
      let last : List Deed = complete_l1 ∷ all_l2_deeds (ids cfg.l2s) in
      rw ((check_chains_iff cfg.l1_chain_id cfg.l2s).1 consistent) (
        ap
          (λ (m : Run).
            perform_all outcome first
            >> (perform_all outcome second >> (perform_all outcome contracts >> m)))
          (complete-eq-perform_all cfg.l2s)
        ∙ ap (λ (m : Run). perform_all outcome first >> (perform_all outcome second >> m))
            (perform_all-append contracts last)
        ∙ ap (λ (m : Run). perform_all outcome first >> m)
            (perform_all-append second (contracts ++ last))
        ∙ perform_all-append first (second ++ (contracts ++ last)))

  -- The first of the calls that fails, if any does.
  abbrev pub Runs : List Deed → List Deed → Result WorldError (Unit {0}) × List Deed → Type 0
  Runs plan made end =
      (All (λ (d : Deed). outcome d ≡ returns tt) plan × (end ≡ (ok tt, made ++ plan)))
      ⊎ ((d : Deed) × (e : String) × (done : List Deed) × (rest : List Deed) × (plan
            ≡ done ++ d ∷ rest)
          × All (λ (d : Deed). outcome d ≡ returns tt) done
          × (outcome d ≡ fails e)
          × (end ≡ (err (failed d e), made ++ (done ++ d ∷ []))))

  perform_all-Runs : (ds made : List Deed) → Runs ds made (perform_all outcome ds made)
  unfolding perform_all
  perform_all-Runs [] made = inl (tt, ground (arith, append-nil made))
  perform_all-Runs (d ∷ ds) made = elim (External-cases (outcome d)) [
    | inr (e, q) ↦ inr (d, e, [], ds, refl, tt, q, ground (arith, q))
    | inl (u, q) ↦ elim (perform_all-Runs ds (made ++ d ∷ [])) [
      | inl (all, p) ↦ inl ((q, all), ground (arith, q, p, append_assoc made (d ∷ []) ds))
      | inr (x, e, done, rest, split, fine, f, p) ↦ inr (
        x,
        e,
        d ∷ done,
        rest,
        ap (λ l. d ∷ l) split,
        (q, fine),
        f,
        ground (arith, q, p, append_assoc made (d ∷ []) (done ++ x ∷ [])),
      )
    ]
  ]

  abbrev preparation : List Deed
  preparation = create_wallet ∷ build_config ∷ []

  -- It ends with an error within the first two calls, or at the check after them.
  abbrev pub IsRefused : List Deed → Result WorldError (Unit {0}) × List Deed → Type 0
  IsRefused made end =
      (e : WorldError) × (done : List Deed) × (rest : List Deed) × (create_wallet ∷ build_config
          ∷ []
        ≡ done ++ rest)
      × (end ≡ (err e, made ++ done))

  ends :
      (m k : Run) (made : List Deed) (x : WorldError) (calls : List Deed)
      → m made ≡ (err x, calls)
      → (m >> k) made ≡ (err x, calls)
  ends m k made x calls p = ground (arith, p)

  refuse :
      (x : WorldError) (made : List Deed) (k : Run)
      → IsRefused made ((perform_all outcome preparation >> (lift (err x) >> k)) made)
  refuse x made k = elim (perform_all-Runs preparation made) [
    | inl (all, p) ↦ (x, preparation, [], refl, ground (arith, p))
    | inr (d, e, done, rest, split, fine, f, p) ↦ (
      failed d e,
      done ++ d ∷ [],
      rest,
      split ∙ sym (append_assoc done (d ∷ []) rest),
      ends (perform_all outcome preparation) (lift (err x) >> k) made (failed d e) _ p,
    )
  ]

  check_chains-ne-panic : (l1 : ℤ) (cs : List (Text × L2Chain)) → check_chains l1 cs ≢ panic
  unfolding check_chains check_chain
  check_chains-ne-panic l1 [] e = cc
  check_chains-ne-panic l1 ((id, c) ∷ cs) e = ground (arith, check_chains-ne-panic l1 cs)

  generate_world-IsRefused :
      (cfg : WorldConfig) (made : List Deed) (e : WorldError)
      → check_chains cfg.l1_chain_id cfg.l2s ≡ err e
      → IsRefused made (generate_world outcome cfg made)
  unfolding generate_world
  generate_world-IsRefused cfg made e q = rw q (
      refuse e made (
        perform_all outcome (enable_l1_cheats ∷ prepare_l1 ∷ deploy_superchain ∷ [])
        >> (perform_all outcome (map deploy_l2_to_l1 (ids cfg.l2s))
            >> (perform outcome complete_l1 >> generate_l2s outcome cfg.l2s))))

  -- Where each L2 of the configuration stands under its own id and is attached to the L1, the calls
  -- are made in this order: the wallet and the configuration, the L1, the superchain, the contracts
  -- of every L2, and the L1's completion; then for one L2 after the other its cheats, its genesis,
  -- its periphery and its completion. All are made and succeed, or they end at the first that fails,
  -- with its error. Where an L2 is under another id or attached elsewhere, there is an error, after
  -- at most the wallet and the configuration.
  pub generate_world-Runs :
      (cfg : WorldConfig) (made : List Deed)
      → (All (IsConsistent cfg.l1_chain_id) cfg.l2s
          × Runs (plan (ids cfg.l2s)) made (generate_world outcome cfg made))
        ⊎ (¬ All (IsConsistent cfg.l1_chain_id) cfg.l2s
            × IsRefused made (generate_world outcome cfg made))
  generate_world-Runs cfg made =
      let checked = check_chains_iff cfg.l1_chain_id cfg.l2s in
      elim (Result-cases (check_chains cfg.l1_chain_id cfg.l2s)) [
        | inl (u, q) ↦ inl (
          checked.0 q,
          rw (generate_world-eq-perform_all cfg (checked.0 q))
              (perform_all-Runs (plan (ids cfg.l2s)) made),
        )
        | inr (inl (e, q)) ↦
            inr (λ all. let fine = checked.1 all in cc, generate_world-IsRefused cfg made e q)
        | inr (inr q) ↦ absurd (check_chains-ne-panic cfg.l1_chain_id cfg.l2s q)
      ]
