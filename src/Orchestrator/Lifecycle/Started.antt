-- ===== src/Orchestrator/Lifecycle/Started.antt =====
-- What a start does, in which order, and what comes of a chain that is not configured.
use mathlib.Core.List.{append_assoc}
use supersim.Prelude.{
  ℕ, if◌then◌else◌, ◌≡◌, refl, Bool, List, [], ◌∷◌, ◌++◌, map, Option, none, some, ok, returns,
  arith,
}
use supersim.Prelude.Calls.{Makes, Makes-nothing, Makes-then, Makes-if}
use supersim.Interop.Relayer.{Relayer}
use supersim.Orchestrator.Network.{Orchestrator}
use supersim.Orchestrator.Lifecycle.{
  l1, message_indexer, message_relayer, admin, l2_chain, op_sim, Deed, start_part,
  set_interval_mining, configure_chain, launch_mining, StartError, Outcome, keys, perform,
  perform_all, failures, kick_off_mining, configure_all, start_relayer, start_interop, start,
}

abbrev pub start_chains : List ℕ → List Deed
start_chains ids = map (λ (id : ℕ). start_part (l2_chain id)) ids

abbrev pub start_sims : List ℕ → List Deed
start_sims ids = map (λ (id : ℕ). start_part (op_sim id)) ids

abbrev pub launches : List ℕ → List Deed
launches ids = map launch_mining ids

abbrev pub relayer_deeds : Option Relayer → List Deed
relayer_deeds none = []
relayer_deeds (some r) = start_part message_relayer ∷ []

abbrev pub interop_deeds : Orchestrator → List Deed
interop_deeds o =
    map configure_chain (keys o.l2_chains)
    ++ ((start_part message_indexer ∷ []) ++ relayer_deeds o.relayer)

-- All that a start does.
abbrev pub start_deeds : Orchestrator → List Deed
start_deeds o =
    (start_part l1 ∷ [])
    ++ (start_chains (keys o.l2_chains)
        ++ (start_sims (keys o.l2_op_sims)
            ++ (((set_interval_mining l1 ∷ []) ++ launches (keys o.l2_op_sims))
                ++ ((if o.config.interop_enabled then interop_deeds o else [])
                    ++ (start_part admin ∷ [])))))

module _ (outcome : Outcome) (seen : Deed → Bool)
    (works : (d : Deed) → outcome d ≡ returns tt) where
  perform-Makes : (d : Deed) → Makes (perform outcome d) (d ∷ [])
  perform-Makes d made = ground (arith, works d)

  perform_all-Makes : (ds : List Deed) → Makes (perform_all outcome ds) ds
  unfolding perform_all
  perform_all-Makes [] = Makes-nothing
  perform_all-Makes (d ∷ ds) =
      Makes-then (perform outcome d) (perform_all outcome ds) (d ∷ []) ds (perform-Makes d)
        (perform_all-Makes ds)

  failures-none : (ds : List Deed) → failures outcome ds ≡ []
  unfolding failures
  failures-none [] = refl
  failures-none (d ∷ ds) = ground (arith, works d, failures-none ds)

  kick_off_mining-Makes :
      (o : Orchestrator)
      → Makes
          (kick_off_mining outcome seen o)
          ((set_interval_mining l1 ∷ []) ++ launches (keys o.l2_op_sims))
  unfolding kick_off_mining
  kick_off_mining-Makes o made = ground (
    arith,
    works (set_interval_mining l1),
    failures-none (map (λ (id : ℕ). set_interval_mining (op_sim id)) (keys o.l2_op_sims)),
    append_assoc made (set_interval_mining l1 ∷ []) (launches (keys o.l2_op_sims)),
  )

  configure_all-Makes :
      (o : Orchestrator)
      → Makes (configure_all outcome seen o) (map configure_chain (keys o.l2_chains))
  unfolding configure_all
  configure_all-Makes o made =
      ground (arith, failures-none (map configure_chain (keys o.l2_chains)))

  start_relayer-Makes :
      (o : Orchestrator) (r : Option Relayer)
      → o.relayer ≡ r
      → Makes (start_relayer outcome seen o) (relayer_deeds r)
  start_relayer-Makes o none e made = ground (arith, e, Makes-nothing {E = StartError} made)
  start_relayer-Makes o (some r) e made =
      ground (arith, e, perform-Makes (start_part message_relayer) made)

  start_interop-Makes : (o : Orchestrator) → Makes (start_interop outcome seen o) (interop_deeds o)
  start_interop-Makes o =
      Makes-then (configure_all outcome seen o) _ (map configure_chain (keys o.l2_chains)) _
        (configure_all-Makes o)
        (Makes-then (perform outcome (start_part message_indexer)) (start_relayer outcome seen o)
          (start_part message_indexer ∷ []) (relayer_deeds o.relayer)
          (perform-Makes (start_part message_indexer)) (start_relayer-Makes o o.relayer refl))

  -- Where every deed succeeds, a start does them in this order: the L1, the L2s, the proxies, the
  -- mining of the L1, the launch of the goroutines for the mining of the L2s; with interop the contracts of all L2s, the indexer and, if there is one, the relayer;
  -- and last the admin server.
  pub start_lem :
      (o : Orchestrator) (made : List Deed)
      → start outcome seen o made ≡ (ok tt, made ++ start_deeds o)
  unfolding start
  start_lem o made =
      Makes-then (perform outcome (start_part l1)) _ (start_part l1 ∷ []) _
        (perform-Makes (start_part l1))
        (Makes-then _ _ _ _ (perform_all-Makes (start_chains (keys o.l2_chains))) (
          Makes-then _ _ _ _ (perform_all-Makes (start_sims (keys o.l2_op_sims))) (
            Makes-then (kick_off_mining outcome seen o) _ _ _ (kick_off_mining-Makes o) (
              Makes-then _ _ _ _
                (Makes-if o.config.interop_enabled (start_interop outcome seen o) (interop_deeds o)
                  (start_interop-Makes o))
                (perform-Makes (start_part admin))))))
        made
