-- ===== src/Orchestrator/Lifecycle/Order.antt =====
-- What a start has done where it ends, whatever fails.
use supersim.Prelude.{
  ◌≡◌, ◌≢◌, ◌⊎◌, refl, Bool, List, [], ◌∷◌, ◌++◌, map, Option, none, some, ok, from_external,
}
use supersim.Prelude.Calls.Follows.{
  Follows, Follows-nothing, Follows-then, Follows-if, Follows-at_once,
}
use supersim.Interop.Relayer.{Relayer}
use supersim.Orchestrator.Network.{Orchestrator}
use supersim.Orchestrator.Lifecycle.{
  l1, message_indexer, message_relayer, admin, Deed, start_part, set_interval_mining,
  configure_chain, failed, Outcome, keys, perform, perform_all, kick_off_mining, configure_all,
  start_relayer, start_interop, start,
}
use supersim.Orchestrator.Lifecycle.Started.{
  start_chains, start_sims, launches, relayer_deeds, interop_deeds, start_deeds,
}

module _ (outcome : Outcome) (seen : Deed → Bool) where
  perform-Follows : (d : Deed) → Follows (perform outcome d) (d ∷ [])
  perform-Follows d = Follows-at_once (from_external (failed d) (outcome d)) (d ∷ [])

  perform_all-Follows : (ds : List Deed) → Follows (perform_all outcome ds) ds
  unfolding perform_all
  perform_all-Follows [] = Follows-nothing
  perform_all-Follows (d ∷ ds) =
      Follows-then (perform outcome d) (perform_all outcome ds) (d ∷ []) ds (perform-Follows d)
        (perform_all-Follows ds)

  kick_off_mining-Follows :
      (o : Orchestrator)
      → Follows
          (kick_off_mining outcome seen o)
          ((set_interval_mining l1 ∷ []) ++ launches (keys o.l2_op_sims))
  unfolding kick_off_mining
  kick_off_mining-Follows o =
      Follows-then (perform outcome (set_interval_mining l1)) _ (set_interval_mining l1 ∷ [])
        (launches (keys o.l2_op_sims)) (perform-Follows (set_interval_mining l1))
        (Follows-at_once _ (launches (keys o.l2_op_sims)))

  configure_all-Follows :
      (o : Orchestrator)
      → Follows (configure_all outcome seen o) (map configure_chain (keys o.l2_chains))
  unfolding configure_all
  configure_all-Follows o = Follows-at_once _ (map configure_chain (keys o.l2_chains))

  start_relayer-Follows :
      (o : Orchestrator) (r : Option Relayer)
      → r ≡ o.relayer
      → Follows (start_relayer outcome seen o) (relayer_deeds r)
  start_relayer-Follows o none e = rw (← e) Follows-nothing
  start_relayer-Follows o (some r) e = rw (← e) (perform-Follows (start_part message_relayer))

  start_interop-Follows :
      (o : Orchestrator) → Follows (start_interop outcome seen o) (interop_deeds o)
  start_interop-Follows o =
      Follows-then (configure_all outcome seen o) _ (map configure_chain (keys o.l2_chains)) _
        (configure_all-Follows o)
        (Follows-then (perform outcome (start_part message_indexer)) (start_relayer outcome seen o)
          (start_part message_indexer ∷ []) (relayer_deeds o.relayer)
          (perform-Follows (start_part message_indexer)) (start_relayer-Follows o o.relayer refl))

  start-Follows : (o : Orchestrator) → Follows (start outcome seen o) (start_deeds o)
  unfolding start
  start-Follows o =
      Follows-then (perform outcome (start_part l1)) _ (start_part l1 ∷ []) _
        (perform-Follows (start_part l1))
        (Follows-then _ _ _ _ (perform_all-Follows (start_chains (keys o.l2_chains))) (
          Follows-then _ _ _ _ (perform_all-Follows (start_sims (keys o.l2_op_sims))) (
            Follows-then (kick_off_mining outcome seen o) _ _ _ (kick_off_mining-Follows o) (
              Follows-then _ _ _ _
                (Follows-if o.config.interop_enabled (start_interop outcome seen o)
                  (interop_deeds o) (start_interop-Follows o))
                (perform-Follows (start_part admin))))))

  -- Whatever fails, a start that gives no error has done all it has to, in the order of the plan: the
  -- L1, the L2s, the proxies, the mining of the L1, the launch of a goroutine for the mining of each
  -- L2, whose call it does not wait for; with interop the contracts of all L2s, the indexer and, if
  -- there is one, the relayer; and last the admin server. Any other has done the first part of the
  -- plan, and nothing that comes after.
  pub start_order :
      (o : Orchestrator) (made : List Deed)
      → (start outcome seen o made ≡ (ok tt, made ++ start_deeds o))
        ⊎ (((start outcome seen o made).0 ≢ ok tt)
            × ((done : List Deed) × (rest : List Deed) × (start_deeds o ≡ done ++ rest)
                × ((start outcome seen o made).1 ≡ made ++ done)))
  start_order o made = start-Follows o made
