-- ===== src/Orchestrator/Shutdown.antt =====
-- orchestrator/orchestrator.go, Stop: every part is stopped in turn, and the errors are joined. The
-- parts that `Stop` has called on are recorded; a map is walked in the order of its list.
mod Tests
use supersim.Prelude.{
  ℕ, if◌then◌else◌, ◌≡◌, ◌↔◌, refl, ap, ◌∙◌, List, [], ◌∷◌, ◌++◌, map, All, Option, none, some,
  String, External, returns, fails, arith, inl, inr, External-cases,
}
use supersim.Orchestrator.Network.{Orchestrator}
use supersim.Orchestrator.Lifecycle.{
  Part, l1, message_indexer, message_relayer, admin, l2_chain, op_sim, keys,
}

-- The relayer's `Stop` gives no error.
abbrev pub stop_part : (Part → External (Unit {0})) → Part → List (Part × String)
stop_part outcome message_relayer = []
stop_part outcome p = elim (outcome p) [ returns a ↦ [] | fails e ↦ (p, e) ∷ [] ]

-- The parts stopped, and the errors.
unfoldable pub stop_parts :
    (Part → External (Unit {0})) → List Part → List Part × List (Part × String)
stop_parts outcome [] = ([], [])
stop_parts outcome (p ∷ ps) =
    let (stopped, errors) = stop_parts outcome ps in (p ∷ stopped, stop_part outcome p ++ errors)

abbrev pub relayer_part : Orchestrator → List Part
relayer_part o = elim o.relayer [ none ↦ [] | some r ↦ message_relayer ∷ [] ]

abbrev pub interop_parts : Orchestrator → List Part
interop_parts o = if o.config.interop_enabled then relayer_part o ++ (message_indexer ∷ []) else []

abbrev pub parts : Orchestrator → List Part
parts o =
    interop_parts o
    ++ (map op_sim (keys o.l2_op_sims) ++ (map l2_chain (keys o.l2_chains) ++ (l1 ∷ admin ∷ [])))

unfoldable pub stop : (Part → External (Unit {0})) → Orchestrator → List Part × List (Part × String)
unfolding stop_parts
stop outcome o = stop_parts outcome (parts o)

-- A part whose stop gives no error.
abbrev pub Stops : (Part → External (Unit {0})) → Part → Type 0
Stops outcome p = stop_part outcome p ≡ []

stop_parts-all :
    (outcome : Part → External (Unit {0})) (ps : List Part) → (stop_parts outcome ps).0 ≡ ps
unfolding stop_parts
stop_parts-all outcome [] = refl
stop_parts-all outcome (p ∷ ps) = ap (◌∷◌ p) (stop_parts-all outcome ps)

append-nil_parts : (xs ys : List (Part × String)) → xs ++ ys ≡ [] → (xs ≡ []) × (ys ≡ [])
append-nil_parts [] ys e = (refl, e)
append-nil_parts (x ∷ xs) ys e = absurd (ground arith)

stop_parts-errors :
    (outcome : Part → External (Unit {0})) (ps : List Part)
    → ((stop_parts outcome ps).1 ≡ []) ↔ All (Stops outcome) ps
unfolding stop_parts
stop_parts-errors outcome [] = (λ e. tt, λ h. refl)
stop_parts-errors outcome (p ∷ ps) =
    let rest = stop_parts-errors outcome ps in
    (
      λ e.
          let (first, others) =
            append-nil_parts (stop_part outcome p) (stop_parts outcome ps).1 e in
          (first, rest.0 others),
      λ h. ap (λ xs. xs ++ (stop_parts outcome ps).1) h.0 ∙ rest.1 h.1,
    )

-- Whatever fails, every part is stopped: with interop the relayer, if there is one, and the
-- indexer, then the proxies, the L2s, the L1 and the admin server; and there is no error exactly
-- where none of them gave one.
pub stop_lem :
    (outcome : Part → External (Unit {0})) (o : Orchestrator)
    → ((stop outcome o).0 ≡ parts o) × (((stop outcome o).1 ≡ []) ↔ All (Stops outcome) (parts o))
unfolding stop
stop_lem outcome o = (stop_parts-all outcome (parts o), stop_parts-errors outcome (parts o))
