-- ===== src/Orchestrator/Lifecycle/Misconfigured.antt =====
-- What comes of a chain whose interop contracts cannot be configured.
use supersim.Prelude.{
  ℕ, ◌≤◌, ltb, ◌≡◌, ap, Bool, false, List, [], ◌∷◌, ◌++◌, map, String, panic, fails, length, arith,
  inl, inr, Bool-cases, External-cases,
}
use supersim.Orchestrator.Network.{Orchestrator}
use supersim.Orchestrator.Lifecycle.{
  Deed, configure_chain, Outcome, keys, failures, all_fit, configure_all,
}

all_fit-failures :
    (outcome : Outcome) (n id : ℕ) (e : String) (before after : List ℕ)
    → outcome (configure_chain id) ≡ fails e
    → n ≤ id
    → all_fit n (failures outcome (map configure_chain (before ++ id ∷ after))) ≡ false
unfolding failures
all_fit-failures outcome n id e [] after f h = ground arith
all_fit-failures outcome n id e (b ∷ before) after f h =
    let rest = all_fit-failures outcome n id e before after f h in
    elim (External-cases (outcome (configure_chain b))) [
      | inl (u, q) ↦ ground arith
      | inr (x, q) ↦ elim (Bool-cases (ltb b n)) [ inl t ↦ ground arith | inr t ↦ ground arith ]
    ]

-- A chain that fails to be configured, whose id is not below the number of L2s, makes the start of
-- the interop contracts panic: its error is put at its chain id, past the end of the slice.
pub configure_all-panic :
    (outcome : Outcome) (seen : Deed → Bool) (o : Orchestrator) (before after : List ℕ) (id : ℕ)
    (e : String) (made : List Deed)
    → keys o.l2_chains ≡ before ++ id ∷ after
    → outcome (configure_chain id) ≡ fails e
    → length (keys o.l2_chains) ≤ id
    → configure_all outcome seen o made ≡ (panic, made ++ map configure_chain (keys o.l2_chains))
unfolding configure_all
configure_all-panic outcome seen o before after id e made split f h = ground (
  arith,
  ap (λ ids. all_fit (length (keys o.l2_chains)) (failures outcome (map configure_chain ids)))
      split,
  all_fit-failures outcome (length (keys o.l2_chains)) id e before after f h,
)
