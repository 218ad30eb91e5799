-- ===== src/OpSimulator/Json/Batch.antt =====
-- When a request counts as a batch.
use supersim.Prelude.{
  ◌≡◌, true, [], ◌∷◌, ◌++◌, All, arith, ◌↔◌, refl, ap, ◌∙◌, inl, inr, Bool-cases,
}
use supersim.OpSimulator.Json.{Raw, is_space, is_json_rpc_batch}

abbrev pub IsBlank : Raw → Type 0
IsBlank = All λ c. is_space c ≡ true

skip : (blank rest : Raw) → IsBlank blank → is_json_rpc_batch (blank ++ b'[' ∷ rest) ≡ true
unfolding is_json_rpc_batch
skip [] rest h = refl
skip (c ∷ blank) rest h = ground (arith, skip blank rest h.1)

find :
    (raw : Raw)
    → is_json_rpc_batch raw ≡ true
    → (blank rest : Raw) × IsBlank blank × (raw ≡ blank ++ b'[' ∷ rest)
unfolding is_json_rpc_batch
find [] h = absurd (ground arith)
find (c ∷ raw) h = elim (Bool-cases (is_space c)) [
  | inl s ↦
      let (blank, rest, b, e) = find raw (ground arith) in (c ∷ blank, rest, (s, b), ap (◌∷◌ c) e)
  | inr s ↦ ([], raw, tt, ground arith)
]

-- A request is a batch exactly where it is white space, then `[`, then anything.
pub is_json_rpc_batch_iff :
    (raw : Raw)
    → (is_json_rpc_batch raw ≡ true)
      ↔ ((blank rest : Raw) × IsBlank blank × (raw ≡ blank ++ b'[' ∷ rest))
is_json_rpc_batch_iff raw = (find raw, λ p. ap is_json_rpc_batch p.3 ∙ skip p.0 p.1 p.2)
