-- ===== src/Config/Registry.antt =====
-- config/superchain.go: the chains of a superchain by name. The registry is a package of its own,
-- so its two maps are an argument; a chain id that it does not hold is a nil pointer there.
use text.Mathlib.Text.{◌==◌ as str_eq}
use text.Mathlib.TextEquality.{eq_iff}
use supersim.Prelude.{
  ℕ, ◌≡◌, refl, Bool, true, false, if◌then◌else◌, List, [], ◌∷◌, map, Option, none, some, String,
  Result, ok, ◌>>=◌, or_panic, arith, All, inl, inr, Bool-cases,
}
use supersim.Prelude.Dict.{Dict, lookup}

-- `registry.ChainConfig`, the fields that the program reads.
pub record OpChain : Type 0 where
  pub chain : String
  pub chain_id : ℕ
  pub public_rpc : String
  pub genesis_l2_time : ℕ

-- `registry.Superchain`, likewise.
pub record Superchain : Type 0 where
  pub superchain : String
  pub l1_chain_id : ℕ
  pub l1_public_rpc : String
  pub chain_ids : List ℕ

-- `registry.Superchains` and `registry.OPChains`
pub record Registry : Type 0 where
  pub superchains : List (String × Superchain)
  pub op_chains : Dict OpChain

unfoldable pub find_network : String → List (String × Superchain) → Option Superchain
find_network name [] = none
find_network name ((n, s) ∷ rest) = if str_eq n name then some s else find_network name rest

unfoldable pub superchain_networks : Registry → List String
superchain_networks reg = map (λ (e : String × Superchain). e.0) reg.superchains

module _ (reg : Registry) {E : Type 0} where
  -- The three loops over `superchain.ChainIDs`.
  unfoldable pub find_chain : String → List ℕ → Result E (Option OpChain)
  find_chain name [] = ok none
  find_chain name (id ∷ ids) =
      let rest = find_chain name ids in
      or_panic (lookup id reg.op_chains) >>= λ c. if str_eq c.chain name then ok (some c) else rest

  unfoldable pub member_names : List ℕ → Result E (List String)
  member_names [] = ok []
  member_names (id ∷ ids) = do
    c ← or_panic (lookup id reg.op_chains)
    names ← member_names ids
    ok (c.chain ∷ names)

  unfoldable pub has_chain : String → List ℕ → Result E Bool
  has_chain name [] = ok false
  has_chain name (id ∷ ids) =
      let rest = has_chain name ids in
      or_panic (lookup id reg.op_chains) >>= λ c. if str_eq c.chain name then ok true else rest

  unfoldable pub op_chain_by_name : Superchain → String → Result E (Option OpChain)
  unfolding find_chain
  op_chain_by_name s name = find_chain name s.chain_ids

  unfoldable pub superchain_member_chains : Superchain → Result E (List String)
  unfolding member_names
  superchain_member_chains s = member_names s.chain_ids

  unfoldable pub is_in_superchain : String → Superchain → Result E Bool
  unfolding has_chain
  is_in_superchain name s = has_chain name s.chain_ids

-- The registry has an entry for each chain id of a superchain.
abbrev pub IsComplete : Registry → Superchain → Type 0
IsComplete reg s = All (λ id. (c : OpChain) × (lookup id reg.op_chains ≡ some c)) s.chain_ids

-- What `OPChainByName` answers for a chain that is in the superchain, and for one that is not.
abbrev pub Names : String → Bool → Option OpChain → Type 0
Names name true none = ⊥
Names name true (some c) = c.chain ≡ name
Names name false none = Unit
Names name false (some c) = ⊥

has_chain-find_chain :
    (reg : Registry) (E F : Type 0) (name : String) (ids : List ℕ)
    → All (λ id. (c : OpChain) × (lookup id reg.op_chains ≡ some c)) ids
    → (b : Bool) × (o : Option OpChain) × (has_chain reg {E = E} name ids ≡ ok b)
      × (find_chain reg {E = F} name ids ≡ ok o)
      × Names name b o
unfolding has_chain find_chain
has_chain-find_chain reg E F name [] h = (false, none, refl, refl, tt)
has_chain-find_chain reg E F name (id ∷ ids) ((c, found), h) =
    let (b, o, p, q, n) = has_chain-find_chain reg E F name ids h in
    elim (Bool-cases (str_eq c.chain name)) [
      | inl t ↦ (true, some c, ground arith, ground arith, (eq_iff c.chain name).0 t)
      | inr f ↦ (b, o, ground arith, ground arith, n)
    ]

-- With a complete registry neither loop dereferences nil, and they agree: `isInSuperchain` is true
-- exactly where `OPChainByName` finds a chain, and that chain has the name asked for.
pub is_in_superchain-op_chain_by_name :
    (reg : Registry) (E F : Type 0) (s : Superchain) (name : String)
    → IsComplete reg s
    → (b : Bool) × (o : Option OpChain) × (is_in_superchain reg {E = E} name s ≡ ok b)
      × (op_chain_by_name reg {E = F} s name ≡ ok o)
      × Names name b o
unfolding is_in_superchain op_chain_by_name
is_in_superchain-op_chain_by_name reg E F s name h = has_chain-find_chain reg E F name s.chain_ids h
