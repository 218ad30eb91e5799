-- ===== src/Admin/Chains.antt =====
-- Which chain's addresses the admin server answers with.
use supersim.Prelude.{
  ℕ, ◌==◌, ==_iff, ◌≡◌, ◌≢◌, refl, ap, List, [], ◌∷◌, ◌++◌, All, Option, none, some, arith, map,
  String, ok, err, inl, inr, Bool-cases, ◌⊎◌,
}
use mathlib.Core.Path.{subst}
use supersim.Config.Types.{ChainConfig, L2Config, NetworkConfig}
use supersim.Admin.{filter_by_chain_id, get_l1_addresses, address_names, chain_not_found}

abbrev pub IsOther : ℕ → ChainConfig → Type 0
IsOther id c = c.chain_id ≢ id

-- The first chain of the list with the id asked for is found, if there is one.
pub filter_by_chain_id_lem :
    (chains : List ChainConfig) (id : ℕ)
    → ((before after : List ChainConfig) × (c : ChainConfig) × (chains ≡ before ++ c ∷ after)
        × All (IsOther id) before
        × (c.chain_id ≡ id)
        × (filter_by_chain_id chains id ≡ some c))
      ⊎ (All (IsOther id) chains × (filter_by_chain_id chains id ≡ none))
unfolding filter_by_chain_id
filter_by_chain_id_lem [] id = inr (tt, refl)
filter_by_chain_id_lem (c ∷ cs) id = elim (Bool-cases (c.chain_id == id)) [
  | inl t ↦ inl ([], cs, c, refl, tt, (==_iff c.chain_id id).0 t, ground arith)
  | inr f ↦ elim (filter_by_chain_id_lem cs id) [
    | inl (before, after, d, split, others, same, found) ↦
        inl
          (c ∷ before, after, d, ap (◌∷◌ c) split, (λ e. ground arith, others), same, ground arith)
    | inr (others, missing) ↦ inr ((λ e. ground arith, others), ground arith)
  ]
]

-- A chain has an L2 configuration whose addresses are not nil.
abbrev pub HasAddresses : (ℕ → Option (String → String)) → ChainConfig → Type 0
HasAddresses addresses c =
    (l2 : L2Config) × (address_of : String → String) × (c.l2_config ≡ some l2)
    × (addresses l2.l1_addresses ≡ some address_of)

has_of_first :
    (addresses : ℕ → Option (String → String)) (before after chains : List ChainConfig)
    (c : ChainConfig)
    → chains ≡ before ++ c ∷ after
    → All (HasAddresses addresses) chains
    → HasAddresses addresses c
has_of_first addresses before after chains c e h =
    last before (subst (All (HasAddresses addresses)) e h)
  where
    last :
        (before : List ChainConfig)
        → All (HasAddresses addresses) (before ++ c ∷ after)
        → HasAddresses addresses c
    last [] h = h.0
    last (b ∷ before) h = last before h.1

-- Where every L2 has its addresses, a request for a chain id is answered with the addresses of the
-- first L2 of that id, under the ten names; or no L2 has the id, and the error says so.
pub get_l1_addresses_lem :
    (addresses : ℕ → Option (String → String)) (n : NetworkConfig) (id : ℕ)
    → All (HasAddresses addresses) n.l2_configs
    → ((before after : List ChainConfig) × (c : ChainConfig) × (l2 : L2Config)
        × (address_of : String → String) × (n.l2_configs ≡ before ++ c ∷ after)
        × All (IsOther id) before
        × (c.chain_id ≡ id)
        × (c.l2_config ≡ some l2)
        × (addresses l2.l1_addresses ≡ some address_of)
        × (get_l1_addresses addresses n (some id)
            ≡ ok (map (λ (name : String). (name, address_of name)) address_names)))
      ⊎ (All (IsOther id) n.l2_configs
          × (get_l1_addresses addresses n (some id) ≡ err chain_not_found))
unfolding get_l1_addresses
get_l1_addresses_lem addresses n id h = elim (filter_by_chain_id_lem n.l2_configs id) [
  | inr (others, missing) ↦ inr (others, ground arith)
  | inl (before, after, c, split, others, same, found) ↦
      let (l2, address_of, e, a) = has_of_first addresses before after n.l2_configs c split h in
      inl (before, after, c, l2, address_of, split, others, same, e, a, ground arith)
]
