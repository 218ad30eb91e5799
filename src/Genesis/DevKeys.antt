-- ===== src/Genesis/DevKeys.antt =====
-- genesis/worldgen/devkeys.go: the keys of the program's own operators. A chain id is a number that
-- is not negative.
use mathlib.Core.List.{append_cancel_left}
use supersim.Prelude.{ℕ, ◌==◌, ◌≡◌, refl, sym, ap, ◌∙◌, List, [], ◌∷◌, ◌++◌, if◌then◌else◌}
use supersim.Prelude.Text.{Text, codes, decimal, decimal_inj}
use supersim.Prelude.Text.Parse.{split, split-append, split-free, decimal-IsFree}

-- `SupersimDevOperatorRole`, and `SupersimDevOperatorKey`.
abbrev pub Role : Type 0
Role = ℕ

pub record DevOperatorKey : Type 0 where
  pub chain_id : ℕ
  pub role : Role

abbrev pub periphery_contracts_deployer : Role
periphery_contracts_deployer = 0

abbrev pub auto_relayer_sender : Role
auto_relayer_sender = 1

-- `SupersimDevOperatorRole.String`
unfoldable pub role_string : Role → Text
role_string role =
    if role == periphery_contracts_deployer
    then codes "periphery-contracts-deployer"
    else if role == auto_relayer_sender
    then codes "auto-relayer-sender"
    else codes "unknown-operator-" ++ decimal role

unfoldable pub hd_path : DevOperatorKey → Text
hd_path k = codes "m/44'/60'/3'/" ++ (decimal k.chain_id ++ b'/' ∷ decimal k.role)

-- `SupersimDevOperatorKey.String`
unfoldable pub key_string : DevOperatorKey → Text
unfolding role_string
key_string k = codes "chain(" ++ (decimal k.chain_id ++ (codes ")-" ++ role_string k.role))

abbrev the_key : ℕ → Role → DevOperatorKey
the_key chain_id role = record { chain_id = chain_id; role = role }

split-path :
    (k : DevOperatorKey)
    → split b'/' (decimal k.chain_id ++ b'/' ∷ decimal k.role)
      ≡ (decimal k.chain_id, decimal k.role ∷ [])
split-path k =
    split-append b'/' (decimal k.chain_id) (decimal k.role) (decimal-IsFree b'/' k.chain_id refl)
    ∙ ap (λ (f : Text × List Text). (decimal k.chain_id, f.0 ∷ f.1))
        (split-free b'/' (decimal k.role) (decimal-IsFree b'/' k.role refl))

-- Keys of one derivation path are one: no two operators share an account.
pub hd_path_inj : (k l : DevOperatorKey) → hd_path k ≡ hd_path l → k ≡ l
unfolding hd_path
hd_path_inj k l e =
    let tails = append_cancel_left (codes "m/44'/60'/3'/") _ _ e in
    let fields = sym (split-path k) ∙ ap (split b'/') tails ∙ split-path l in
    let chains : decimal k.chain_id ≡ decimal l.chain_id = cc in
    let roles : decimal k.role ≡ decimal l.role = cc in
    let same_chain = decimal_inj k.chain_id l.chain_id chains in
    let same_role = decimal_inj k.role l.role roles in
    ap (λ (c : ℕ). the_key c k.role) same_chain ∙ ap (λ (r : ℕ). the_key l.chain_id r) same_role
