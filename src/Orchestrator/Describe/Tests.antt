-- ===== src/Orchestrator/Describe/Tests.antt =====
-- The printed configuration of two local chains, with a map that is walked backwards and a sort by
-- insertion.
use mathlib.Core.List.{Perm, reverse, reverse_perm}
use mathlib.Core.List.Perm
use supersim.Prelude.{
  ◌≡◌, refl, false, List, [], ◌∷◌, ◌++◌, All, some, ok, arith, if◌then◌else◌, Bool-cases, inl, inr,
  String,
}
use supersim.Prelude.Text.{Text, codes, decimal}
use supersim.Prelude.Sorted.{IsSorted}
use supersim.Config.TestData.{local_network}
use supersim.Orchestrator.Network.{OpSim, Orchestrator, new_orchestrator, assemble}
use supersim.Orchestrator.Describe.{
  Printed, sims_of, by_port, config_as_string, endpoint_of, heading,
}
use supersim.Orchestrator.Describe.Order.{Orders, HasAddresses, network_text, config_as_string_lem}

insert : OpSim → List OpSim → List OpSim
insert x [] = x ∷ []
insert x (y ∷ ys) = if by_port y x then y ∷ insert x ys else x ∷ y ∷ ys

sort : List OpSim → List OpSim
sort [] = []
sort (x ∷ xs) = insert x (sort xs)

insert-Perm : (x : OpSim) (xs : List OpSim) → Perm (insert x xs) (x ∷ xs)
unfolding insert
insert-Perm x [] = Perm.refl (x ∷ [])
insert-Perm x (y ∷ ys) = elim (Bool-cases (by_port y x)) [
  | inl t ↦ rw t (Perm.trans (Perm.cons y (insert-Perm x ys)) (Perm.swap x y ys))
  | inr f ↦ rw f (Perm.refl (x ∷ y ∷ ys))
]

sort-Perm : (xs : List OpSim) → Perm (sort xs) xs
unfolding sort
sort-Perm [] = Perm.refl []
sort-Perm (x ∷ xs) = Perm.trans (insert-Perm x (sort xs)) (Perm.cons x (sort-Perm xs))

-- No item of the list is less than the first.
abbrev IsLeast : OpSim → List OpSim → Type 0
IsLeast y xs = All (λ x. by_port x y ≡ false) xs

IsLeast-insert :
    (y x : OpSim) (xs : List OpSim) → by_port x y ≡ false → IsLeast y xs → IsLeast y (insert x xs)
unfolding insert
IsLeast-insert y x [] h l = (h, tt)
IsLeast-insert y x (z ∷ zs) h l = elim (Bool-cases (by_port z x)) [
  | inl t ↦ rw t (l.0, IsLeast-insert y x zs h l.1)
  | inr f ↦ rw f (h, l)
]

IsLeast-less : (x y : OpSim) (zs : List OpSim) → by_port y x ≡ false → IsLeast y zs → IsLeast x zs
IsLeast-less x y [] h l = tt
IsLeast-less x y (z ∷ zs) h l = (ground (arith, l.0), IsLeast-less x y zs h l.1)

insert-IsSorted :
    (x : OpSim) (xs : List OpSim) → IsSorted by_port xs → IsSorted by_port (insert x xs)
unfolding insert
insert-IsSorted x [] s = (tt, tt)
insert-IsSorted x (y ∷ ys) s = elim (Bool-cases (by_port y x)) [
  | inl t ↦ rw t (IsLeast-insert y x ys (ground (arith, t)) s.0, insert-IsSorted x ys s.1)
  | inr f ↦ rw f ((f, IsLeast-less x y ys f s.0), s)
]

sort-IsSorted : (xs : List OpSim) → IsSorted by_port (sort xs)
unfolding sort
sort-IsSorted [] = tt
sort-IsSorted (x ∷ xs) = insert-IsSorted x (sort xs) (sort-IsSorted xs)

abbrev addresses : String → Text
addresses name = codes "0x" ++ codes name

abbrev printed : Printed
printed = record {
  log_path = λ cfg. codes "/tmp/anvil.log";
  addresses = λ id. some addresses;
  walk = λ d. reverse (sims_of d);
  sort_slice = λ less. sort;
}

in_any_order : Orders printed
in_any_order = record {
  walks = λ d. reverse_perm (sims_of d);
  keeps = sort-Perm;
  sorts = sort-IsSorted;
}

abbrev have_addresses : All (HasAddresses printed) local_network.l2_configs
have_addresses = ((_, addresses, refl, refl), ((_, addresses, refl, refl), tt))

config_as_string_lem_example :
    (o : Orchestrator) × (new_orchestrator local_network 8_420 ≡ ok o)
    × (config_as_string printed o
        ≡ ok (
            heading o (printed.log_path local_network.l1_config)
            ++ network_text printed local_network.l2_starting_port 0 local_network.l2_configs
                have_addresses))
config_as_string_lem_example =
    config_as_string_lem printed local_network 8_420 in_any_order ((λ e. omega arith, tt), (tt, tt))
      (omega arith) (omega arith) have_addresses

-- The L1 by its own port.
l1_endpoint : endpoint_of (assemble local_network 8_420 [] []) 900 ≡ ok (codes "http://127.0.0.1:0")
unfolding endpoint_of decimal
l1_endpoint = refl
