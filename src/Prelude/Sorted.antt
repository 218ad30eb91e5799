-- ===== src/Prelude/Sorted.antt =====
-- Sorting by a comparison: a list that is in order, and whose items the comparison all tells apart,
-- is the only way to sort them.
use mathlib.Core.Bool.{Bool-set}
use mathlib.Core.Logic.Or
use mathlib.Core.List.{Mem, Perm, not-mem-nil, mem-cons, mem-cons_self}
use mathlib.Core.List.Perm
use mathlib.Core.Path.{◌≡◌, sym, ap, ◌∙◌}
use mathlib.Core.Bool.{Bool, true, false}
use mathlib.Core.List.{List, [], ◌∷◌}
use supersim.Prelude.Lists.{All}

module _ {A : Type 0} where
  pub All-mem :
      (P : A → Type 0)
      → ((x : A) → IsProp (P x))
      → (xs : List A) (a : A) → All P xs
      → Mem a xs
      → P a
  All-mem P prop [] a h m = absurd (not-mem-nil m)
  All-mem P prop (x ∷ xs) a h m =
      Or.elim (prop a) (mem-cons.0 m) (λ e. rw e h.0) (All-mem P prop xs a h.1)

module _ {A : Type 0} (less : A → A → Bool) where
  -- No item is less than one before it: what a sort ends with.
  abbrev pub IsSorted : List A → Type 0
  IsSorted [] = Unit
  IsSorted (x ∷ xs) = All (λ y. less y x ≡ false) xs × IsSorted xs

  -- Each item is less than all after it.
  abbrev pub IsAscending : List A → Type 0
  IsAscending [] = Unit
  IsAscending (x ∷ xs) = All (λ y. less x y ≡ true) xs × IsAscending xs

  module _ (set : IsSet A) where
    heads_eq :
        (a b : A) (l r : List A)
        → IsSorted (a ∷ l)
        → IsAscending (b ∷ r)
        → Perm (a ∷ l) (b ∷ r)
        → a ≡ b
    heads_eq a b l r s t p =
        Or.elim (set a b) (mem-cons.0 ((Perm.mem_iff p).0 mem-cons_self)) (λ e. e)
          λ m.
            let first : less b a ≡ true =
              All-mem (λ y. less b y ≡ true) (λ y. Bool-set _ _) r a t.0 m in
            Or.elim (set a b) (mem-cons.0 ((Perm.mem_iff p).1 mem-cons_self)) (λ e. sym e)
              λ n.
                let last : less b a ≡ false =
                  All-mem (λ y. less y a ≡ false) (λ y. Bool-set _ _) l b s.0 n in
                absurd (cc)

    pub IsSorted-eq_of_perm : (xs ys : List A) → IsSorted xs → IsAscending ys → Perm xs ys → xs ≡ ys
    IsSorted-eq_of_perm [] ys s t p = sym (Perm.eq-nil (Perm.symm p))
    IsSorted-eq_of_perm (a ∷ l) [] s t p = Perm.eq-nil p
    IsSorted-eq_of_perm (a ∷ l) (b ∷ r) s t p =
        let heads = heads_eq a b l r s t p in
        let tails : Perm l r =
          Perm.cons_inv (Perm.trans p (Perm.symm (Perm.cons' heads Perm.rfl))) in
        ap (◌∷◌ a) (IsSorted-eq_of_perm l r s.1 t.1 tails) ∙ ap (λ c. c ∷ r) heads
