-- ===== src/Prelude/Calls/Follows.antt =====
-- Actions that make the calls of a plan, in its order, up to where they fail.
use mathlib.Core.Path.{◌≡◌, refl, sym, ap, ◌∙◌}
use mathlib.Core.Logic.{◌≢◌, ◌⊎◌, inl, inr}
use mathlib.Core.Bool.{Bool, true, false}
use mathlib.Core.List.{List, [], ◌++◌, append-nil, append_assoc}
use native.Mathlib.Omega.{arith}
use supersim.Prelude.Tests.{if◌then◌else◌}
use supersim.Prelude.Results.{Result, ok, err, panic}
use supersim.Prelude.State.{Action, lift, ◌>>◌}

module _ {C E : Type 0} where
  -- It succeeds, after all calls of the plan; or it does not, after the first few of them.
  abbrev pub Follows : Action (List C) E (Unit {0}) → List C → Type 0
  Follows m plan =
      (made : List C)
      → (m made ≡ (ok tt, made ++ plan))
        ⊎ (((m made).0 ≢ ok tt)
            × ((done : List C) × (rest : List C) × (plan ≡ done ++ rest)
                × ((m made).1 ≡ made ++ done)))

  pub Follows-nothing : Follows (lift (ok tt)) []
  Follows-nothing made = inl (ground (arith, append-nil made))

  pub Follows-then :
      (m k : Action (List C) E (Unit {0})) (cs ds : List C)
      → Follows m cs
      → Follows k ds
      → Follows (m >> k) (cs ++ ds)
  Follows-then m k cs ds first next made = elim (first made) [
    | inr (failed, (done, rest, split, does)) ↦ inr (
      later (m made) failed,
      (
        done,
        rest ++ ds,
        ap (λ l. l ++ ds) split ∙ append_assoc done rest ds,
        kept (m made) failed ∙ does,
      ),
    )
    | inl q ↦ elim (next (made ++ cs)) [
      | inl p ↦ inl (ground (arith, q, p, append_assoc made cs ds))
      | inr (failed, (done, rest, split, does)) ↦ inr (
        λ h. failed (ground (arith, q)),
        (
          cs ++ done,
          rest,
          ap (λ l. cs ++ l) split ∙ sym (append_assoc cs done rest),
          ground (arith, q, does, append_assoc made cs done),
        ),
      )
    ]
  ]
    where
      after : Result E (Unit {0}) × List C → Result E (Unit {0}) × List C
      after (r, s') = elim r [ ok a ↦ k s' | err e ↦ (err e, s') | panic ↦ (panic, s') ]

      later : (x : Result E (Unit {0}) × List C) → x.0 ≢ ok tt → (after x).0 ≢ ok tt
      later (ok u, s) h = absurd (h refl)
      later (err e, s) h = λ q. cc
      later (panic, s) h = λ q. cc

      kept : (x : Result E (Unit {0}) × List C) → x.0 ≢ ok tt → (after x).1 ≡ x.1
      kept (ok u, s) h = absurd (h refl)
      kept (err e, s) h = refl
      kept (panic, s) h = refl

  pub Follows-if :
      (b : Bool) (m : Action (List C) E (Unit {0})) (cs : List C)
      → Follows m cs
      → Follows (if b then m else lift (ok tt)) (if b then cs else [])
  Follows-if true m cs h = h
  Follows-if false m cs h = Follows-nothing

  -- All calls of a plan are made at once, and then it is seen what became of them.
  pub Follows-at_once :
      (r : Result E (Unit {0})) (plan : List C) → Follows (λ made. (r, made ++ plan)) plan
  Follows-at_once (ok u) plan made = inl refl
  Follows-at_once (err e) plan made = inr (λ q. cc, (plan, [], sym (append-nil plan), refl))
  Follows-at_once panic plan made = inr (λ q. cc, (plan, [], sym (append-nil plan), refl))
