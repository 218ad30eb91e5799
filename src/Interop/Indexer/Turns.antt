-- ===== src/Interop/Indexer/Turns.antt =====
-- interop/indexer.go: the goroutines of all the chains, and where each waits. The event bus calls the
-- handlers of a key within `Publish`, and createSubscription's handler is a send on a channel with
-- no buffer: a goroutine that publishes to a channel that no one receives from waits there.
use mathlib.Core.Path.{subst}
use supersim.Prelude.{
  ℕ, zero, suc, ◌+◌, ◌==◌, ltb, if◌then◌else◌, ◌≡◌, refl, ap, ◌∙◌, Bool, true, false, List, [], ◌∷◌,
  Option, none, some, ok, err, panic, length, All, arith, inl, inr, Bool-cases, Result-cases,
}
use supersim.Prelude.Tasks.{Loop, running, crashed}
use supersim.Interop.Types.{Log, Error, Ethlib}
use supersim.Interop.Indexer.{Indexer, ChainReader, process_event_log}
use supersim.Interop.Indexer.Steps.{view}
use supersim.Interop.Indexer.History.{
  HasTopics, play_all, process_event_log-view, process_event_log-ne-panic,
}

-- A log comes to the goroutine of its chain; `stuck_at` is the first `Publish` made for it, counted
-- from 0, that does not return, if there is one.
pub record Turn : Type 0 where
  pub chain_id : ℕ
  pub log : Log
  pub stuck_at : Option ℕ

-- `waiting` are the chains whose goroutines are in a `Publish` that does not return.
pub record Goroutines : Type 0 where
  pub indexer : Indexer
  pub waiting : List ℕ

abbrev pub take : {A : Type 0} → ℕ → List A → List A
take zero xs = []
take (suc n) [] = []
take (suc n) (x ∷ xs) = x ∷ take n xs

abbrev pub waits : ℕ → List ℕ → Bool
waits c [] = false
waits c (w ∷ ws) = let rest = waits c ws in if c == w then true else rest

-- `before` entries had been published, and `i` is what a log then comes to if every `Publish`
-- returns: the one that does not is the last that is made.
abbrev pub settle : ℕ → ℕ → Option ℕ → List ℕ → Indexer → Goroutines
settle chain_id before none waiting i = record { indexer = i; waiting = waiting }
settle chain_id before (some n) waiting i =
    if ltb (before + n) (length i.published)
    then (record {
      indexer = record i { published = take (suc (before + n)) i.published };
      waiting = chain_id ∷ waiting;
    })
    else record { indexer = i; waiting = waiting }

module _ (lib : Ethlib) (backends : ℕ → ChainReader) where
  -- A failed log is printed and left; a goroutine that waits takes no log.
  unfoldable pub take_turn : Turn → Goroutines → Loop Goroutines Error
  take_turn t g =
      let (r, i) = process_event_log lib (backends t.chain_id) t.chain_id t.log g.indexer in
      let next : Goroutines =
        settle t.chain_id (length g.indexer.published) t.stuck_at g.waiting i in
      if waits t.chain_id g.waiting then running g else elim r [
        | ok u ↦ running next
        | err e ↦ running next
        | panic ↦ crashed (record g { indexer = i })
      ]

  unfoldable pub run_turns : List Turn → Goroutines → Loop Goroutines Error
  unfolding take_turn
  run_turns [] g = running g
  run_turns (t ∷ ts) g = elim (take_turn t g) [
    | running g' ↦ run_turns ts g'
    | Loop.returned e g' ↦ Loop.returned e g'
    | crashed g' ↦ crashed g'
  ]

-- Which logs the goroutines take of those that come, where some chains wait at the start and some at
-- the end: a goroutine takes each log until it waits, and then no more.
pub data Taken : List Turn → List ℕ → List (ℕ × Log) → List ℕ → Type 0 where
  all_done : {w : List ℕ} → Taken [] w [] w
  skipped :
      {t : Turn} {ts : List Turn} {w w' : List ℕ} {logs : List (ℕ × Log)}
      → waits t.chain_id w ≡ true
      → Taken ts w logs w'
      → Taken (t ∷ ts) w logs w'
  taken :
      {t : Turn} {ts : List Turn} {w w' : List ℕ} {logs : List (ℕ × Log)}
      → waits t.chain_id w ≡ false
      → Taken ts w logs w'
      → Taken (t ∷ ts) w ((t.chain_id, t.log) ∷ logs) w'
  stuck :
      {t : Turn} {ts : List Turn} {w w' : List ℕ} {logs : List (ℕ × Log)}
      → waits t.chain_id w ≡ false
      → (n : ℕ) → t.stuck_at ≡ some n
      → Taken ts (t.chain_id ∷ w) logs w'
      → Taken (t ∷ ts) w ((t.chain_id, t.log) ∷ logs) w'

-- A `Publish` that does not return leaves the store as it is.
settle-store :
    (c before : ℕ) (o : Option ℕ) (w : List ℕ) (i : Indexer)
    → (settle c before o w i).indexer.store ≡ i.store
settle-store c before none w i = refl
settle-store c before (some n) w i = ground arith

settle-Taken :
    (t : Turn) (ts : List Turn) (w w' : List ℕ) (logs : List (ℕ × Log)) (before : ℕ) (i : Indexer)
    (o : Option ℕ)
    → t.stuck_at ≡ o
    → waits t.chain_id w ≡ false
    → Taken ts (settle t.chain_id before o w i).waiting logs w'
    → Taken (t ∷ ts) w ((t.chain_id, t.log) ∷ logs) w'
settle-Taken t ts w w' logs before i none e free h = taken free h
settle-Taken t ts w w' logs before i (some n) e free h =
    elim (Bool-cases (ltb (before + n) (length i.published))) [
      | inl q ↦
          let waits_here : (settle t.chain_id before (some n) w i).waiting ≡ t.chain_id ∷ w =
            ground (arith, q) in
          stuck free n e (subst (λ (v : List ℕ). Taken ts v logs w') waits_here h)
      | inr q ↦
          let goes_on : (settle t.chain_id before (some n) w i).waiting ≡ w = ground (arith, q) in
          taken free (subst (λ (v : List ℕ). Taken ts v logs w') goes_on h)
    ]

module _ (lib : Ethlib) (backends : ℕ → ChainReader) where
  abbrev after : Turn → Goroutines → Indexer
  after t g = (process_event_log lib (backends t.chain_id) t.chain_id t.log g.indexer).1

  abbrev next : Turn → Goroutines → Goroutines
  next t g = settle t.chain_id (length g.indexer.published) t.stuck_at g.waiting (after t g)

  take_turn-waits :
      (t : Turn) (g : Goroutines)
      → waits t.chain_id g.waiting ≡ true
      → take_turn lib backends t g ≡ running g
  unfolding take_turn
  take_turn-waits t g w = ground (arith, w)

  take_turn-free :
      (t : Turn) (g : Goroutines)
      → HasTopics t.log
      → waits t.chain_id g.waiting ≡ false
      → take_turn lib backends t g ≡ running (next t g)
  unfolding take_turn
  take_turn-free t g h w =
      let r = (process_event_log lib (backends t.chain_id) t.chain_id t.log g.indexer).0 in
      elim (Result-cases r) [
        | inl (u, q) ↦ rw (w, q) refl
        | inr (inl (e, q)) ↦ rw (w, q) refl
        | inr (inr q) ↦
            absurd
              (process_event_log-ne-panic lib (backends t.chain_id) t.chain_id t.log g.indexer h q)
      ]

  pub run_turns-refines :
      (turns : List Turn) (g : Goroutines)
      → All (λ (t : Turn). HasTopics t.log) turns
      → (g' : Goroutines) × (logs : List (ℕ × Log)) × (run_turns lib backends turns g ≡ running g')
        × Taken turns g.waiting logs g'.waiting
        × ((k : ℕ)
            → view k g'.indexer.store ≡ play_all lib backends k logs (view k g.indexer.store))
  unfolding run_turns play_all
  run_turns-refines [] g h = (g, [], refl, all_done, λ k. refl)
  run_turns-refines (t ∷ ts) g h = elim (Bool-cases (waits t.chain_id g.waiting)) [
    | inl w ↦
        let (g', logs, ran, takes, same) = run_turns-refines ts g h.1 in
        (g', logs, rw (take_turn-waits t g w, run_turns) ran, skipped w takes, same)
    | inr w ↦
        let (g', logs, ran, takes, same) = run_turns-refines ts (next t g) h.1 in
        (
          g',
          (t.chain_id, t.log) ∷ logs,
          rw (take_turn-free t g h.0 w, run_turns) ran,
          settle-Taken t ts g.waiting g'.waiting logs (length g.indexer.published) (after t g)
              t.stuck_at refl w takes,
          λ k.
              same k
              ∙ ap (play_all lib backends k logs) (
                  ap (view k) (
                    settle-store t.chain_id (length g.indexer.published) t.stuck_at g.waiting
                      (after t g))
                  ∙ process_event_log-view lib (backends t.chain_id) t.chain_id k t.log g.indexer
                      h.0),
        )
  ]
