-- ===== src/Interop/Store/Life.antt =====
-- The life of one message: the first relay ends it, and what failed before is kept in order.
use mathlib.Core.List.{append-nil, append_assoc}
use supersim.Prelude.{
  ℕ, ◌<◌, ◌≡◌, ◌≢◌, refl, ◌∙◌, List, [], ◌∷◌, ◌++◌, Result, ok, err, panic, arith, ◌⊎◌, inl, inr,
  length, length-append,
}
use supersim.Interop.Types.{Error}
use supersim.Interop.Store.{
  MessageState, sent, relayed, failed_relay, Lifecycle, status, relayed_updater, failed_updater,
}

-- What can be reported of a message after it was sent: a relay or a failed relay, by a transaction.
pub data Report : Type 0 where
  relay fail : ℕ → Report

abbrev pub tx_of : Report → ℕ
tx_of (relay t) = t
tx_of (fail t) = t

abbrev pub updater_of : Report → Lifecycle → Result Error Lifecycle
updater_of (relay t) = relayed_updater t
updater_of (fail t) = failed_updater t

-- A refused update leaves the lifecycle as it was.
abbrev pub keep_or : Lifecycle → Result Error Lifecycle → Lifecycle
keep_or l (ok l') = l'
keep_or l (err e) = l
keep_or l panic = l

unfoldable pub live : Lifecycle → List Report → Lifecycle
live l [] = l
live l (r ∷ rs) = live (keep_or l (updater_of r l)) rs

-- The steps that the status may take.
pub data Transition : MessageState → MessageState → Type 0 where
  first_failure : Transition sent failed_relay
  next_failure : Transition failed_relay failed_relay
  relay_sent : Transition sent relayed
  relay_failed : Transition failed_relay relayed

status-unrelayed :
    (l : Lifecycle) → l.relayed_tx_hash ≡ 0 → (status l ≡ sent) ⊎ (status l ≡ failed_relay)
unfolding status
status-unrelayed l e = ground arith

abbrev target_of : Report → MessageState
target_of (relay t) = relayed
target_of (fail t) = failed_relay

length-snoc-pos : (fs : List ℕ) (t : ℕ) → 0 < length (fs ++ t ∷ [])
length-snoc-pos fs t = omega (arith, length-append fs (t ∷ []))

accepted :
    (r : Report) (l l' : Lifecycle)
    → tx_of r ≢ 0
    → updater_of r l ≡ ok l'
    → (l.relayed_tx_hash ≡ 0) × (status l' ≡ target_of r)
unfolding status relayed_updater failed_updater
accepted (relay t) l l' ne e = ground arith
accepted (fail t) l l' ne e = ground (arith, length-snoc-pos l.failed_tx_hashes t)

Transition-to :
    (r : Report) (s : MessageState) → (s ≡ sent) ⊎ (s ≡ failed_relay) → Transition s (target_of r)
Transition-to (relay t) s (inl e) = rw e relay_sent
Transition-to (relay t) s (inr e) = rw e relay_failed
Transition-to (fail t) s (inl e) = rw e first_failure
Transition-to (fail t) s (inr e) = rw e next_failure

-- A report by a transaction whose hash is not zero, where an updater accepts it, takes the status
-- along a transition: a first or a further failure, or the relay of a message not relayed before.
pub updater_of-Transition :
    (r : Report) (l l' : Lifecycle)
    → tx_of r ≢ 0
    → updater_of r l ≡ ok l'
    → Transition (status l) (status l')
updater_of-Transition r l l' ne e =
    let (unrelayed, reached) = accepted r l l' ne e in
    rw reached (Transition-to r (status l) (status-unrelayed l unrelayed))

-- The description of a life that begins unrelayed: the failures reported before the first relay,
-- and the first relay.
abbrev pub failures_before_relay : List Report → List ℕ
failures_before_relay [] = []
failures_before_relay (relay t ∷ rs) = []
failures_before_relay (fail t ∷ rs) = t ∷ failures_before_relay rs

abbrev pub first_relay : List Report → ℕ
first_relay [] = 0
first_relay (relay t ∷ rs) = t
first_relay (fail t ∷ rs) = first_relay rs

live_relayed : (l : Lifecycle) (rs : List Report) → l.relayed_tx_hash ≢ 0 → live l rs ≡ l
unfolding live relayed_updater failed_updater
live_relayed l [] h = refl
live_relayed l (relay t ∷ rs) h = ground (arith, live_relayed l rs h)
live_relayed l (fail t ∷ rs) h = ground (arith, live_relayed l rs h)

abbrev pub IsTx : List Report → Type 0
IsTx [] = Unit
IsTx (r ∷ rs) = (tx_of r ≢ 0) × IsTx rs

-- From a message just sent, reports by transactions whose hashes are not zero leave exactly the
-- failures before the first relay, in their order, and that first relay: later ones change nothing.
pub live-unrelayed :
    (s : ℕ) (fs : List ℕ) (rs : List Report)
    → IsTx rs
    → live (record { sent_tx_hash = s; failed_tx_hashes = fs; relayed_tx_hash = 0 }) rs ≡ record {
      sent_tx_hash = s;
      failed_tx_hashes = fs ++ failures_before_relay rs;
      relayed_tx_hash = first_relay rs;
    }
unfolding live relayed_updater failed_updater
live-unrelayed s fs [] h = rw (append-nil fs)
live-unrelayed s fs (relay t ∷ rs) h = rw append-nil (live_relayed _ rs h.0)
live-unrelayed s fs (fail t ∷ rs) h = live-unrelayed s (fs ++ t ∷ []) rs h.1 ∙ rw append_assoc
