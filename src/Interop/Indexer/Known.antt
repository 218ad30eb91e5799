-- ===== src/Interop/Indexer/Known.antt =====
-- What the store has under a hash after some logs: a message of that hash, where one was sent.
use mathlib.Core.Path.{subst}
use supersim.Prelude.{
  ℕ, ◌==◌, ◌≡◌, refl, sym, ap, ◌∙◌, List, [], ◌∷◌, Option, none, some, Result, ok, err, panic,
  arith, inl, inr, ◌⊎◌, Bool-cases, Option-cases, Result-cases, get_elem?, ==_iff,
}
use supersim.Interop.Types.{Log, Error, Ethlib}
use supersim.Interop.Message.{hash, new_message_from_sent_event}
use supersim.Interop.Store.{Entry, Lifecycle}
use supersim.Interop.Store.Life.{Report, relay, fail, updater_of}
use supersim.Interop.Indexer.{ChainReader, get_identifier}
use supersim.Interop.Indexer.Steps.{
  Role, starts, reports, nothing, play, renew, role_of_sent, sent_entry,
}
use supersim.Interop.Indexer.History.{role_of, role_of_topic, play_all}
use supersim.Interop.Indexer.Life.{IsStart, NotResent}

module _ (lib : Ethlib) where
  -- What stands under a hash is a message of that hash.
  abbrev IsOf : ℕ → Option Entry → Type 0
  IsOf k none = Unit
  IsOf k (some e) = hash lib e.message ≡ ok k

  abbrev IsOfRole : ℕ → Role → Type 0
  IsOfRole k (starts e) = hash lib e.message ≡ ok k
  IsOfRole k (reports r) = Unit
  IsOfRole k nothing = Unit

  renew-IsOf :
      (k : ℕ) (e : Entry) (r : Result Error Lifecycle) → IsOf k (some e) → IsOf k (some (renew e r))
  renew-IsOf k e (ok l) h = h
  renew-IsOf k e (err x) h = h
  renew-IsOf k e panic h = h

  play-IsOf : (k : ℕ) (r : Role) (o : Option Entry) → IsOfRole k r → IsOf k o → IsOf k (play r o)
  play-IsOf k (starts e) o h is = h
  play-IsOf k (reports r) none h is = tt
  play-IsOf k (reports r) (some e) h is = renew-IsOf k e (updater_of r e.lifecycle) is
  play-IsOf k nothing o h is = is

  topic-IsOfRole : (o : Option ℕ) (k : ℕ) (r : Report) → IsOfRole k (role_of_topic o k (reports r))
  topic-IsOfRole none k r = tt
  topic-IsOfRole (some h) k r = elim (Bool-cases (h == k)) [ inl q ↦ rw q tt | inr q ↦ rw q tt ]

  sent-IsOfRole :
      (backend : ChainReader) (chain_id k : ℕ) (log : Log)
      → IsOfRole k (role_of_sent lib (sent_entry lib backend chain_id log) k)
  unfolding sent_entry
  sent-IsOfRole backend chain_id k log = elim (Result-cases (get_identifier backend chain_id log)) [
    | inr (inl (e, q)) ↦ rw q tt
    | inr (inr q) ↦ rw q tt
    | inl (id, q) ↦ elim (Result-cases (new_message_from_sent_event lib log id)) [
      | inr (inl (e, p)) ↦ rw (q, p) tt
      | inr (inr p) ↦ rw (q, p) tt
      | inl (m, p) ↦ elim (Result-cases (hash lib m)) [
        | inr (inl (e, s)) ↦ rw (q, p, s) tt
        | inr (inr s) ↦ rw (q, p, s) tt
        | inl (h, s) ↦ elim (Bool-cases (h == k)) [
          | inl t ↦ rw (q, p, s, t) (let same = (==_iff h k).0 t in s ∙ ap ok same)
          | inr t ↦ rw (q, p, s, t) tt
        ]
      ]
    ]
  ]

  role_of-IsOfRole :
      (backend : ChainReader) (k chain_id : ℕ) (log : Log)
      → IsOfRole k (role_of lib backend k chain_id log)
  unfolding role_of
  role_of-IsOfRole backend k chain_id log =
      let role = role_of lib backend k chain_id log in
      let fourth = get_elem? log.topics 3 in
      elim (Option-cases (get_elem? log.topics 0)) [
        | inl q ↦ as_role role nothing (ground (arith, q)) tt
        | inr (t, q) ↦ elim (Bool-cases (t == lib.sent_message_id)) [
          | inl a ↦ as_role role _ (ground (arith, q, a)) (sent-IsOfRole backend chain_id k log)
          | inr a ↦ elim (Bool-cases (t == lib.relayed_message_id)) [
            | inl b ↦
                as_role role _ (ground (arith, q, a, b))
                  (topic-IsOfRole fourth k (relay log.tx_hash))
            | inr b ↦ elim (Bool-cases (t == lib.failed_relayed_message_id)) [
              | inl c ↦
                  as_role role _ (ground (arith, q, a, b, c))
                    (topic-IsOfRole fourth k (fail log.tx_hash))
              | inr c ↦ as_role role nothing (ground (arith, q, a, b, c)) tt
            ]
          ]
        ]
      ]
    where
      as_role : (r s : Role) → r ≡ s → IsOfRole k s → IsOfRole k r
      as_role r s e h = subst (IsOfRole k) (sym e) h

  not_started : (r : Role) (o : Option Entry) → ¬ IsStart r → o ≡ none → play r o ≡ none
  not_started (starts e) o n h = absurd (n tt)
  not_started (reports r) o n h = rw h refl
  not_started nothing o n h = h

  not_none : (r : Role) (o : Option Entry) → play r o ≡ none → (o ≡ none) × ¬ IsStart r
  not_none (starts e) o h = absurd (cc)
  not_none (reports r) none h = (refl, λ s. s)
  not_none (reports r) (some e) h = absurd (cc)
  not_none nothing o h = (h, λ s. s)

  -- An entry under a hash is of a message of that hash; it is there where one was, or where one of
  -- the logs is the sent event of such a message.
  pub play_all-IsOf :
      (backends : ℕ → ChainReader) (k : ℕ) (logs : List (ℕ × Log)) (o : Option Entry)
      → IsOf k o
      → ((e : Entry) × (play_all lib backends k logs o ≡ some e)
          × (hash lib e.message ≡ ok k)
          × (o ≡ none → ¬ NotResent lib backends k logs))
        ⊎ ((play_all lib backends k logs o ≡ none) × (o ≡ none) × NotResent lib backends k logs)
  unfolding play_all
  play_all-IsOf backends k [] none is = inr (refl, refl, tt)
  play_all-IsOf backends k [] (some e) is = inl (e, refl, is, λ h. absurd (cc))
  play_all-IsOf backends k ((chain_id, log) ∷ rest) o is =
      let r = role_of lib (backends chain_id) k chain_id log in
      elim (play_all-IsOf backends k rest (play r o)
        (play-IsOf k r o (role_of-IsOfRole (backends chain_id) k chain_id log) is)) [
          | inl (e, q, h, why) ↦ inl (e, q, h, λ none n. why (not_started r o n.0 none) n.1)
          | inr (q, left, n) ↦
              let (before, quiet) = not_none r o left in inr (q, before, (quiet, n))
        ]
