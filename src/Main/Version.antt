-- ===== src/Main/Version.antt =====
-- The time in the output of `anvil --version`: what the regular expression finds.
use mathlib.Core.Path.{subst}
use supersim.Prelude.{
  ℕ, ◌==◌, ◌≡◌, ◌≢◌, refl, sym, ap, ◌∙◌, true, List, [], ◌∷◌, ◌++◌, none, some, arith, inl, inr,
  Bool-cases, Option-cases,
}
use supersim.Prelude.Text.{Text}
use supersim.Prelude.Text.Parse.{is_digit}
use supersim.Main.{
  Piece, fits, date_pieces, match_tail, match_fraction, match_pieces, find_timestamp,
}

-- `\d*Z`, `\d+Z`, and a list of pieces before it, as they describe a whole text.
abbrev pub IsTail : Text → Type 0
IsTail [] = ⊥
IsTail (c ∷ []) = c ≡ b'Z'
IsTail (c ∷ d ∷ s) = (is_digit c ≡ true) × IsTail (d ∷ s)

abbrev pub IsFraction : Text → Type 0
IsFraction [] = ⊥
IsFraction (c ∷ s) = (is_digit c ≡ true) × IsTail s

abbrev pub Matches : List Piece → Text → Type 0
Matches [] s = IsFraction s
Matches (p ∷ ps) [] = ⊥
Matches (p ∷ ps) (c ∷ s) = (fits p c ≡ true) × Matches ps s

abbrev pub IsTimestamp : Text → Type 0
IsTimestamp = Matches date_pieces

-- What a match of a text is: the start of it, of the form described.
abbrev Starts : (Text → Type 0) → Text → Text → Type 0
Starts P s t = (after : Text) × P t × (s ≡ t ++ after)

IsTail-cons : (c : ℕ) (t : Text) → is_digit c ≡ true → IsTail t → IsTail (c ∷ t)
IsTail-cons c [] d h = absurd h
IsTail-cons c (x ∷ t) d h = (d, h)

match_tail_sound : (s t : Text) → match_tail s ≡ some t → Starts IsTail s t
unfolding match_tail
match_tail_sound [] t h = absurd (ground arith)
match_tail_sound (c ∷ s) t h = elim (Bool-cases (is_digit c)) [
  | inl d ↦ elim (Option-cases (match_tail s)) [
    | inl q ↦ absurd (ground arith)
    | inr (r, q) ↦
        let (after, tail, split) = match_tail_sound s r q in
        let same : c ∷ r ≡ t = ground arith in
        rw (← same) (after, IsTail-cons c r d tail, ap (◌∷◌ c) split)
  ]
  | inr d ↦ elim (Bool-cases (c == b'Z')) [
    | inl z ↦ let same : c ∷ [] ≡ t = ground arith in rw (← same) (s, ground arith, refl)
    | inr z ↦ absurd (ground arith)
  ]
]

match_tail_complete : (t after : Text) → IsTail t → match_tail (t ++ after) ≡ some t
unfolding match_tail
match_tail_complete [] after h = absurd h
match_tail_complete (c ∷ []) after h = ground (arith, h)
match_tail_complete (c ∷ d ∷ t) after h = ground (arith, h.0, match_tail_complete (d ∷ t) after h.1)

match_fraction_sound : (s t : Text) → match_fraction s ≡ some t → Starts IsFraction s t
unfolding match_fraction
match_fraction_sound [] t h = absurd (ground arith)
match_fraction_sound (c ∷ s) t h = elim (Bool-cases (is_digit c)) [
  | inr d ↦ absurd (ground arith)
  | inl d ↦ elim (Option-cases (match_tail s)) [
    | inl q ↦ absurd (ground arith)
    | inr (r, q) ↦
        let (after, tail, split) = match_tail_sound s r q in
        let same : c ∷ r ≡ t = ground arith in rw (← same) (after, (d, tail), ap (◌∷◌ c) split)
  ]
]

match_pieces_sound :
    (ps : List Piece) (s t : Text) → match_pieces ps s ≡ some t → Starts (Matches ps) s t
unfolding match_pieces
match_pieces_sound [] s t h = match_fraction_sound s t h
match_pieces_sound (p ∷ ps) [] t h = absurd (ground arith)
match_pieces_sound (p ∷ ps) (c ∷ s) t h = elim (Bool-cases (fits p c)) [
  | inr d ↦ absurd (ground arith)
  | inl d ↦ elim (Option-cases (match_pieces ps s)) [
    | inl q ↦ absurd (ground arith)
    | inr (r, q) ↦
        let (after, tail, split) = match_pieces_sound ps s r q in
        let same : c ∷ r ≡ t = ground arith in rw (← same) (after, (d, tail), ap (◌∷◌ c) split)
  ]
]

match_pieces_complete :
    (ps : List Piece) (t after : Text) → Matches ps t → match_pieces ps (t ++ after) ≡ some t
unfolding match_pieces match_fraction
match_pieces_complete [] [] after h = absurd h
match_pieces_complete [] (c ∷ t) after h = ground (arith, h.0, match_tail_complete t after h.1)
match_pieces_complete (p ∷ ps) [] after h = absurd h
match_pieces_complete (p ∷ ps) (c ∷ t) after h =
    ground (arith, h.0, match_pieces_complete ps t after h.1)

-- Where a time occurs in a text.
pub record Occurs (s : Text) (t : Text) : Type 0 where
  pub before : Text
  pub after : Text
  pub splits : s ≡ before ++ (t ++ after)
  pub is_timestamp : IsTimestamp t

Matches-full : (t : Text) → IsTimestamp t → t ≢ []
Matches-full [] h e = h
Matches-full (c ∷ t) h e = absurd (ground arith)

find_timestamp-here :
    (c : ℕ) (s t : Text) → match_pieces date_pieces (c ∷ s) ≡ some t → find_timestamp (c ∷ s) ≡ t
unfolding find_timestamp
find_timestamp-here c s t q = ground (arith, q)

find_timestamp-later :
    (c : ℕ) (s : Text)
    → match_pieces date_pieces (c ∷ s) ≡ none
    → find_timestamp (c ∷ s) ≡ find_timestamp s
unfolding find_timestamp
find_timestamp-later c s q = ground (arith, q)

find_timestamp_sound : (s : Text) → find_timestamp s ≢ [] → Occurs s (find_timestamp s)
unfolding find_timestamp
find_timestamp_sound [] n = absurd (n refl)
find_timestamp_sound (c ∷ s) n = elim (Option-cases (match_pieces date_pieces (c ∷ s))) [
  | inr (t, q) ↦
      let (after, form, split) = match_pieces_sound date_pieces (c ∷ s) t q in
      let found : Occurs (c ∷ s) t = record {
        before = [];
        after = after;
        splits = split;
        is_timestamp = form;
      } in
      subst (Occurs (c ∷ s)) (sym (find_timestamp-here c s t q)) found
  | inl q ↦
      let same = find_timestamp-later c s q in
      let o = find_timestamp_sound s (λ e. n (same ∙ e)) in
      let found : Occurs (c ∷ s) (find_timestamp s) = record {
        before = c ∷ o.before;
        after = o.after;
        splits = ap (◌∷◌ c) o.splits;
        is_timestamp = o.is_timestamp;
      } in
      subst (Occurs (c ∷ s)) (sym same) found
]

find_timestamp_complete :
    (before t after : Text) → IsTimestamp t → find_timestamp (before ++ (t ++ after)) ≢ []
find_timestamp_complete [] [] after h e = h
find_timestamp_complete [] (c ∷ t) after h e =
    let found = match_pieces_complete date_pieces (c ∷ t) after h in
    Matches-full (c ∷ t) h (sym (find_timestamp-here c (t ++ after) (c ∷ t) found) ∙ e)
find_timestamp_complete (c ∷ before) t after h e =
    let s : Text = before ++ (t ++ after) in
    elim (Option-cases (match_pieces date_pieces (c ∷ s))) [
      | inr (r, q) ↦
          let (rest, form, split) = match_pieces_sound date_pieces (c ∷ s) r q in
          Matches-full r form (sym (find_timestamp-here c s r q) ∙ e)
      | inl q ↦ find_timestamp_complete before t after h (sym (find_timestamp-later c s q) ∙ e)
    ]

-- What is found occurs in the output and has the form of the regular expression, and something is
-- found wherever a text of that form occurs.
pub find_timestamp_lem :
    (s t : Text)
    → (find_timestamp s ≢ [] → Occurs s (find_timestamp s)) × (Occurs s t → find_timestamp s ≢ [])
find_timestamp_lem s t = (
  find_timestamp_sound s,
  λ o e.
      find_timestamp_complete o.before t o.after o.is_timestamp
        (ap find_timestamp (sym o.splits) ∙ e),
)
