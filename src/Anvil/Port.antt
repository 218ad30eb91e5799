-- ===== src/Anvil/Port.antt =====
-- anvil/anvil.go, Start: the port, read from the line in which the process says where it listens.
use mathlib.Core.List.{append_assoc}
use supersim.Prelude.{
  ℕ, ◌^◌, ◌<◌, ◌≡◌, refl, Bool, true, false, ◌&&◌, List, [], ◌∷◌, ◌++◌, Option, none, some, Result,
  ok, panic, ◌>>=◌, or_panic, if◌then◌else◌, ◌==◌, arith, get_elem?, All, All-append, Bool-cases,
  Option-cases, Result-cases, err, inl, inr,
}
use supersim.Prelude.Int.{to_uint64}
use supersim.Prelude.Text.{Text, codes, decimal}
use supersim.Prelude.Text.Parse.{
  split, parse_int, IsFree, split-free, split-append, parse_int-decimal, decimal-IsFree,
}

-- `strings.HasPrefix`
unfoldable pub has_prefix : Text → Text → Bool
has_prefix s [] = true
has_prefix [] (d ∷ p) = false
has_prefix (c ∷ s) (d ∷ p) = (c == d) && has_prefix s p

abbrev pub listening_prefix : Text
listening_prefix = codes "Listening on"

-- The fields of `strings.Split(txt, ":")`
abbrev pub fields : Text → List Text
fields txt = let (first, others) = split b':' txt in first ∷ others

-- What a line sends on the channel of the port, if anything.
unfoldable pub listened_port : {E : Type 0} → Text → Result E (Option ℕ)
unfolding split
listened_port txt = do
  field ← or_panic (get_elem? (fields txt) 1)
  port ← or_panic (parse_int field)
  ok (some (to_uint64 port))

unfoldable pub port_of_line : {E : Type 0} → Text → Result E (Option ℕ)
unfolding listened_port
port_of_line txt = if has_prefix txt listening_prefix then listened_port txt else ok none

-- The scanner's goroutine up to the port that `Start` waits for; none comes where the context ends
-- first.
unfoldable pub read_port : {E : Type 0} → List Text → Result E (Option ℕ)
unfolding port_of_line
read_port [] = ok none
read_port (txt ∷ rest) =
    let later = read_port rest in
    port_of_line txt >>= λ port. elim port [ some p ↦ ok (some p) | none ↦ later ]

-- The line with which anvil says where it listens.
abbrev pub listening_line : Text → ℕ → Text
listening_line host port = codes "Listening on " ++ (host ++ b':' ∷ decimal port)

has_prefix-append : (p s : Text) → has_prefix (p ++ s) p ≡ true
unfolding has_prefix
has_prefix-append [] s = refl
has_prefix-append (c ∷ p) s = ground (arith, has_prefix-append p s)

-- What is parsed is the text between the first colon and the second.
second_field :
    (s field rest : Text)
    → IsFree b':' s
    → IsFree b':' field
    → (get_elem? (fields (s ++ b':' ∷ field)) 1 ≡ some field)
      × (get_elem? (fields (s ++ b':' ∷ (field ++ b':' ∷ rest))) 1 ≡ some field)
second_field s field rest hs hf = (
  ground (arith, split-append b':' s field hs, split-free b':' field hf),
  ground (arith, split-append b':' s (field ++ b':' ∷ rest) hs, split-append b':' field rest hf),
)

prefix-IsFree : IsFree b':' (codes "Listening on ")
prefix-IsFree = (
  refl,
  (
    refl,
    (refl, (refl, (refl, (refl, (refl, (refl, (refl, (refl, (refl, (refl, (refl, tt))))))))))),
  ),
)

IsFree-append : (s t : Text) → IsFree b':' s → IsFree b':' t → IsFree b':' (s ++ t)
IsFree-append s t = All-append (λ c. (c == b':') ≡ false) s t

-- A line of another kind sends nothing.
abbrev IsOther : Text → Type 0
IsOther txt = has_prefix txt listening_prefix ≡ false

listening_line-port :
    (E : Type 0) (host : Text) (port : ℕ)
    → IsFree b':' host
    → port < 2 ^ 63
    → port_of_line {E = E} (listening_line host port) ≡ ok (some port)
unfolding port_of_line listened_port to_uint64
listening_line-port E host port free fits = ground (
  arith,
  has_prefix-append listening_prefix (b' ' ∷ (host ++ b':' ∷ decimal port)),
  (second_field (codes "Listening on " ++ host) (decimal port) []
      (IsFree-append (codes "Listening on ") host prefix-IsFree free)
      (decimal-IsFree b':' port refl)).0,
  parse_int-decimal port fits,
)

-- A host with two colons in a row before any other makes the line a panic.
listening_line-panic :
    (E : Type 0) (host rest : Text) (port : ℕ)
    → IsFree b':' host
    → port_of_line {E = E} (listening_line (host ++ b':' ∷ b':' ∷ rest) port) ≡ panic
unfolding port_of_line listened_port parse_int
listening_line-panic E host rest port free =
    rw (append_assoc host (b':' ∷ b':' ∷ rest) (b':' ∷ decimal port)) (
      ground (
        arith,
        has_prefix-append listening_prefix
            (b' ' ∷ (host ++ b':' ∷ b':' ∷ (rest ++ b':' ∷ decimal port))),
        (second_field (codes "Listening on " ++ host) [] (rest ++ b':' ∷ decimal port)
            (IsFree-append (codes "Listening on ") host prefix-IsFree free) tt).1,
      ))

port_of_line-ne-err : (E : Type 0) (txt : Text) (e : E) → port_of_line {E = E} txt ≡ err e → ⊥
unfolding port_of_line listened_port
port_of_line-ne-err E txt e h = elim (Bool-cases (has_prefix txt listening_prefix)) [
  | inr other ↦ ground arith
  | inl listens ↦ elim (Option-cases (get_elem? (fields txt) 1)) [
    | inl missing ↦ ground arith
    | inr (field, found) ↦ elim (Option-cases (parse_int field)) [
      | inl bad ↦ ground arith
      | inr (port, good) ↦ ground arith
    ]
  ]
]

-- The scanner gives no error value.
pub read_port-ne-err :
    (E : Type 0) (lines : List Text) (e : E) → read_port {E = E} lines ≡ err e → ⊥
unfolding read_port
read_port-ne-err E [] e h = cc
read_port-ne-err E (txt ∷ rest) e h = elim (Result-cases (port_of_line {E = E} txt)) [
  | inr (inl (e', q)) ↦ port_of_line-ne-err E txt e' q
  | inr (inr q) ↦ ground arith
  | inl (none, q) ↦ read_port-ne-err E rest e (ground arith)
  | inl (some p, q) ↦ ground arith
]

-- The port is read back only where the host has no colon: a host that has two in a row before any
-- other, as the addresses of IPv6 with a leading `::` or in brackets, stops the program.
pub read_port-panic :
    (E : Type 0) (before after : List Text) (host rest : Text) (port : ℕ)
    → All IsOther before
    → IsFree b':' host
    → read_port {E = E} (before ++ listening_line (host ++ b':' ∷ b':' ∷ rest) port ∷ after) ≡ panic
unfolding read_port port_of_line
read_port-panic E [] after host rest port others free =
    ground (arith, listening_line-panic E host rest port free)
read_port-panic E (txt ∷ before) after host rest port others free =
    ground (arith, read_port-panic E before after host rest port others.1 free)

-- Whatever other lines come first, and whatever comes after, the port that `Start` gets from the
-- line of a process that listens on a host without a colon is the port of that line.
pub read_port-listening_line :
    (E : Type 0) (before after : List Text) (host : Text) (port : ℕ)
    → All IsOther before
    → IsFree b':' host
    → port < 2 ^ 63
    → read_port {E = E} (before ++ listening_line host port ∷ after) ≡ ok (some port)
unfolding read_port port_of_line
read_port-listening_line E [] after host port others free fits =
    ground (arith, listening_line-port E host port free fits)
read_port-listening_line E (txt ∷ before) after host port others free fits =
    ground (arith, read_port-listening_line E before after host port others.1 free fits)
