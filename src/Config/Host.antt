-- ===== src/Config/Host.antt =====
-- config/cli.go, validateHost.
use supersim.Prelude.{
  ℕ, ◌==◌, leb, ◌≡◌, ◌≢◌, ◌↔◌, refl, ap, ◌∙◌, Bool, true, false, ◌&&◌, ◌||◌, not, if◌then◌else◌, [],
  ◌∷◌, ◌++◌, All, Result, ok, err, arith, inl, inr, Bool-cases, ◌⊎◌,
}
use supersim.Prelude.Text.{Text, codes, text_eq, text_eq_iff}

-- A constructor to each `fmt.Errorf`.
pub data HostError : Type 0 where
  host_empty : HostError
  invalid_format : Text → HostError

-- `[a-zA-Z0-9]` and `[a-zA-Z0-9\-\.]`
abbrev pub is_alnum : ℕ → Bool
is_alnum c = (leb b'a' c && leb c b'z') || (leb b'A' c && leb c b'Z') || (leb b'0' c && leb c b'9')

abbrev pub is_inner : ℕ → Bool
is_inner c = is_alnum c || c == b'-' || c == b'.'

-- `^[a-zA-Z0-9][a-zA-Z0-9\-\.]+[a-zA-Z0-9]$`, from the second character on and whole.
unfoldable pub matches_rest : Text → Bool
matches_rest [] = false
matches_rest (c ∷ []) = false
matches_rest (c ∷ d ∷ []) = is_inner c && is_alnum d
matches_rest (c ∷ d ∷ e ∷ s) = is_inner c && matches_rest (d ∷ e ∷ s)

unfoldable pub matches_host : Text → Bool
unfolding matches_rest
matches_host [] = false
matches_host (c ∷ s) = is_alnum c && matches_rest s

-- `parse_ip` says whether `net.ParseIP` gives an address.
unfoldable pub validate_host : (Text → Bool) → Text → Result HostError (Unit {0})
validate_host parse_ip host =
    if text_eq host []
    then err host_empty
    else if text_eq host (codes "localhost") || text_eq host (codes "127.0.0.1")
    then ok tt
    else if parse_ip host
    then ok tt
    else if not (matches_host host)
    then err (invalid_format host)
    else ok tt

-- What the regular expression describes.
pub record IsHostName (s : Text) : Type 0 where
  pub first : ℕ
  pub inner : Text
  pub last : ℕ
  pub splits : s ≡ first ∷ inner ++ last ∷ []
  pub starts : is_alnum first ≡ true
  pub fills : All (λ c. is_inner c ≡ true) inner
  pub holds_some : inner ≢ []
  pub ends : is_alnum last ≡ true

abbrev Rest : Text → Type 0
Rest s =
    (inner : Text) × (last : ℕ) × (s ≡ inner ++ last ∷ [])
    × All (λ c. is_inner c ≡ true) inner
    × (inner ≢ [])
    × (is_alnum last ≡ true)

matches_rest_sound : (s : Text) → matches_rest s ≡ true → Rest s
unfolding matches_rest
matches_rest_sound [] h = absurd (ground arith)
matches_rest_sound (c ∷ []) h = absurd (ground arith)
matches_rest_sound (c ∷ d ∷ []) h = (c ∷ [], d, refl, (ground arith, tt), (λ e. cc), ground arith)
matches_rest_sound (c ∷ d ∷ e ∷ s) h =
    let (inner, last, q, f, n, a) = matches_rest_sound (d ∷ e ∷ s) (ground arith) in
    (c ∷ inner, last, ap (◌∷◌ c) {y = inner ++ last ∷ []} q, (ground arith, f), (λ x. cc), a)

matches_rest_complete :
    (inner : Text) (last : ℕ)
    → All (λ c. is_inner c ≡ true) inner
    → inner ≢ []
    → is_alnum last ≡ true
    → matches_rest (inner ++ last ∷ []) ≡ true
unfolding matches_rest
matches_rest_complete [] last f n a = absurd (n refl)
matches_rest_complete (c ∷ []) last f n a = ground arith
matches_rest_complete (c ∷ d ∷ []) last f n a = ground arith
matches_rest_complete (c ∷ d ∷ e ∷ s) last f n a =
    ground (arith, matches_rest_complete (d ∷ e ∷ s) last f.1 (λ x. cc) a)

matches_host_sound : (s : Text) → matches_host s ≡ true → IsHostName s
unfolding matches_host
matches_host_sound [] h = absurd (ground arith)
matches_host_sound (c ∷ s) h =
    let (inner, last, q, f, n, a) = matches_rest_sound s (ground arith) in
    record {
      first = c;
      inner = inner;
      last = last;
      splits = ap (◌∷◌ c) q;
      starts = ground arith;
      fills = f;
      holds_some = n;
      ends = a;
    }

matches_host_complete : (s : Text) → IsHostName s → matches_host s ≡ true
unfolding matches_host
matches_host_complete s v =
    ap matches_host v.splits
    ∙ ground (arith, v.starts, matches_rest_complete v.inner v.last v.fills v.holds_some v.ends)

known_hosts : (matches_host (codes "localhost") ≡ true) × (matches_host (codes "127.0.0.1") ≡ true)
unfolding matches_host
known_hosts = (refl, refl)

module _ (parse_ip : Text → Bool) where
  abbrev IsKnown : Text → Type 0
  IsKnown host = (host ≡ codes "localhost") ⊎ (host ≡ codes "127.0.0.1")

  known-matches : (host : Text) → IsKnown host → matches_host host ≡ true
  known-matches host (inl e) = ap matches_host e ∙ known_hosts.0
  known-matches host (inr e) = ap matches_host e ∙ known_hosts.1

  validate_host_sound :
      (host : Text)
      → validate_host parse_ip host ≡ ok tt
      → (host ≢ []) × ((parse_ip host ≡ true) ⊎ (matches_host host ≡ true))
  unfolding validate_host
  validate_host_sound host h = (
    λ e. ground (arith, text_eq_iff host []),
    elim (Bool-cases (text_eq host (codes "localhost") || text_eq host (codes "127.0.0.1"))) [
      | inl t ↦ inr (known-matches host (known host t))
      | inr f ↦ elim (Bool-cases (parse_ip host)) [ inl p ↦ inl p | inr p ↦ inr (ground arith) ]
    ],
  )
    where
      known :
          (host : Text)
          → (text_eq host (codes "localhost") || text_eq host (codes "127.0.0.1")) ≡ true
          → IsKnown host
      known host t = elim (Bool-cases (text_eq host (codes "localhost"))) [
        | inl q ↦ inl ((text_eq_iff host (codes "localhost")).0 q)
        | inr q ↦ inr ((text_eq_iff host (codes "127.0.0.1")).0 (ground arith))
      ]

  validate_host_complete :
      (host : Text)
      → host ≢ []
      → (parse_ip host ≡ true) ⊎ (matches_host host ≡ true)
      → validate_host parse_ip host ≡ ok tt
  unfolding validate_host
  validate_host_complete host n (inl p) = ground (arith, text_eq_iff host [])
  validate_host_complete host n (inr p) = ground (arith, text_eq_iff host [])

  -- A host is accepted exactly where it is not empty, and is an IP address or of the form that the
  -- regular expression describes; `localhost` and `127.0.0.1` are of that form.
  pub validate_host_iff :
      (host : Text)
      → (validate_host parse_ip host ≡ ok tt)
        ↔ ((host ≢ []) × ((parse_ip host ≡ true) ⊎ IsHostName host))
  validate_host_iff host = (
    λ h. let (n, found) = validate_host_sound host h in (n, described found),
    λ v. validate_host_complete host v.0 (accepted v.1),
  )
    where
      described :
          (parse_ip host ≡ true) ⊎ (matches_host host ≡ true)
          → (parse_ip host ≡ true) ⊎ IsHostName host
      described (inl p) = inl p
      described (inr p) = inr (matches_host_sound host p)

      accepted :
          (parse_ip host ≡ true) ⊎ IsHostName host
          → (parse_ip host ≡ true) ⊎ (matches_host host ≡ true)
      accepted (inl p) = inl p
      accepted (inr v) = inr (matches_host_complete host v)
