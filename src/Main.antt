-- ===== src/Main.antt =====
-- cmd/main.go: SupersimMain and the test of anvil's version. The run of `anvil --version` and
-- `time.Parse` are outside; a time is its nanoseconds.
pub mod Version
pub mod Gate
mod Tests
use text.Mathlib.Text.{◌==◌ as str_eq}
use supersim.Prelude.{
  ℕ, ltb, leb, ◌==◌, ◌&&◌, not, if◌then◌else◌, Bool, true, false, List, [], ◌∷◌, ◌++◌, Option, none,
  some, String, Result, ok, err, panic, map_err, External, returns, fails, ◌>>=◌, ◌>>◌, fail_if,
}
use supersim.Prelude.Text.{Text, codes, text_eq}
use supersim.Prelude.Text.Parse.{is_digit}
use supersim.Config.Types.{CliConfig}
use supersim.Config.Registry.{Registry}
use supersim.Config.Check.{ConfigError}
use supersim.Config.Default.{Deployment}
use supersim.Config.Flags.{Context, docs_command_name, read_cli_config}
use supersim.Orchestrator.Fork.{Outside}
use supersim.App.{Supersim, SupersimError, new_supersim}

-- A piece of the regular expression before the fraction: `\d`, or a byte of its own.
pub data Piece : Type 0 where
  digit : Piece
  byte : ℕ → Piece

abbrev pub fits : Piece → ℕ → Bool
fits digit c = is_digit c
fits (byte b) c = b == c

-- `\d{4}-\d{2}-\d{2}T\d{2}:\d{2}:\d{2}\.`
abbrev pub date_pieces : List Piece
date_pieces =
    digit
    ∷ digit
    ∷ digit
    ∷ digit
    ∷ byte b'-'
    ∷ digit
    ∷ digit
    ∷ byte b'-'
    ∷ digit
    ∷ digit
    ∷ byte b'T'
    ∷ digit
    ∷ digit
    ∷ byte b':'
    ∷ digit
    ∷ digit
    ∷ byte b':'
    ∷ digit
    ∷ digit
    ∷ byte b'.'
    ∷ []

-- `\d*Z` at the start of a text: what it matches.
unfoldable pub match_tail : Text → Option Text
match_tail [] = none
match_tail (c ∷ s) =
    let rest = match_tail s in
    if is_digit c
    then elim rest [ none ↦ none | some t ↦ some (c ∷ t) ]
    else if c == b'Z'
    then some (c ∷ [])
    else none

-- `\d+Z`
unfoldable pub match_fraction : Text → Option Text
match_fraction [] = none
match_fraction (c ∷ s) =
    if is_digit c then elim (match_tail s) [ none ↦ none | some t ↦ some (c ∷ t) ] else none

unfoldable pub match_pieces : List Piece → Text → Option Text
match_pieces [] s = match_fraction s
match_pieces (p ∷ ps) [] = none
match_pieces (p ∷ ps) (c ∷ s) =
    let rest = match_pieces ps s in
    if fits p c then elim rest [ none ↦ none | some t ↦ some (c ∷ t) ] else none

-- `timestampRegex.FindString`: the leftmost match, or the empty text.
unfoldable pub find_timestamp : Text → Text
find_timestamp [] = []
find_timestamp (c ∷ s) =
    let later = find_timestamp s in
    elim (match_pieces date_pieces (c ∷ s)) [ none ↦ later | some t ↦ t ]

abbrev pub min_anvil_timestamp : Text
min_anvil_timestamp = codes "2024-09-01T00:20:02.123144000Z"

-- A constructor to each error of the test.
pub data VersionError : Type 0 where
  run_failed parse_failed parse_min_failed : String → VersionError
  no_timestamp : VersionError

-- What the test asks of outside: the output of `anvil --version`, and the time of a text.
pub record Clock : Type 0 where
  pub anvil_version : External Text
  pub parse_time : Text → External ℕ

module _ (clock : Clock) where
  unfoldable pub is_timestamp_greater_or_equal : Text → Text → Bool × Option VersionError
  is_timestamp_greater_or_equal timestamp min_timestamp = elim (clock.parse_time timestamp) [
    | fails e ↦ (false, some (parse_failed e))
    | returns t ↦ elim (clock.parse_time min_timestamp) [
      | fails e ↦ (false, some (parse_min_failed e))
      | returns m ↦ (not (ltb t m), none)
    ]
  ]

  -- An error of the comparison comes back with false.
  abbrev pub or_error : Bool × Option VersionError → Bool × Option VersionError
  or_error (b, none) = (b, none)
  or_error (b, some e) = (false, some e)

  unfoldable pub is_min_anvil_installed : Bool × Option VersionError
  is_min_anvil_installed = elim clock.anvil_version [
    | fails e ↦ (false, some (run_failed e))
    | returns output ↦
        if text_eq (find_timestamp output) []
        then (false, some no_timestamp)
        else or_error (is_timestamp_greater_or_equal (find_timestamp output) min_anvil_timestamp)
  ]

-- A constructor to each `fmt.Errorf`.
pub data MainError : Type 0 where
  version_required : MainError
  version_undetermined : VersionError → MainError
  invalid_config : ConfigError → MainError
  supersim_failed : SupersimError → MainError

-- The life cycle that is handed on; `docs` prints its links, and the process exits.
pub data MainOutcome : Type 0 where
  exits : MainOutcome
  runs : Supersim → MainOutcome

abbrev pub undetermined : Option VersionError → Result MainError (Unit {0})
undetermined none = ok tt
undetermined (some e) = err (version_undetermined e)

-- What the linker sets.
pub record Build : Type 0 where
  pub version : String
  pub commit : String
  pub date : String

unfoldable pub format_version : Build → Text
format_version b =
    let commit =
      if str_eq b.commit "none" then [] else codes " (" ++ (codes b.commit ++ codes ")") in
    let date = if str_eq b.date "unknown" then [] else codes " built at " ++ codes b.date in
    codes b.version ++ (commit ++ date)

module _ (reg : Registry) (d : Deployment) (parse_ip : Text → Bool) (now : ℕ) (out : Outside) where
  -- From the configuration on.
  unfoldable pub after_version : Context → Result MainError MainOutcome
  after_version ctx = do
    let (cfg, checked) = read_cli_config reg parse_ip ctx
    map_err invalid_config checked
    if str_eq ctx.command_name docs_command_name
        then ok exits
        else (do s ← map_err supersim_failed (new_supersim reg d now out cfg); ok (runs s))

  unfoldable pub supersim_main : Clock → Context → Result MainError MainOutcome
  unfolding after_version
  supersim_main clock ctx = do
    let (installed, version_error) = is_min_anvil_installed clock
    fail_if (not installed) version_required
    undetermined version_error
    after_version ctx
