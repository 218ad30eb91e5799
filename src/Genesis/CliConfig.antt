-- ===== src/Genesis/CliConfig.antt =====
-- genesis/worldgen/config.go: where the generator reads its artifacts from. `filepath.Abs` and
-- `url.Parse` are outside; `U` is a parsed URL.
use supersim.Prelude.{
  Bool, true, false, ◌==◌, ◌&&◌, ◌||◌, [], ◌∷◌, ◌++◌, if◌then◌else◌, String, Result, ok, err,
  External, from_external, map_err, ◌>>=◌,
}
use supersim.Prelude.Text.{Text, codes, text_eq}

-- `strings.HasPrefix`
unfoldable pub has_prefix : Text → Text → Bool
has_prefix [] s = true
has_prefix (p ∷ ps) [] = false
has_prefix (p ∷ ps) (c ∷ s) = (p == c) && has_prefix ps s

-- A constructor to each error of `parseLocalPathOrURL`.
pub data UrlError : Type 0 where
  path_required : UrlError
  no_absolute_path malformed : String → UrlError

pub record Paths (U : Type 0) : Type 0 where
  pub abs : Text → External Text
  pub parse_url : Text → External U

pub record CliConfig (U : Type 0) : Type 0 where
  pub monorepo_artifacts_url : U
  pub periphery_artifacts_url : U
  pub outdir : Text

-- The two sets of artifacts.
pub data Artifacts : Type 0 where
  monorepo periphery : Artifacts

-- The error of `ParseCLIConfig`: the artifacts whose URL it is.
pub data ConfigError : Type 0 where
  url_failed : Artifacts → UrlError → ConfigError

module _ {U : Type 0} (paths : Paths U) where
  -- The schemes that are left as they are.
  abbrev pub is_url : Text → Bool
  is_url s =
      has_prefix (codes "https://") s
      || (has_prefix (codes "http://") s || has_prefix (codes "file://") s)

  unfoldable pub parse_local_path_or_url : Text → Result UrlError U
  unfolding has_prefix
  parse_local_path_or_url s =
      if text_eq s []
      then err path_required
      else if is_url s
      then from_external malformed (paths.parse_url s)
      else (do
        path ← from_external no_absolute_path (paths.abs s)
        from_external malformed (paths.parse_url (codes "file://" ++ path)))

  -- The flags `monorepo-artifacts`, `periphery-artifacts` and `outdir`.
  unfoldable pub parse_cli_config : Text → Text → Text → Result ConfigError (CliConfig U)
  parse_cli_config monorepo_artifacts periphery_artifacts outdir = do
    m ← map_err (url_failed monorepo) (parse_local_path_or_url monorepo_artifacts)
    p ← map_err (url_failed periphery) (parse_local_path_or_url periphery_artifacts)
    ok (record { monorepo_artifacts_url = m; periphery_artifacts_url = p; outdir = outdir })
