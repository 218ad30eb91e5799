-- ===== src/Main/Gate.antt =====
-- The program goes on exactly where a recent anvil is found.
use supersim.Prelude.{
  ℕ, ◌≤◌, ◌≡◌, ◌≢◌, Bool, true, false, none, [], err, returns, arith, inl, inr, Bool-cases,
  External-cases,
}
use supersim.Prelude.Text.{Text, text_eq, text_eq_iff}
use supersim.Config.Registry.{Registry}
use supersim.Config.Default.{Deployment}
use supersim.Config.Flags.{Context}
use supersim.Orchestrator.Fork.{Outside}
use supersim.Main.{
  find_timestamp, min_anvil_timestamp, Clock, is_timestamp_greater_or_equal, is_min_anvil_installed,
  version_required, after_version, supersim_main,
}

-- `anvil --version` runs and prints a time, no earlier than the one required.
pub record IsRecent (clock : Clock) : Type 0 where
  pub output : Text
  pub time : ℕ
  pub required : ℕ
  pub runs_anvil : clock.anvil_version ≡ returns output
  pub has_timestamp : find_timestamp output ≢ []
  pub parses : clock.parse_time (find_timestamp output) ≡ returns time
  pub parses_min : clock.parse_time min_anvil_timestamp ≡ returns required
  pub is_late : required ≤ time

module _ (clock : Clock) where
  is_min_anvil_installed_complete : IsRecent clock → is_min_anvil_installed clock ≡ (true, none)
  unfolding is_min_anvil_installed is_timestamp_greater_or_equal
  is_min_anvil_installed_complete v =
      let full : text_eq (find_timestamp v.output) [] ≡ false =
        differs (find_timestamp v.output) v.has_timestamp in
      ground (arith, v.runs_anvil, full, v.parses, v.parses_min, v.is_late)
    where
      differs : (t : Text) → t ≢ [] → text_eq t [] ≡ false
      differs t n = elim (Bool-cases (text_eq t [])) [
        | inl q ↦ absurd (n ((text_eq_iff t []).0 q))
        | inr q ↦ q
      ]

  is_min_anvil_installed_sound : (is_min_anvil_installed clock).0 ≡ true → IsRecent clock
  unfolding is_min_anvil_installed is_timestamp_greater_or_equal
  is_min_anvil_installed_sound h = elim (External-cases clock.anvil_version) [
    | inr (e, q) ↦ absurd (ground arith)
    | inl (output, q) ↦ elim (Bool-cases (text_eq (find_timestamp output) [])) [
      | inl empty ↦ absurd (ground arith)
      | inr full ↦ elim (External-cases (clock.parse_time (find_timestamp output))) [
        | inr (e, p) ↦ absurd (ground arith)
        | inl (t, p) ↦ elim (External-cases (clock.parse_time min_anvil_timestamp)) [
          | inr (e, r) ↦ absurd (ground arith)
          | inl (m, r) ↦ record {
            output = output;
            time = t;
            required = m;
            runs_anvil = q;
            has_timestamp = λ e. ground (arith, text_eq_iff (find_timestamp output) []);
            parses = p;
            parses_min = r;
            is_late = ground arith;
          }
        ]
      ]
    ]
  ]

  module _ (reg : Registry) (d : Deployment) (parse_ip : Text → Bool) (now : ℕ) (out : Outside)
      (ctx : Context) where
    -- Where a recent anvil is found the program goes on with its configuration; in any other case,
    -- also where the version could not be determined, the error is that a newer one is required.
    pub supersim_main_gate :
        (IsRecent clock
          → supersim_main reg d parse_ip now out clock ctx
            ≡ after_version reg d parse_ip now out ctx)
        × (¬ IsRecent clock → supersim_main reg d parse_ip now out clock ctx ≡ err version_required)
    unfolding supersim_main
    supersim_main_gate = (
      λ v. ground (arith, is_min_anvil_installed_complete v),
      λ n. elim (Bool-cases (is_min_anvil_installed clock).0) [
        | inl t ↦ absurd (n (is_min_anvil_installed_sound t))
        | inr f ↦ ground (arith, f)
      ],
    )
