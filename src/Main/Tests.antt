-- ===== src/Main/Tests.antt =====
-- A machine without anvil, and one with a recent one.
use supersim.Prelude.{◌≡◌, refl, Bool, false, [], err, fails}
use supersim.Prelude.Text.{Text, codes}
use supersim.Config.TestData.{two_chains}
use supersim.Config.Default.{Deployment}
use supersim.Config.Flags.{Context}
use supersim.Orchestrator.TestData.{outside}
use supersim.Main.{
  format_version, find_timestamp, match_pieces, match_fraction, match_tail, Clock, version_required,
  after_version, supersim_main,
}
use supersim.Main.Gate.{IsRecent, supersim_main_gate}

abbrev no_ip : Text → Bool
no_ip host = false

abbrev deployment : Deployment
deployment = record { l1_chain_id = 900; l1_genesis_json = []; l2s = [] }

abbrev docs : Context
docs = record {
  command_name = "docs";
  uint64 = λ name. 0;
  bool = λ name. false;
  string = λ name. "127.0.0.1";
  string_slice = λ name. [];
}

abbrev no_anvil : Clock
no_anvil = record {
  anvil_version = fails "executable file not found";
  parse_time = λ timestamp. fails "not asked for";
}

supersim_main_gate_example :
    (IsRecent no_anvil
      → supersim_main two_chains deployment no_ip 0 outside no_anvil docs
        ≡ after_version two_chains deployment no_ip 0 outside docs)
    × (¬ IsRecent no_anvil
        → supersim_main two_chains deployment no_ip 0 outside no_anvil docs ≡ err version_required)
supersim_main_gate_example = supersim_main_gate no_anvil two_chains deployment no_ip 0 outside docs

-- The time in the output of a nightly build.
abbrev nightly : Text
nightly = codes "anvil 0.2.0 (abc 2024-10-02T00:21:55.123Z)"

finds_time : find_timestamp nightly ≡ codes "2024-10-02T00:21:55.123Z"
unfolding find_timestamp match_pieces match_fraction match_tail
finds_time = refl

-- The version of a build that the linker has set nothing in, and of a release.
dev_version :
    format_version (record { version = "dev"; commit = "none"; date = "unknown" }) ≡ codes "dev"
unfolding format_version
dev_version = refl

release_version :
    format_version (record { version = "0.1.0"; commit = "ab12"; date = "2024-11-25" })
    ≡ codes "0.1.0 (ab12) built at 2024-11-25"
unfolding format_version
release_version = refl
