-- ===== src/Interop/Relayer/SetUp.antt =====
-- interop/relayer.go, Start: the key, and what a destination's goroutine needs before its loop. The
-- dev keys, the event bus and the bindings are outside; `K` is a private key.
use supersim.Prelude.{
  ◌≡◌, List, none, some, String, Result, ok, panic, External, returns, fails, ◌>>=◌, from_external,
  arith,
}
use supersim.Prelude.Tasks.{Loop, running, returned, crashed}
use supersim.Interop.Types.{Error, Ethlib}
use supersim.Interop.Relayer.{Relayer, Select, relay_messages}

-- A constructor to each `fmt.Errorf` of `Start` and of the goroutine.
pub data SetUpError : Type 0 where
  dev_keys_failed derive_failed subscribe_failed transactor_failed contract_failed :
      String → SetUpError
  relaying_failed : Error → SetUpError

-- What `Start` and a goroutine ask for.
pub record Keys (K : Type 0) : Type 0 where
  pub wallet : External (Unit {0})
  pub secret : External K

pub record Destination (K : Type 0) : Type 0 where
  pub subscribe : External (Unit {0})
  pub transactor : K → External (Unit {0})
  pub contract : External (Unit {0})

abbrev after_relaying : Loop Relayer Error → Loop Relayer SetUpError
after_relaying (running r) = running r
after_relaying (returned none r) = returned none r
after_relaying (returned (some e) r) = returned (some (relaying_failed e)) r
after_relaying (crashed r) = crashed r

module _ {K : Type 0} where
  -- `keys.Secret` gives nil with an error, and its field is set before the error is looked at.
  unfoldable pub private_key : Keys K → Result SetUpError K
  private_key keys = do
    wallet ← from_external dev_keys_failed keys.wallet
    elim keys.secret [ returns k ↦ ok k | fails e ↦ panic ]

  -- The goroutine of a destination, whole.
  unfoldable pub relay_task :
      Ethlib → K → Destination K → List Select → Relayer → Loop Relayer SetUpError
  relay_task lib key d selects r = elim d.subscribe [
    | fails e ↦ returned (some (subscribe_failed e)) r
    | returns s ↦ elim (d.transactor key) [
      | fails e ↦ returned (some (transactor_failed e)) r
      | returns t ↦ elim d.contract [
        | fails e ↦ returned (some (contract_failed e)) r
        | returns c ↦ after_relaying (relay_messages lib selects r)
      ]
    ]
  ]

  -- The error that the key cannot be derived is never given: where that is so, the start panics.
  private_key-panic :
      (keys : Keys K) (e : String)
      → keys.wallet ≡ returns tt
      → keys.secret ≡ fails e
      → private_key keys ≡ panic
  unfolding private_key
  private_key-panic keys e w s = ground (arith, w, s)
