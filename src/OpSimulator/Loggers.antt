-- ===== src/OpSimulator/Loggers.antt =====
-- opsimulator/opsimulator.go, startBackgroundTasks: the three tasks that log the events of the
-- predeployed token contracts. Making a contract and subscribing to its events are outside; what is
-- logged is recorded.
use mathlib.Core.List.{append-nil, append_assoc}
use supersim.Prelude.{
  ℕ, ◌≡◌, sym, ap, ◌∙◌, List, [], ◌∷◌, ◌++◌, map, none, some, String, External, returns, fails,
  arith,
}
use supersim.Prelude.Tasks.{Loop, running, returned}

-- An event by the amount and the three parties or chains that its line names.
pub record TokenEvent : Type 0 where
  pub first : ℕ
  pub second : ℕ
  pub amount : ℕ
  pub third : ℕ

-- Which of the two subscriptions of a task an event is of: the mint or the burn, the send or the
-- relay.
pub data Side : Type 0 where
  left_event right_event : Side

-- A line of the log: the name of the contract, and the event.
pub record Line : Type 0 where
  pub contract : String
  pub side : Side
  pub event : TokenEvent

pub data LoggerError : Type 0 where
  contract_failed left_subscription_failed right_subscription_failed : String → String → LoggerError

-- What the `select` of a task takes.
pub data Taken : Type 0 where
  event_taken : Side → TokenEvent → Taken
  context_done : Taken

-- The contract and its two subscriptions, each as it comes out.
pub record Setup : Type 0 where
  pub contract : External (Unit {0})
  pub left : External (Unit {0})
  pub right : External (Unit {0})

abbrev pub Logger : Type 0
Logger = Loop (List Line) LoggerError

-- The `for` of a task, on the lines logged so far.
unfoldable pub log_events : String → List Taken → List Line → Logger
log_events name [] lines = running lines
log_events name (event_taken side e ∷ rest) lines =
    log_events name rest (lines ++ record { contract = name; side = side; event = e } ∷ [])
log_events name (context_done ∷ rest) lines = returned none lines

-- A task for one contract.
unfoldable pub watch_contract : String → Setup → List Taken → List Line → Logger
unfolding log_events
watch_contract name setup taken lines = elim setup.contract [
  | fails e ↦ returned (some (contract_failed name e)) lines
  | returns c ↦ elim setup.left [
    | fails e ↦ returned (some (left_subscription_failed name e)) lines
    | returns l ↦ elim setup.right [
      | fails e ↦ returned (some (right_subscription_failed name e)) lines
      | returns r ↦ log_events name taken lines
    ]
  ]
]

-- `contracts` of the first task.
abbrev pub erc20_contracts : List String
erc20_contracts = "SuperchainWETH" ∷ "L2NativeSuperchainERC20" ∷ []

-- The loop over the contracts: its body returns in each case, so that there is no second round.
unfoldable pub log_erc20_events : List String → (String → Setup) → List Taken → Logger
unfolding watch_contract
log_erc20_events [] setups taken = returned none []
log_erc20_events (name ∷ names) setups taken = watch_contract name (setups name) taken []

abbrev pub lines_of : String → List (Side × TokenEvent) → List Line
lines_of name events =
    map (λ (e : Side × TokenEvent). record { contract = name; side = e.0; event = e.1 }) events

abbrev pub taken_of : List (Side × TokenEvent) → List Taken
taken_of events = map (λ (e : Side × TokenEvent). event_taken e.0 e.1) events

log_events-taken_of :
    (name : String) (events : List (Side × TokenEvent)) (rest : List Taken) (lines : List Line)
    → log_events name (taken_of events ++ context_done ∷ rest) lines
      ≡ returned none (lines ++ lines_of name events)
unfolding log_events
log_events-taken_of name [] rest lines = ap (returned none) (sym (append-nil lines))
log_events-taken_of name ((side, e) ∷ events) rest lines =
    let line : Line = record { contract = name; side = side; event = e } in
    log_events-taken_of name events rest (lines ++ line ∷ [])
    ∙ ap (returned none) (append_assoc lines (line ∷ []) (lines_of name events))

-- The first task logs the events of the first contract up to the end of its context, each under that
-- contract's name, whatever the setup of the second contract would be.
log_erc20_events_lem :
    (setups : String → Setup) (events : List (Side × TokenEvent)) (rest : List Taken)
    → (setups "SuperchainWETH").contract ≡ returns tt
    → (setups "SuperchainWETH").left ≡ returns tt
    → (setups "SuperchainWETH").right ≡ returns tt
    → log_erc20_events erc20_contracts setups (taken_of events ++ context_done ∷ rest)
      ≡ returned none (lines_of "SuperchainWETH" events)
unfolding log_erc20_events watch_contract
log_erc20_events_lem setups events rest c l r =
    ground (arith, c, l, r, log_events-taken_of "SuperchainWETH" events rest [])
