-- ===== src/Orchestrator/Fork/Height.antt =====
-- The L2 block that a fork starts from.
use supersim.Prelude.{
  ℕ, ◌+◌, ◌-◌, ◌*◌, ltb, if◌then◌else◌, ◌≤◌, ◌<◌, ◌≡◌, ◌⊎◌, inl, inr, none, ok, returns, arith,
  Bool-cases,
}
use supersim.Prelude.Int.{pos, word, to_uint64}
use supersim.Interop.Types.{Header}
use supersim.Config.Registry.{OpChain}
use supersim.Orchestrator.Fork.{
  RpcClient, blocks_to_walk_back, wind_back, latest_l2_height_from_l1_header,
}

-- A chain of blocks every two seconds from its genesis block on: block `first + j` has the time
-- `start + 2 * j`. Its latest block is the `count`-th after the genesis.
pub record IsSteady (first start count : ℕ) (latest : Header) : Type 0 where
  pub has_number : latest.number ≡ pos (first + count)
  pub has_time : latest.time ≡ start + 2 * count
  pub fits : first + count < word

-- Rounded up to whole blocks.
blocks_to_walk_back_bounds :
    (d : ℕ) → (d ≤ 2 * blocks_to_walk_back d) × (2 * blocks_to_walk_back d ≤ d + 1)
unfolding blocks_to_walk_back
blocks_to_walk_back_bounds d = (ground arith, ground arith)

-- The number of blocks after the genesis block that is left.
abbrev kept : ℕ → Header → Header → ℕ
kept count latest l1 =
    if ltb l1.time latest.time then count - blocks_to_walk_back (latest.time - l1.time) else count

module _ (first start count : ℕ) (latest l1 : Header) (s : IsSteady first start count latest)
    (h : start ≤ l1.time) where
  wind_back-kept : wind_back latest l1 ≡ first + kept count latest l1
  unfolding wind_back to_uint64
  wind_back-kept = elim (Bool-cases (ltb l1.time latest.time)) [
    | inr f ↦ ground (arith, s.has_number, s.has_time, s.fits)
    | inl t ↦ ground (
      arith,
      s.has_number,
      s.has_time,
      s.fits,
      h,
      blocks_to_walk_back_bounds (latest.time - l1.time),
    )
  ]

  kept_bounds :
      (kept count latest l1 ≤ count)
      × (start + 2 * kept count latest l1 ≤ l1.time)
      × ((kept count latest l1 ≡ count) ⊎ (l1.time < start + 2 * (kept count latest l1 + 1)))
  kept_bounds = elim (Bool-cases (ltb l1.time latest.time)) [
    | inr f ↦ (ground arith, ground (arith, s.has_time), inl (ground arith))
    | inl t ↦
        let (lo, hi) = blocks_to_walk_back_bounds (latest.time - l1.time) in
        (
          ground arith,
          ground (arith, s.has_time, h, lo, hi),
          inr (ground (arith, s.has_time, h, lo, hi)),
        )
  ]

-- For an L2 with a block every two seconds, and an L1 block no earlier than its genesis, the height
-- found is that of a block of the chain which is not later than the L1 block; and it is the latest
-- block of the chain, or the next one would be later than the L1 block.
pub latest_l2_height_lem :
    (l2 : OpChain) (client : RpcClient) (l1 latest : Header) (first count : ℕ)
    → client.header_by_number none ≡ returns latest
    → IsSteady first l2.genesis_l2_time count latest
    → l2.genesis_l2_time ≤ l1.time
    → (j : ℕ) × (latest_l2_height_from_l1_header l2 client l1 ≡ ok (first + j))
      × (j ≤ count)
      × (l2.genesis_l2_time + 2 * j ≤ l1.time)
      × ((j ≡ count) ⊎ (l1.time < l2.genesis_l2_time + 2 * (j + 1)))
unfolding latest_l2_height_from_l1_header
latest_l2_height_lem l2 client l1 latest first count e s h =
    let (most, early, last) = kept_bounds first l2.genesis_l2_time count latest l1 s h in
    (
      kept count latest l1,
      ground (arith, wind_back-kept first l2.genesis_l2_time count latest l1 s h),
      most,
      early,
      last,
    )
