-- ===== src/SideBar/Health.antt =====
-- What the side bar reports of the chain.
use native.Mathlib.Nat.{mul-zero}
use likedao.Common.{ℕ, ◌-◌, ◌≡◌, false, Option, none, some, Result, ok, arith}
use likedao.Common.Int.{ℤ, pos, negsuc, ◌≤ℤ◌}
use likedao.Request.{loaded}
use likedao.SideBar.{
  DateFns, online, Block, Seconds, is_above_triple, status_of, health_from, fetch_chain_health,
}

not_above :
    (d m : ℤ) (k : ℕ)
    → d ≤ℤ pos 0
    → pos 0 ≤ℤ m
    → is_above_triple d (record { numerator = m; denominator = k }) ≡ false
not_above (pos n) (pos m) k h p =
    let nil : n ≡ 0 = omega (arith, h) in rw nil (ground (arith, mul-zero k))
not_above (negsuc n) (pos m) k h p = ground arith
not_above d (negsuc m) k h p = absurd (omega (arith, p))

status_of-online :
    (n l : ℤ) (average : Seconds)
    → n ≤ℤ pos 0
    → l ≤ℤ pos 0
    → pos 0 ≤ℤ average.numerator
    → status_of n l average ≡ online
unfolding status_of
status_of-online n l average a b c =
    rw (not_above l average.numerator average.denominator b c) (ground arith)

module _ (dates : DateFns) (get_block : Option ℕ → Result (Block dates.Time)) (now : dates.Time)
    (average : Seconds) (latest previous : Block dates.Time) where
  -- Where the latest block is not after now, the one before it is not after it, and the average
  -- block time is not negative, the chain is reported as online, however long ago the blocks were:
  -- the arguments of both differences are the wrong way round.
  pub fetch_chain_health-online :
      get_block none ≡ ok latest
      → get_block (some (latest.height - 1)) ≡ ok previous
      → dates.is_after latest.time now ≡ false
      → dates.is_after previous.time latest.time ≡ false
      → pos 0 ≤ℤ average.numerator
      → fetch_chain_health dates get_block now (loaded average)
        ≡ ok (loaded (record { chain_status = online; latest_height = latest.height }))
  unfolding fetch_chain_health health_from
  fetch_chain_health-online answered before a b c =
      simp
        (
          answered,
          before,
          status_of-online (dates.difference_in_seconds latest.time now)
              (dates.difference_in_seconds previous.time latest.time) average
              (dates.difference_in_seconds_le latest.time now a)
              (dates.difference_in_seconds_le previous.time latest.time b) c,
        )
        (ground arith)
