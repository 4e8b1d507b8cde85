-- ===== src/Source/Jitter.antt =====
-- The timestamp difference that the jitter estimate is made of.
use jrtplib.Prelude.{ℕ, ◌+◌, ◌-◌, ◌%◌, ◌^◌, ◌<◌, ◌≡◌, leb, if◌then◌else◌, arith}
use jrtplib.Source.Stats.{TimestampDiff, ahead, behind, timestamp_diff}

-- Two timestamps that are the low 32 bits of true times less than 2^28 apart have the difference of
-- the true times, with its sign, across a wraparound too.
pub timestamp_diff_exact :
    (a b : ℕ)
    → a < b + 0x10000000
    → b < a + 0x10000000
    → timestamp_diff (a % 2 ^ 32) (b % 2 ^ 32) ≡ (if leb b a then ahead (a - b) else behind (b - a))
unfolding timestamp_diff
timestamp_diff_exact a b h k = ground arith

-- Adding a difference to the previous timestamp, or taking it away, gives the current one.
abbrev pub Leads : ℕ → ℕ → TimestampDiff → Type 0
Leads curts prevts (ahead n) = ((prevts + n) % 2 ^ 32 ≡ curts) × (n < 2 ^ 32)
Leads curts prevts (behind n) = ((curts + n) % 2 ^ 32 ≡ prevts) × (n < 2 ^ 32)

-- Any two 32-bit timestamps: the difference leads from the previous one to the current one modulo
-- 2^32.
pub timestamp_diff-Leads :
    (curts prevts : ℕ)
    → curts < 2 ^ 32
    → prevts < 2 ^ 32
    → Leads curts prevts (timestamp_diff curts prevts)
unfolding timestamp_diff
timestamp_diff-Leads curts prevts h k = ground arith
