-- ===== src/Watcher/Due.antt =====
-- When a changed game becomes due (`snapshotDue` and its callees).
use save_knot.Prelude.{
  ℕ, ℤ, pos, pos_part, neg_part, ◌=?◌, ◌+◌, ◌-◌, ◌*◌, ◌^◌, ◌≤◌, ◌<◌, min, max, ◌≡◌, arith,
  if◌then◌else◌,
}
use save_knot.Core.{BackupPolicy}
use save_knot.Watcher.{seconds, add_duration, earlier, effective_policy, snapshot_due}

-- A number of seconds whose nanoseconds fit an int64.
seconds-pos : (n : ℕ) → n * 1000000000 < 2 ^ 63 → seconds (pos n) ≡ pos (n * 1000000000)
unfolding seconds
seconds-pos n h = ground arith

-- One that does not, but stays below 2 ^ 64, comes out negative.
seconds-wrapped :
    (n : ℕ)
    → 2 ^ 63 ≤ n * 1000000000
    → n * 1000000000 < 2 ^ 64
    → pos_part (seconds (pos n)) ≡ 0 × (neg_part (seconds (pos n)) ≡ 2 ^ 64 - n * 1000000000)
unfolding seconds
seconds-wrapped n h k = ground arith

abbrev pub policy_of : ℕ → ℕ → ℕ → BackupPolicy
policy_of q g d = record {
  quiet_seconds = pos q;
  min_gap_seconds = pos g;
  max_dirty_seconds = pos d;
}

pub effective_policy-valid :
    (q g d : ℕ) → 1 ≤ q → q ≤ d → effective_policy (policy_of q g d) ≡ policy_of q g d
unfolding effective_policy
effective_policy-valid q g d h k = ground arith

-- With a valid policy whose durations fit an int64, a game is due after the quiet period and the
-- minimum gap since it was last queued, whichever is later (the gap counts only if it was queued
-- before), but no later than the maximum dirty duration after its first change.
pub snapshot_due-formula :
    (now first last q g d : ℕ)
    → 1 ≤ q
    → q ≤ d
    → d * 1000000000 < 2 ^ 63
    → g * 1000000000 < 2 ^ 63
    → snapshot_due now first last (policy_of q g d)
      ≡ min
          (max (now + q * 1000000000) (if last =? 0 then 0 else last + g * 1000000000))
          (first + d * 1000000000)
unfolding snapshot_due
snapshot_due-formula now first last q g d h k md mg =
    rw
      (
        effective_policy-valid q g d h k,
        seconds-pos q (omega arith),
        seconds-pos d md,
        seconds-pos g mg,
      )
      (ground arith)

earlier-add-le : (x t : ℕ) (d : ℤ) → earlier x (add_duration t d) ≤ t + pos_part d
unfolding earlier add_duration
earlier-add-le x t d = ground arith

-- Whatever the policy and the other times, a game is due at most its maximum dirty duration, as an
-- int64, after its first change.
pub snapshot_due-le-first :
    (now first last : ℕ) (policy : BackupPolicy)
    → snapshot_due now first last policy
      ≤ first + pos_part (seconds (effective_policy policy).max_dirty_seconds)
unfolding snapshot_due
snapshot_due-le-first now first last policy =
    earlier-add-le _ first (seconds (effective_policy policy).max_dirty_seconds)

earlier-add-negative :
    (x t : ℕ) (d : ℤ) → pos_part d ≡ 0 → 0 < neg_part d → 0 < t → earlier x (add_duration t d) < t
unfolding earlier add_duration
earlier-add-negative x t d h k p = ground arith

-- A valid policy whose maximum dirty duration has between 2 ^ 63 and 2 ^ 64 nanoseconds overflows:
-- the game is due before its first change, so the quiet period is not kept.
pub snapshot_due_overflow :
    (now first last q g d : ℕ)
    → 1 ≤ q
    → q ≤ d
    → 2 ^ 63 ≤ d * 1000000000
    → d * 1000000000 < 2 ^ 64
    → 0 < first
    → snapshot_due now first last (policy_of q g d) < first
unfolding snapshot_due
snapshot_due_overflow now first last q g d h k lo hi p = rw (effective_policy-valid q g d h k) (
    earlier-add-negative _ first (seconds (pos d)) (seconds-wrapped d lo hi).0
      (omega (arith, (seconds-wrapped d lo hi).1)) p)
