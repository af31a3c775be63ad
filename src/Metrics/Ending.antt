-- ===== src/Metrics/Ending.antt =====
-- internal/metrics/metrics.go against internal/reaper/reaper.go: the facts that are about to end.
use baseline.Facts.{Fact, status_eq}
use baseline.Metrics.{count_ending, is_ending}
use baseline.Prelude.{ℕ, ◌+◌, ◌≡◌, List, [], ◌∷◌, filter, length, arith}
use baseline.Reaper.{is_stale, is_expiring}
use baseline.Store.{Db}

split_ending :
    (now : ℕ) (fs : List Fact)
    → length (filter (is_ending now) fs)
      ≡ length (filter (is_stale now) fs) + length (filter (is_expiring now) fs)
unfolding filter is_stale is_expiring
split_ending now [] = omega arith
split_ending now (f ∷ fs) = ground (arith, split_ending now fs)

-- The gauge of the facts that end within a day counts those that the next pass of the reaper expires
-- and those that it would report as expiring soon.
pub count_ending_split :
    (now : ℕ) (db : Db)
    → count_ending now db
      ≡ length (filter (is_stale now) db.facts) + length (filter (is_expiring now) db.facts)
unfolding count_ending
count_ending_split now db = split_ending now db.facts
