-- ===== src/Query/Executor/Limits.antt =====
-- The limits that internal/query/executor.go puts on a query.
use pivot.Common.{ℕ, ℤ, pos, negsuc, pos_part, ◌/◌, ◌≡◌, ltb, nat_beq, min, if◌then◌else◌, arith}
use pivot.Query.Plan.{default_max_rows, limit_rows, nanoseconds, effective_timeout}

-- The smaller of two limits, where 0 is no limit.
unfoldable pub smaller : ℕ → ℕ → ℕ
smaller a b = if nat_beq a 0 then b else if nat_beq b 0 then a else min a b

-- The whole seconds of a ceiling; one that is shorter than a second counts as one.
unfoldable pub whole_seconds : ℕ → ℕ
whole_seconds d = if nat_beq d 0 then 0 else if ltb d nanoseconds then 1 else d / nanoseconds

-- The smaller of two row limits, and the default where neither is set.
unfoldable pub row_limit : ℕ → ℕ → ℕ
row_limit a b = let both = smaller a b in if nat_beq both 0 then default_max_rows else both

-- Where the connection's own limits are not below zero, a plan runs under the smaller of its row limit
-- and the request's, one that is not above zero being none, and under the default where neither
-- sets one; its timeout is the smaller of the connection's and the whole seconds of the ceiling. A
-- row limit of the connection that is below zero gives the default, whatever the request asked
-- for, and a timeout that is below zero is kept, whatever the ceiling.
pub limits_exact :
    (own below own_seconds below_seconds query_timeout : ℕ) (asked : ℤ)
    → ((limit_rows (pos own) asked ≡ row_limit own (pos_part asked))
        × (limit_rows (negsuc below) asked ≡ default_max_rows))
      × ((effective_timeout query_timeout (pos own_seconds)
            ≡ pos (smaller (whole_seconds query_timeout) own_seconds))
          × (effective_timeout query_timeout (negsuc below_seconds) ≡ negsuc below_seconds))
unfolding limit_rows effective_timeout smaller row_limit whole_seconds
limits_exact own below own_seconds below_seconds query_timeout (pos asked) = ground arith
limits_exact own below own_seconds below_seconds query_timeout (negsuc asked) = ground arith
