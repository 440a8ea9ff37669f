-- ===== src/Workflow/Duration.antt =====
-- The duration that an adapter is given (workflow.go: time.Duration(seconds) * time.Second).
use jitsudo.Prelude.{ℕ, ◌+◌, ◌*◌, ◌^◌, ◌<◌, ◌≡◌, arith}
use jitsudo.Prelude.Int.{pos}
use jitsudo.Rows.{RequestRow}
use jitsudo.Workflow.{elevation_request}

-- An adapter is given the duration of the request in nanoseconds where that fits in an int64, so
-- below 292 years. It is given the same where the request asks for 2 ^ 55 seconds more, since the
-- product wraps around.
pub elevation_request-duration :
    (r : RequestRow) (n : ℕ)
    → n * 1_000_000_000 < 2 ^ 63
    → ((elevation_request (record r { duration_seconds = pos n })).duration
        ≡ pos (n * 1_000_000_000))
      × ((elevation_request (record r { duration_seconds = pos (n + 2 ^ 55) })).duration
          ≡ pos (n * 1_000_000_000))
unfolding elevation_request
elevation_request-duration r n h = (ground arith, ground arith)
