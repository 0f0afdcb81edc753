-- ===== src/Controller/Sync/Interval.antt =====
-- The requeue interval of pkg/controller/tsecretsync_controller.go.
use tsecret.Common.{false, Option, Text, ◌≡◌, ltb_ℤ, arith}
use tsecret.Controller.{Duration, seconds}
use tsecret.Controller.Sync.{requeue_interval}

-- The requeue interval is at least 30 seconds and at most 24 hours, whatever the refresh interval
-- says and however it parses.
pub requeue_interval_bounds :
    (parse : Text → Option Duration) (s : Text)
    → (ltb_ℤ (requeue_interval parse s) (seconds 30) ≡ false)
      × (ltb_ℤ (seconds 86400) (requeue_interval parse s) ≡ false)
unfolding requeue_interval
requeue_interval_bounds parse s = ground arith
