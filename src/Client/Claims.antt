-- ===== src/Client/Claims.antt =====
-- The times in the token by which the client presents itself as the app.
use octorun.Client.Types.{ClientWorld, InstallationTokenSource}
use octorun.Client.Credentials.{claims_at, truncate_second}
use octorun.Base.{◌≡◌, arith, ℕ, ◌+◌, ◌%◌, ◌≤◌, ◌<◌}
use octorun.RunnerController.World.{seconds}

-- With the clock at least half a minute after the epoch, the web token is issued at a whole second
-- that lies at least 30 and less than 31 seconds in the past, and expires two minutes after it: more
-- than 89 seconds from now, and at most 90.
pub claims_at-bounds :
    (w : ClientWorld) (ts : InstallationTokenSource) (now : ℕ)
    → seconds 30 ≤ now
    → (claims_at w ts now).issued_at + seconds 30 ≤ now
      × now < (claims_at w ts now).issued_at + seconds 31
      × (claims_at w ts now).issued_at % seconds 1 ≡ 0
      × now + seconds 89 < (claims_at w ts now).expires_at
      × (claims_at w ts now).expires_at ≤ now + seconds 90
unfolding claims_at truncate_second
claims_at-bounds w ts now h = omega arith
