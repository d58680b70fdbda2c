-- ===== src/Lock/Backoff.antt =====
-- The waits of `LocalLock.Lock` and `RedisLock.Lock` in lock/lock.go, in milliseconds.
use git_sync_core.Prelude.{ℕ, ◌+◌, ◌*◌, ◌/◌, ltb, if◌then◌else◌}

abbrev pub first_backoff : ℕ
first_backoff = 100

abbrev pub max_backoff : ℕ
max_backoff = 5000

-- `backoff *= 2; if backoff > maxBackoff { backoff = maxBackoff }`
unfoldable pub next_backoff : ℕ → ℕ
next_backoff b = let d = b * 2 in if ltb max_backoff d then max_backoff else d

-- `backoff/2 + jitter`, where the jitter is drawn below `backoff`.
unfoldable pub jittered : ℕ → ℕ → ℕ
jittered b jitter = b / 2 + jitter
