-- ===== src/Lock/Local/Hold.antt =====
-- Mutual exclusion by the in-process lock.
use git_sync_core.Prelude.{
  ℕ, ◌+◌, ◌≤◌, ◌≡◌, ◌≢◌, true, false, String, some, List, [], ◌∷◌, lookup, lookup-insert,
  lookup-remove, arith, eq_iff, All,
}
use git_sync_core.Lock.Local.{
  LocalLock, try_lock_with_ttl, Call, try, release, perform, perform_all,
}

-- The entry of `key` says `t`.
abbrev pub HeldUntil : String → ℕ → LocalLock → Type 0
HeldUntil key t l = lookup key l.entries ≡ some (record { expires_at = t })

-- A call by somebody else that comes in time: it releases another key, or it is a try by `t`.
abbrev pub Harmless : String → ℕ → Call → Type 0
Harmless key t (try k ttl now) = now ≤ t
Harmless key t (release k) = k ≢ key

pub try_takes :
    (key : String) (ttl now : ℕ) (l : LocalLock)
    → (try_lock_with_ttl key ttl now l).0 ≡ true
    → HeldUntil key (now + ttl) (try_lock_with_ttl key ttl now l).1
unfolding try_lock_with_ttl
try_takes key ttl now l h =
    ground
      (arith, eq_iff key key, lookup-insert key key (record { expires_at = now + ttl }) l.entries)

perform-HeldUntil :
    (key : String) (t : ℕ) (l : LocalLock) (c : Call)
    → HeldUntil key t l
    → Harmless key t c
    → HeldUntil key t (perform l c)
unfolding perform
perform-HeldUntil key t l (try k ttl now) h s =
    ground (arith, eq_iff k key, lookup-insert k key (record { expires_at = now + ttl }) l.entries)
perform-HeldUntil key t l (release k) h s =
    ground (arith, eq_iff k key, lookup-remove k key l.entries)

perform_all-HeldUntil :
    (key : String) (t : ℕ) (l : LocalLock) (cs : List Call)
    → HeldUntil key t l
    → All (Harmless key t) cs
    → HeldUntil key t (perform_all l cs)
unfolding perform_all
perform_all-HeldUntil key t l [] h s = h
perform_all-HeldUntil key t l (c ∷ cs) h s =
    perform_all-HeldUntil key t (perform l c) cs (perform-HeldUntil key t l c h s.0) s.1

-- After a successful try at time `now` with a time to live, no try for the same key succeeds up
-- to `now + ttl`, whatever calls come in between by that time, as long as none of them releases
-- the key.
pub exclusive_until_expiry :
    (key : String) (ttl now : ℕ) (l : LocalLock) (cs : List Call) (ttl' now' : ℕ)
    → (try_lock_with_ttl key ttl now l).0 ≡ true
    → All (Harmless key (now + ttl)) cs
    → now' ≤ now + ttl
    → (try_lock_with_ttl key ttl' now' (perform_all (try_lock_with_ttl key ttl now l).1 cs)).0
      ≡ false
unfolding try_lock_with_ttl
exclusive_until_expiry key ttl now l cs ttl' now' h s le = ground (
  arith,
  perform_all-HeldUntil key (now + ttl) (try_lock_with_ttl key ttl now l).1 cs
      (try_takes key ttl now l h) s,
)
