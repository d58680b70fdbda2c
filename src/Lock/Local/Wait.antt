-- ===== src/Lock/Local/Wait.antt =====
-- The waiting loop of the in-process lock, and what its `Unlock` does.
use git_sync_core.Prelude.{
  ℕ, ◌+◌, ◌<◌, ◌≡◌, refl, ◌≢◌, true, false, String, List, [], ◌∷◌, ltb, insert, lookup-insert,
  lookup-remove, arith, eq_iff, All, any, ◌⊎◌, inl, inr,
}
use git_sync_core.Lock.Backoff.{first_backoff, next_backoff}
use git_sync_core.Lock.Local.{
  LocalLock, try_lock_with_ttl, try_lock, default_lock_ttl, unlock, unlocked, Call, try, release,
  perform, perform_all, Round, acquired, lock_rounds, lock,
}
use git_sync_core.Lock.Local.Hold.{HeldUntil}

-- A call that does not name `key`.
abbrev pub Foreign : String → Call → Type 0
Foreign key (try k ttl now) = k ≢ key
Foreign key (release k) = k ≢ key

-- A round whose context is alive and in which nobody else asks for `key`.
pub record IsQuiet (key : String) (r : Round) : Type 0 where
  pub alive : r.done ≡ false
  pub foreign : All (Foreign key) r.others

perform-Foreign :
    (key : String) (t : ℕ) (l : LocalLock) (c : Call)
    → HeldUntil key t l
    → Foreign key c
    → HeldUntil key t (perform l c)
unfolding perform
perform-Foreign key t l (try k ttl now) h s =
    ground (arith, eq_iff k key, lookup-insert k key (record { expires_at = now + ttl }) l.entries)
perform-Foreign key t l (release k) h s =
    ground (arith, eq_iff k key, lookup-remove k key l.entries)

perform_all-Foreign :
    (key : String) (t : ℕ) (l : LocalLock) (cs : List Call)
    → HeldUntil key t l
    → All (Foreign key) cs
    → HeldUntil key t (perform_all l cs)
unfolding perform_all
perform_all-Foreign key t l [] h s = h
perform_all-Foreign key t l (c ∷ cs) h s =
    perform_all-Foreign key t (perform l c) cs (perform-Foreign key t l c h s.0) s.1

-- A try on a held key gives the time test's answer, and keeps the state where it fails.
try_held :
    (key : String) (t ttl now : ℕ) (l : LocalLock)
    → HeldUntil key t l
    → ((ltb t now ≡ true) × ((try_lock_with_ttl key ttl now l).0 ≡ true))
      ⊎ ((ltb t now ≡ false) × (try_lock_with_ttl key ttl now l ≡ (false, l)))
unfolding try_lock_with_ttl
try_held key t ttl now l h = ground arith

rounds_acquire :
    (key : String) (t b : ℕ) (rs : List Round) (l : LocalLock)
    → HeldUntil key t l
    → All (IsQuiet key) rs
    → any (λ r. ltb t r.now) rs ≡ true
    → (lock_rounds key b rs l).0 ≡ acquired
unfolding lock_rounds
rounds_acquire key t b [] l h q e = cc
rounds_acquire key t b (r ∷ rs) l h q e = elim (try_held key t default_lock_ttl r.now l h) [
  | inl (_, won) ↦ rw (won, try_lock) refl
  | inr (late, lost) ↦
      rw (lost, try_lock, q.0.alive)
        (rounds_acquire key t (next_backoff b) rs (perform_all l r.others)
          (perform_all-Foreign key t l r.others h q.0.foreign) q.1 (ground arith))
]

-- `Lock` gets a key that is held until `t` as soon as a round begins after `t`, if the context
-- lives and nobody else asks for the key.
pub lock_acquires :
    (key : String) (t : ℕ) (rs : List Round) (l : LocalLock)
    → HeldUntil key t l
    → All (IsQuiet key) rs
    → any (λ r. ltb t r.now) rs ≡ true
    → (lock key rs l).0 ≡ acquired
unfolding lock
lock_acquires key t rs l h q e = rounds_acquire key t first_backoff rs l h q e

-- `Unlock` knows no owner: when a key ran out at `t` and another client took it at `now`, the
-- `Unlock` of the first client succeeds, and a third client gets the key at once, whatever the
-- time to live of the second.
pub unlock_ignores_owner :
    (key : String) (t ttl now ttl' now' : ℕ) (l : LocalLock)
    → HeldUntil key t l
    → t < now
    → let l' = (try_lock_with_ttl key ttl now l).1 in
      ((try_lock_with_ttl key ttl now l).0 ≡ true)
      × ((unlock key l').0 ≡ unlocked)
      × ((try_lock_with_ttl key ttl' now' (unlock key l').1).0 ≡ true)
unfolding unlock try_lock_with_ttl
unlock_ignores_owner key t ttl now ttl' now' l h lt = ground (
  arith,
  eq_iff key key,
  lookup-insert key key (record { expires_at = now + ttl }) l.entries,
  lookup-remove key key (insert key (record { expires_at = now + ttl }) l.entries),
)
