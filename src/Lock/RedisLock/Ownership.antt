-- ===== src/Lock/RedisLock/Ownership.antt =====
-- Mutual exclusion by the redis lock among any number of processes.
use git_sync_core.Prelude.{
  ℕ, ◌+◌, ◌≤◌, ◌<◌, ◌≡◌, refl, sym, ap, ◌≢◌, ◌⊎◌, inl, inr, true, false, String, none, some, List,
  [], ◌∷◌, arith, eq_iff, All, ◌=ˢ◌, Option-cases, Bool-cases,
}
use git_sync_core.Lock.Redis.{KeyStore, Fate, answered, unanswered, unreached, reply, send}
use git_sync_core.Lock.RedisLock.{
  RedisLock, lock_key, unlock_script, extend_script, lock_with_ttl, unlock_with_value,
  extend_lock_with_value,
}

-- What some process asks of the server about one lock key, and what becomes of the call.
pub data Command : Type 0 where
  acquire : Fate → (now : ℕ) (value : String) (ttl : ℕ) → Command
  unlock : Fate → (now : ℕ) (value : String) → Command
  extend : Fate → (now : ℕ) (value : String) (ttl : ℕ) → Command

-- A command before `t` of a process that does not hold `value`, or an extension by the holder
-- that does not shorten the lease below `t`.
abbrev pub Allowed : String → ℕ → Command → Type 0
Allowed value t (acquire f now v ttl) = now < t
Allowed value t (unlock f now v) = (now < t) × (v ≢ value)
Allowed value t (extend f now v ttl) = (now < t) × (0 < ttl) × ((v ≢ value) ⊎ (t ≤ now + ttl))

module _ (R : KeyStore) where
  open R use {Db, entry}

  abbrev idle : RedisLock
  idle = record { lock_values = [] }

  -- The server after a command; what the process remembers plays no part in it.
  pub perform : String → Db → Command → Db
  unfolding lock_with_ttl unlock_with_value extend_lock_with_value
  perform key db (acquire f now v ttl) = (lock_with_ttl R f now key v ttl idle db).2
  perform key db (unlock f now v) = (unlock_with_value R f now key v idle db).2
  perform key db (extend f now v ttl) = (extend_lock_with_value R f now key v ttl db).1

  pub perform_all : String → Db → List Command → Db
  unfolding perform
  perform_all key db [] = db
  perform_all key db (c ∷ cs) = perform_all key (perform key db c) cs

  -- The server keeps `value` under the lock's key at least until `t`.
  pub record Held (key value : String) (t : ℕ) (db : Db) : Type 0 where
    pub until : ℕ
    pub kept : entry db (lock_key key) ≡ some (record { value = value; expires_at = until })
    pub long_enough : t ≤ until

  pub live :
      (key value : String) (t now : ℕ) (db : Db) (h : Held key value t db)
      → now < t
      → R.get now (lock_key key) db ≡ some value
  live key value t now db h lt =
      R.get_live now (lock_key key) db (record { value = value; expires_at = h.until }) h.kept
        (omega (arith, h.long_enough))

  -- A call leaves the server as it was, or as the command leaves it.
  send_either :
      {A : Type 0} (P : Db → Type 0) (f : Fate) (a : A) (after before : Db)
      → P before
      → P after
      → P (send f (a, after) before).1
  unfolding send
  send_either P answered a after before b c = c
  send_either P unanswered a after before b c = c
  send_either P unreached a after before b c = b

  acquire_db :
      (key value : String) (t now ttl : ℕ) (v : String) (db : Db) (h : Held key value t db)
      → now < t
      → R.set_nx now (lock_key key) v ttl db ≡ (false, db)
  acquire_db key value t now ttl v db h lt =
      R.set_nx_taken now (lock_key key) v ttl db value (live key value t now db h lt)

  unlock_script-Held :
      (key value : String) (t now : ℕ) (v : String) (db : Db)
      → Held key value t db
      → now < t
      → v ≢ value
      → Held key value t (unlock_script R now (lock_key key) v db).1
  unfolding unlock_script
  unlock_script-Held key value t now v db h lt ne =
      rw (live key value t now db h lt, unlock_script)
        (elim (Bool-cases (value =ˢ v)) [
          | inl e ↦ absurd (ne (sym ((eq_iff value v).0 e)))
          | inr e ↦ rw e h
        ])

  pub extend_script-Held :
      (key value : String) (t now ttl : ℕ) (v : String) (db : Db)
      → Held key value t db
      → now < t
      → 0 < ttl
      → (v ≢ value) ⊎ (t ≤ now + ttl)
      → Held key value t (extend_script R now (lock_key key) v ttl db).1
  unfolding extend_script
  extend_script-Held key value t now ttl v db h lt pos ok =
      rw (live key value t now db h lt, extend_script)
        (elim (Bool-cases (value =ˢ v)) [
          | inl e ↦ rw e (record {
            until = now + ttl;
            kept = ground (
              arith,
              eq_iff (lock_key key) (lock_key key),
              R.entry-pexpire now (lock_key key) ttl db (lock_key key) value pos
                  (live key value t now db h lt),
            );
            long_enough = ground (arith, eq_iff value v, sym ((eq_iff value v).0 e));
          })
          | inr e ↦ rw e h
        ])

  -- An extension by the holder sets the new deadline.
  pub extended :
      (key value : String) (t now ttl : ℕ) (db : Db)
      → Held key value t db
      → now < t
      → 0 < ttl
      → Held key value (now + ttl) (extend_script R now (lock_key key) value ttl db).1
  unfolding extend_script
  extended key value t now ttl db h lt pos =
      rw (live key value t now db h lt, extend_script, (eq_iff value value).1 refl)
        (record {
          until = now + ttl;
          kept = ground (
            arith,
            eq_iff (lock_key key) (lock_key key),
            R.entry-pexpire now (lock_key key) ttl db (lock_key key) value pos
                (live key value t now db h lt),
          );
          long_enough = omega arith;
        })

  pub perform-Held :
      (key value : String) (t : ℕ) (db : Db) (c : Command)
      → Held key value t db
      → Allowed value t c
      → Held key value t (perform key db c)
  unfolding perform
  perform-Held key value t db (acquire f now v ttl) h a =
      rw (acquire_db key value t now ttl v db h a, perform)
        (send_either (Held key value t) f false db db h h)
  perform-Held key value t db (unlock answered now v) h a =
      unlock_script-Held key value t now v db h a.0 a.1
  perform-Held key value t db (unlock unanswered now v) h a =
      unlock_script-Held key value t now v db h a.0 a.1
  perform-Held key value t db (unlock unreached now v) h a = h
  perform-Held key value t db (extend answered now v ttl) h a =
      extend_script-Held key value t now ttl v db h a.0 a.1 a.2
  perform-Held key value t db (extend unanswered now v ttl) h a =
      extend_script-Held key value t now ttl v db h a.0 a.1 a.2
  perform-Held key value t db (extend unreached now v ttl) h a = h

  pub perform_all-Held :
      (key value : String) (t : ℕ) (db : Db) (cs : List Command)
      → Held key value t db
      → All (Allowed value t) cs
      → Held key value t (perform_all key db cs)
  unfolding perform_all
  perform_all-Held key value t db [] h a = h
  perform_all-Held key value t db (c ∷ cs) h a =
      perform_all-Held key value t (perform key db c) cs (perform-Held key value t db c h a.0) a.1

  pub acquire_takes :
      (key value : String) (now ttl : ℕ) (l : RedisLock) (db : Db)
      → 0 < ttl
      → (lock_with_ttl R answered now key value ttl l db).0 ≡ reply true
      → Held key value (now + ttl) (lock_with_ttl R answered now key value ttl l db).2
  unfolding lock_with_ttl
  acquire_takes key value now ttl l db pos h = elim (Option-cases (R.get now (lock_key key) db)) [
    | inl free ↦ record {
      until = now + ttl;
      kept = ground (
        arith,
        eq_iff (lock_key key) (lock_key key),
        R.entry-set_nx now (lock_key key) value ttl db (lock_key key) pos free,
      );
      long_enough = omega arith;
    }
    | inr (w, taken) ↦ cc (h, R.set_nx_taken now (lock_key key) value ttl db w taken)
  ]

  -- Only an answered call can say `true`.
  pub granted_takes :
      (key value : String) (f : Fate) (now ttl : ℕ) (l : RedisLock) (db : Db)
      → 0 < ttl
      → (lock_with_ttl R f now key value ttl l db).0 ≡ reply true
      → Held key value (now + ttl) (lock_with_ttl R f now key value ttl l db).2
  unfolding lock_with_ttl
  granted_takes key value answered now ttl l db pos h = acquire_takes key value now ttl l db pos h
  granted_takes key value unanswered now ttl l db pos h = absurd (cc)
  granted_takes key value unreached now ttl l db pos h = absurd (cc)

  pub not_granted :
      (key value : String) (f : Fate) (t now ttl : ℕ) (v : String) (l : RedisLock) (db : Db)
      → Held key value t db
      → now < t
      → (lock_with_ttl R f now key v ttl l db).0 ≢ reply true
  unfolding lock_with_ttl
  not_granted key value answered t now ttl v l db h lt e =
      cc (acquire_db key value t now ttl v db h lt)
  not_granted key value unanswered t now ttl v l db h lt e = cc
  not_granted key value unreached t now ttl v l db h lt e = cc

  pub refused :
      (key value : String) (t now ttl : ℕ) (v : String) (l : RedisLock) (db : Db)
      → Held key value t db
      → now < t
      → (lock_with_ttl R answered now key v ttl l db).0 ≡ reply false
  unfolding lock_with_ttl
  refused key value t now ttl v l db h lt = cc (acquire_db key value t now ttl v db h lt)

  -- A client whose SETNX was answered `true` holds the key for the whole time to live: whatever
  -- the other processes send meanwhile, with replies lost or not, as long as they use other
  -- values, every further attempt on the key before the deadline is answered `false`.
  pub exclusive_until_deadline :
      (key value : String) (now ttl : ℕ) (l : RedisLock) (db : Db) (cs : List Command) (v : String)
      (now' ttl' : ℕ) (l' : RedisLock)
      → 0 < ttl
      → (lock_with_ttl R answered now key value ttl l db).0 ≡ reply true
      → All (Allowed value (now + ttl)) cs
      → now' < now + ttl
      → (lock_with_ttl R answered now' key v ttl' l'
          (perform_all key (lock_with_ttl R answered now key value ttl l db).2 cs)).0
        ≡ reply false
  exclusive_until_deadline key value now ttl l db cs v now' ttl' l' pos won ok lt =
      refused key value (now + ttl) now' ttl' v l' _
        (perform_all-Held key value (now + ttl) (lock_with_ttl R answered now key value ttl l db).2
          cs (acquire_takes key value now ttl l db pos won) ok)
        lt

  absent : (now : ℕ) (key : String) (db : Db) → entry db key ≡ none → R.get now key db ≡ none
  absent now key db h = elim (Option-cases (R.get now key db)) [
    | inl e ↦ e
    | inr (v, e) ↦ let (x, kept, _) = R.get_sound now key db v e in cc
  ]

  -- When the holder's `UnlockWithValue` is answered before its deadline, the next attempt on the
  -- key by anybody is answered `true`, at whatever time.
  pub unlock_frees :
      (key value : String) (t now : ℕ) (l : RedisLock) (db : Db) (v : String) (now' ttl : ℕ)
      (l' : RedisLock)
      → Held key value t db
      → now < t
      → (lock_with_ttl R answered now' key v ttl l'
          (unlock_with_value R answered now key value l db).2).0
        ≡ reply true
  unfolding lock_with_ttl unlock_with_value unlock_script
  unlock_frees key value t now l db v now' ttl l' h lt =
      rw (live key value t now db h lt, unlock_script, (eq_iff value value).1 refl)
        (ap reply (
          R.set_nx_free now' (lock_key key) v ttl (R.del (lock_key key) db) (
            absent now' (lock_key key) (R.del (lock_key key) db) (
              ground (
                arith,
                eq_iff (lock_key key) (lock_key key),
                R.entry-del (lock_key key) db (lock_key key),
              )))))
