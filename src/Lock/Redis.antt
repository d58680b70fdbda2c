-- ===== src/Lock/Redis.antt =====
-- The redis server, which lock/lock.go calls and does not implement: the commands that its client
-- calls and its Lua scripts use, with their documented behaviour. Times are in milliseconds.
-- Nothing is assumed of a key in the very millisecond of its deadline.
pub mod Instances
use git_sync_core.Prelude.{
  ℕ, ◌+◌, ◌≤◌, ◌<◌, ◌≡◌, refl, Bool, true, false, String, Option, none, some, ltb, leb,
  if◌then◌else◌, ◌=ˢ◌, Table, lookup, insert, remove, lookup-insert, lookup-remove, arith, length,
}

pub record Stored : Type 0 where
  pub value : String
  pub expires_at : ℕ

-- Keys with a value and a time to live.
pub record KeyStore : Type 1 where
  pub Db : Type 0
  -- what the server keeps of a key
  pub entry : Db → String → Option Stored
  -- GET at a time
  pub get : ℕ → String → Db → Option String
  -- SET key value NX PX ttl
  pub set_nx : (now : ℕ) (key value : String) (ttl : ℕ) → Db → Bool × Db
  -- DEL
  pub del : String → Db → Db
  -- PEXPIRE
  pub pexpire : (now : ℕ) (key : String) (ttl : ℕ) → Db → Db
  pub get_sound :
      (now : ℕ) (key : String) (db : Db) (v : String)
      → get now key db ≡ some v
      → (e : Stored) × (entry db key ≡ some e) × (e.value ≡ v)
  pub get_live :
      (now : ℕ) (key : String) (db : Db) (e : Stored)
      → entry db key ≡ some e
      → now < e.expires_at
      → get now key db ≡ some e.value
  pub get_gone :
      (now : ℕ) (key : String) (db : Db) (e : Stored)
      → entry db key ≡ some e
      → e.expires_at < now
      → get now key db ≡ none
  pub set_nx_taken :
      (now : ℕ) (key value : String) (ttl : ℕ) (db : Db) (w : String)
      → get now key db ≡ some w
      → set_nx now key value ttl db ≡ (false, db)
  pub set_nx_free :
      (now : ℕ) (key value : String) (ttl : ℕ) (db : Db)
      → get now key db ≡ none
      → (set_nx now key value ttl db).0 ≡ true
  pub entry-set_nx :
      (now : ℕ) (key value : String) (ttl : ℕ) (db : Db) (j : String)
      → 0 < ttl
      → get now key db ≡ none
      → entry (set_nx now key value ttl db).1 j
        ≡ (if key =ˢ j then some (record { value = value; expires_at = now + ttl }) else entry db j)
  pub entry-del :
      (key : String) (db : Db) (j : String)
      → entry (del key db) j ≡ (if key =ˢ j then none else entry db j)
  pub entry-pexpire :
      (now : ℕ) (key : String) (ttl : ℕ) (db : Db) (j : String) (v : String)
      → 0 < ttl
      → get now key db ≡ some v
      → entry (pexpire now key ttl db) j
        ≡ (if key =ˢ j then some (record { value = v; expires_at = now + ttl }) else entry db j)

-- A score that a removal of all scores up to `top` leaves.
abbrev pub above : ℕ → Option ℕ → Option ℕ
above top none = none
above top (some s) = if leb s top then none else some s

-- One sorted set: members with a score.
pub record SortedSet : Type 1 where
  pub Db : Type 0
  pub score : Db → String → Option ℕ
  -- ZCARD
  pub card : Db → ℕ
  -- ZREMRANGEBYSCORE -inf top
  pub drop_up_to : ℕ → Db → Db
  -- ZADD
  pub add : ℕ → String → Db → Db
  -- ZREM
  pub rem : String → Db → Db
  pub score-drop_up_to :
      (top : ℕ) (db : Db) (m : String) → score (drop_up_to top db) m ≡ above top (score db m)
  pub card-drop_up_to : (top : ℕ) (db : Db) → card (drop_up_to top db) ≤ card db
  pub score-add :
      (s : ℕ) (k : String) (db : Db) (m : String)
      → score (add s k db) m ≡ (if k =ˢ m then some s else score db m)
  pub card-add_new :
      (s : ℕ) (k : String) (db : Db) → score db k ≡ none → card (add s k db) ≡ card db + 1
  pub card-add_old :
      (s t : ℕ) (k : String) (db : Db) → score db k ≡ some t → card (add s k db) ≡ card db
  pub score-rem :
      (k : String) (db : Db) (m : String)
      → score (rem k db) m ≡ (if k =ˢ m then none else score db m)
  pub card-rem : (k : String) (db : Db) → card (rem k db) ≤ card db

-- What becomes of a client's call: it is answered, or it takes effect and the reply is lost, or
-- it does not reach the server. In the last two cases the client sees an error.
pub data Fate : Type 0 where
  answered unanswered unreached : Fate

pub data Reply {ℓ} (A : Type ℓ) : Type ℓ where
  reply : A → Reply A
  failed : Reply A

unfoldable pub send {ℓ κ} : {A : Type ℓ} {Db : Type κ} → Fate → A × Db → Db → Reply A × Db
send answered (a, after) before = (reply a, after)
send unanswered (a, after) before = (failed, after)
send unreached (a, after) before = (failed, before)
