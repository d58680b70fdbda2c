-- ===== src/Lock/Redis/Instances.antt =====
-- Servers in memory, which show that the behaviour asked of redis can be had. Tests run on them.
use git_sync_core.Prelude.{
  ℕ, ◌+◌, ◌≤◌, ◌<◌, ◌≡◌, refl, Bool, true, false, String, Option, none, some, [], ◌∷◌, ltb, leb,
  if◌then◌else◌, ◌=ˢ◌, Table, lookup, insert, remove, lookup-insert, lookup-remove, arith, length,
  eq_iff, Option-cases, inl, inr,
}
use git_sync_core.Lock.Redis.{Stored, KeyStore, above, SortedSet}

abbrev pub Keys : Type 0
Keys = Table Stored

unfoldable pub alive : ℕ → Option Stored → Option String
alive now none = none
alive now (some e) = if ltb now e.expires_at then some e.value else none

unfoldable pub get_key : ℕ → String → Keys → Option String
unfolding alive lookup
get_key now key db = alive now (lookup key db)

unfoldable pub set_if_absent : ℕ → String → String → ℕ → Keys → Bool × Keys
unfolding get_key insert
set_if_absent now key value ttl db = elim (get_key now key db) [
  | none ↦ (true, insert key (record { value = value; expires_at = now + ttl }) db)
  | some _ ↦ (false, db)
]

unfoldable pub expire : ℕ → String → ℕ → Keys → Keys
unfolding lookup insert
expire now key ttl db = elim (lookup key db) [
  | none ↦ db
  | some e ↦ insert key (record { value = e.value; expires_at = now + ttl }) db
]

pub get_key_sound :
    (now : ℕ) (key : String) (db : Keys) (v : String)
    → get_key now key db ≡ some v
    → (e : Stored) × (lookup key db ≡ some e) × (e.value ≡ v)
unfolding get_key
get_key_sound now key db v h = elim (Option-cases (lookup key db)) [
  | inl e ↦ absurd (ground arith)
  | inr (x, e) ↦ (x, e, ground arith)
]

pub get_key_live :
    (now : ℕ) (key : String) (db : Keys) (e : Stored)
    → lookup key db ≡ some e
    → now < e.expires_at
    → get_key now key db ≡ some e.value
unfolding get_key
get_key_live now key db e h lt = rw (h, alive) (ground arith)

pub get_key_gone :
    (now : ℕ) (key : String) (db : Keys) (e : Stored)
    → lookup key db ≡ some e
    → e.expires_at < now
    → get_key now key db ≡ none
unfolding get_key
get_key_gone now key db e h lt = rw (h, alive) (ground arith)

pub lookup-set_if_absent :
    (now : ℕ) (key value : String) (ttl : ℕ) (db : Keys) (j : String)
    → get_key now key db ≡ none
    → lookup j (set_if_absent now key value ttl db).1
      ≡ (if key =ˢ j then some (record { value = value; expires_at = now + ttl }) else lookup j db)
unfolding set_if_absent
lookup-set_if_absent now key value ttl db j h =
    rw (h, set_if_absent)
      (lookup-insert key j (record { value = value; expires_at = now + ttl }) db)

pub lookup-expire :
    (now : ℕ) (key : String) (ttl : ℕ) (db : Keys) (j v : String)
    → get_key now key db ≡ some v
    → lookup j (expire now key ttl db)
      ≡ (if key =ˢ j then some (record { value = v; expires_at = now + ttl }) else lookup j db)
unfolding expire
lookup-expire now key ttl db j v h =
    let (e, kept, same) = get_key_sound now key db v h in
    rw (kept, expire, same) (lookup-insert key j (record { value = v; expires_at = now + ttl }) db)

pub set_if_absent_taken :
    (now : ℕ) (key value : String) (ttl : ℕ) (db : Keys) (w : String)
    → get_key now key db ≡ some w
    → set_if_absent now key value ttl db ≡ (false, db)
unfolding set_if_absent
set_if_absent_taken now key value ttl db w h = rw (h, set_if_absent)

pub set_if_absent_free :
    (now : ℕ) (key value : String) (ttl : ℕ) (db : Keys)
    → get_key now key db ≡ none
    → (set_if_absent now key value ttl db).0 ≡ true
unfolding set_if_absent
set_if_absent_free now key value ttl db h = rw (h, set_if_absent)

abbrev pub memory_keys : KeyStore
memory_keys = record {
  Db = Keys;
  entry = λ db key. lookup key db;
  get = get_key;
  set_nx = set_if_absent;
  del = remove;
  pexpire = expire;
  get_sound = get_key_sound;
  get_live = get_key_live;
  get_gone = get_key_gone;
  set_nx_taken = set_if_absent_taken;
  set_nx_free = set_if_absent_free;
  entry-set_nx = λ now key value ttl db j pos. lookup-set_if_absent now key value ttl db j;
  entry-del = λ key db j. lookup-remove key j db;
  entry-pexpire = λ now key ttl db j v pos. lookup-expire now key ttl db j v;
}

abbrev pub Members : Type 0
Members = Table ℕ

unfoldable pub drop_scores : ℕ → Members → Members
unfolding remove
drop_scores top [] = []
drop_scores top ((j, s) ∷ m) =
    let rest = drop_scores top m in if leb s top then remove j rest else (j, s) ∷ rest

pub length-remove : (k : String) (m : Members) → length (remove k m) ≤ length m
unfolding remove
length-remove k [] = omega arith
length-remove k ((j, s) ∷ m) = ground (arith, length-remove k m)

pub length-drop_scores : (top : ℕ) (m : Members) → length (drop_scores top m) ≤ length m
unfolding drop_scores
length-drop_scores top [] = omega arith
length-drop_scores top ((j, s) ∷ m) =
    ground (arith, length-drop_scores top m, length-remove j (drop_scores top m))

pub lookup-drop_scores :
    (top : ℕ) (m : Members) (k : String) → lookup k (drop_scores top m) ≡ above top (lookup k m)
unfolding drop_scores lookup
lookup-drop_scores top [] k = refl
lookup-drop_scores top ((j, s) ∷ m) k =
    ground (arith, eq_iff j k, lookup-drop_scores top m k, lookup-remove j k (drop_scores top m))

pub length-insert_new :
    (s : ℕ) (k : String) (m : Members) → lookup k m ≡ none → length (insert k s m) ≡ length m + 1
unfolding lookup insert
length-insert_new s k [] h = refl
length-insert_new s k ((j, t) ∷ m) h = ground (arith, length-insert_new s k m)

pub length-insert_old :
    (s t : ℕ) (k : String) (m : Members) → lookup k m ≡ some t → length (insert k s m) ≡ length m
unfolding lookup insert
length-insert_old s t k [] h = cc
length-insert_old s t k ((j, u) ∷ m) h = ground (arith, length-insert_old s t k m)

abbrev pub memory_set : SortedSet
memory_set = record {
  Db = Members;
  score = λ db m. lookup m db;
  card = length;
  drop_up_to = drop_scores;
  add = λ s k db. insert k s db;
  rem = remove;
  score-drop_up_to = lookup-drop_scores;
  card-drop_up_to = length-drop_scores;
  score-add = λ s k db m. lookup-insert k m s db;
  card-add_new = length-insert_new;
  card-add_old = length-insert_old;
  score-rem = λ k db m. lookup-remove k m db;
  card-rem = length-remove;
}
