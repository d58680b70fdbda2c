-- ===== src/Platforms/Store.antt =====
-- dao/platform_dao.go: the table of platforms, whose access tokens are stored encrypted. The SDK's
-- CryptoManager is a parameter (each encryption draws a nonce), and so are the id that the database
-- gives a new row and the failure of a statement, `none` where it succeeds. Deleting is soft: the row
-- stays, and so does its key in the unique index.
pub mod Laws
pub mod Defaults
use git_sync_core.Prelude.{
  ℕ, zero, suc, ◌==◌, ◌+◌, Bool, true, false, not, ◌&&◌, ◌||◌, String, Option, none, some, List, [],
  ◌∷◌, ◌++◌, map, Text, codes, is_empty, any, if◌then◌else◌, ◌=ˢ◌,
}
use git_sync_core.Model.Entities.{Platform}
use git_sync_core.Executor.Errors.{GoError, new_error, wrap}
use git_sync_core.Executor.Environment.{Outcome, done, error}

pub record Row : Type 0 where
  pub platform : Platform
  pub deleted : Bool

-- What a write leaves: its error, the object of the caller, which is changed in place, and the table.
pub record Written : Type 0 where
  pub failed : Option GoError
  pub caller : Platform
  pub rows : List Row

-- The first visible row that a condition selects (`First`).
unfoldable pub first_row : (Platform → Bool) → List Row → Option Platform
first_row p [] = none
first_row p (r ∷ rows) =
    let rest = first_row p rows in if not r.deleted && p r.platform then some r.platform else rest

-- The visible rows that a condition selects (`Find`).
unfoldable pub find_rows : (Platform → Bool) → List Row → List Platform
find_rows p [] = []
find_rows p (r ∷ rows) =
    let rest = find_rows p rows in if not r.deleted && p r.platform then r.platform ∷ rest else rest

-- An UPDATE of the visible rows that a condition selects.
unfoldable pub update_rows : (Platform → Bool) → (Platform → Platform) → List Row → List Row
update_rows p f [] = []
update_rows p f (r ∷ rows) =
    (if not r.deleted && p r.platform then record r { platform = f r.platform } else r)
    ∷ update_rows p f rows

unfoldable pub has_key : String → Platform → Bool
has_key key p = p.key =ˢ key

unfoldable pub has_id : ℕ → Platform → Bool
has_id id p = p.id == id

unfoldable pub has_kind : String → Platform → Bool
has_kind kind p = p.kind =ˢ kind

abbrev pub duplicate_key : GoError
duplicate_key = new_error (codes "UNIQUE constraint failed: platforms.key")

-- The object of an INSERT: the id that the database draws, where it has none, and gorm's default of a
-- column that is empty. Both are set in the caller's object. The other columns' defaults are Go's
-- zero values.
unfoldable pub filled : (id : ℕ) → Platform → Platform
filled id p = record p {
  id = if p.id == 0 then id else p.id;
  status = if p.status =ˢ "" then "active" else p.status;
}

-- The object after an INSERT: the id that the database drew is set only where it succeeds.
unfoldable pub inserted : Option GoError → (given p : Platform) → Platform
inserted none given p = given
inserted (some e) given p = record given { id = p.id }

-- An INSERT of an object that is filled in. The unique index covers the deleted rows too.
unfoldable pub insert_row :
    (failure : Option GoError) → Platform → List Row → Option GoError × List Row
insert_row (some e) p rows = (some e, rows)
insert_row none p rows =
    if any (λ (r : Row). has_key p.key r.platform) rows
    then (some duplicate_key, rows)
    else (none, rows ++ (record { platform = p; deleted = false } ∷ []))

-- The row of an id is replaced.
unfoldable pub replace_row : Platform → List Row → List Row
replace_row p [] = []
replace_row p (r ∷ rows) =
    (if has_id p.id r.platform then record { platform = p; deleted = false } else r)
    ∷ replace_row p rows

-- An UPDATE of the row of an id, or an INSERT that takes the place of the deleted row of that id.
unfoldable pub write_row : Platform → List Row → Option GoError × Platform × List Row
write_row p rows =
    if any (λ (r : Row). has_key p.key r.platform && not (has_id p.id r.platform)) rows
    then (some duplicate_key, p, rows)
    else (none, p, replace_row p rows)

-- `Save`: an UPDATE of the visible row of the id, as the object stands; else an INSERT of the object,
-- filled in.
unfoldable pub save_row :
    (failure : Option GoError)
    → (id : ℕ) → Platform
    → List Row
    → Option GoError × Platform × List Row
save_row (some e) id p rows = (some e, p, rows)
save_row none id p rows =
    let given = filled id p in
    let (failed, rows') = insert_row none given rows in
    if p.id == 0
    then (failed, inserted failed given p, rows')
    else if any (λ (r : Row). not r.deleted && has_id p.id r.platform) rows
    then write_row p rows
    else if any (λ (r : Row). has_id p.id r.platform) rows
    then write_row given rows
    else (failed, inserted failed given p, rows')

module _ (encrypt : (nonce : ℕ) → Text → Outcome Text) (decrypt : Text → Outcome Text) where
  -- `decrypt`
  unfoldable pub decrypt_platform : Platform → Platform
  decrypt_platform p = if is_empty p.access_token then p else elim (decrypt p.access_token) [
    | done plain ↦ record p { access_token = plain }
    | error e ↦ p
  ]

  -- `decryptAll`
  unfoldable pub decrypt_all : List Platform → List Platform
  decrypt_all [] = []
  decrypt_all (p ∷ ps) = decrypt_platform p ∷ decrypt_all ps

  -- `encrypt`
  unfoldable pub encrypt_platform : (nonce : ℕ) → Platform → Outcome Platform
  encrypt_platform nonce p =
      if is_empty p.access_token then done p else elim (encrypt nonce p.access_token) [
        | done secret ↦ done (record p { access_token = secret })
        | error e ↦ error (wrap (codes "failed to encrypt access token") e)
      ]

  -- `Create`
  unfoldable pub create :
      (failure : Option GoError) → (id nonce : ℕ) → Platform → List Row → Written
  create failure id nonce p rows = elim (encrypt_platform nonce p) [
    | error e ↦ record { failed = some e; caller = p; rows = rows }
    | done p' ↦
        let given = filled id p' in
        let (failed, rows') = insert_row failure given rows in
        record { failed = failed; caller = inserted failed given p'; rows = rows' }
  ]

  -- `Update`
  unfoldable pub update :
      (failure : Option GoError) → (id nonce : ℕ) → Platform → List Row → Written
  update failure id nonce p rows = elim (encrypt_platform nonce p) [
    | error e ↦ record { failed = some e; caller = p; rows = rows }
    | done p' ↦
        let (failed, given, rows') = save_row failure id p' rows in
        record { failed = failed; caller = given; rows = rows' }
  ]

  unfoldable pub decrypted : Option Platform → Option Platform
  decrypted none = none
  decrypted (some p) = some (decrypt_platform p)

  unfoldable pub find_by_key :
      (failure : Option GoError) → String → List Row → Outcome (Option Platform)
  find_by_key (some e) key rows = error e
  find_by_key none key rows = done (decrypted (first_row (has_key key) rows))

  unfoldable pub find_by_id : (failure : Option GoError) → ℕ → List Row → Outcome (Option Platform)
  find_by_id (some e) id rows = error e
  find_by_id none id rows = done (decrypted (first_row (has_id id) rows))

  unfoldable pub find_by_type :
      (failure : Option GoError) → String → List Row → Outcome (List Platform)
  find_by_type (some e) kind rows = error e
  find_by_type none kind rows = done (decrypt_all (find_rows (has_kind kind) rows))

  unfoldable pub find_default : (failure : Option GoError) → List Row → Outcome (Option Platform)
  find_default (some e) rows = error e
  find_default none rows = done (decrypted (first_row (λ p. p.is_default) rows))

-- `Delete`
unfoldable pub delete : (failure : Option GoError) → String → List Row → Option GoError × List Row
delete (some e) key rows = (some e, rows)
delete none key rows = (
  none,
  map (λ (r : Row). if has_key key r.platform then record r { deleted = true } else r) rows,
)

-- `SetDefault`: a transaction of two statements.
unfoldable pub set_default :
    (clearing setting : Option GoError) → String → List Row → Option GoError × List Row
set_default (some e) setting key rows = (some e, rows)
set_default none (some e) key rows = (some e, rows)
set_default none none key rows =
    let cleared = update_rows (λ p. p.is_default) (λ p. record p { is_default = false }) rows in
    (none, update_rows (has_key key) (λ p. record p { is_default = true }) cleared)

-- `UpdateStatus`, at the database's time
unfoldable pub update_status :
    (failure : Option GoError)
    → (now : ℕ) → (key status : String) → (result : Text) → List Row
    → Option GoError × List Row
update_status (some e) now key status result rows = (some e, rows)
update_status none now key status result rows = (
  none,
  update_rows (has_key key)
      (λ p. record p { status = status; last_test_at = some now; last_test_result = result }) rows,
)

-- `UpdateRepoCount`: `count` is what the first statement counts.
unfoldable pub update_repo_count :
    (counted : Outcome ℕ)
    → (failure : Option GoError) → (id : ℕ) → List Row
    → Option GoError × List Row
update_repo_count (error e) failure id rows = (some e, rows)
update_repo_count (done n) (some e) id rows = (some e, rows)
update_repo_count (done n) none id rows =
    (none, update_rows (has_id id) (λ p. record p { repo_count = n }) rows)
