-- ===== src/Platforms/Store/Laws.antt =====
-- What is read back from the table of platforms.
use git_sync_core.Prelude.{
  ℕ, ◌≡◌, refl, ap, sym, ◌∙◌, Bool, true, false, String, Option, none, some, List, [], ◌∷◌, ◌++◌,
  Text, codes, is_empty, any, inl, inr, arith, Bool-cases, if◌then◌else◌, ◌=ˢ◌, ◌==◌, eq_iff,
}
use git_sync_core.Model.Entities.{Platform}
use git_sync_core.Executor.Errors.{GoError, wrap}
use git_sync_core.Executor.Environment.{Outcome, done, error}
use git_sync_core.Platforms.Store.{
  Row, Written, first_row, has_key, insert_row, filled, duplicate_key, decrypted, decrypt_platform,
  encrypt_platform, create, find_by_key,
}

first_row-passed :
    (key : String) (p : Platform) (r : Row) (rows : List Row)
    → has_key key r.platform ≡ false
    → first_row (has_key key) rows ≡ some p
    → first_row (has_key key) (r ∷ rows) ≡ some p
unfolding first_row
first_row-passed key p r rows away h = elim (Bool-cases r.deleted) [
  | inl gone ↦ simp (gone, away) h
  | inr live ↦ simp (live, away) h
]

-- A key that no row has is not found, and the row that is added for it is.
first_row-append :
    (key : String) (p : Platform) (rows : List Row)
    → any (λ (r : Row). has_key key r.platform) rows ≡ false
    → has_key key p ≡ true
    → first_row (has_key key) (rows ++ (record { platform = p; deleted = false } ∷ [])) ≡ some p
unfolding first_row
first_row-append key p [] h k = rw k refl
first_row-append key p (r ∷ rows) h k = elim (Bool-cases (has_key key r.platform)) [
  | inl there ↦ ground arith
  | inr away ↦
      first_row-passed key p r (rows ++ (record { platform = p; deleted = false } ∷ [])) away
        (first_row-append key p rows (simp away at h) k)
]

insert_row-found :
    (failure : Option GoError) (p : Platform) (rows : List Row)
    → has_key p.key p ≡ true
    → (insert_row failure p rows).0 ≡ none
    → first_row (has_key p.key) (insert_row failure p rows).1 ≡ some p
unfolding insert_row
insert_row-found (some e) p rows k h = ground arith
insert_row-found none p rows k h =
    let taken : Bool = any (λ (r : Row). has_key p.key r.platform) rows in
    elim (Bool-cases taken) [
      | inl there ↦ let impossible : some duplicate_key ≡ none = simp there at h in ground arith
      | inr away ↦ simp away (first_row-append p.key p rows away k)
    ]

has_own_key : (p : Platform) → has_key p.key p ≡ true
unfolding has_key
has_own_key p = (eq_iff p.key p.key).1 refl

module _ (encrypt : ℕ → Text → Outcome Text) (decrypt : Text → Outcome Text) where
  create_sealed :
      (failure : Option GoError) (id nonce : ℕ) (p p' given : Platform) (rows : List Row)
      → encrypt_platform encrypt decrypt nonce p ≡ done p'
      → filled id p' ≡ given
      → ((create encrypt decrypt failure id nonce p rows).failed
          ≡ (insert_row failure given rows).0)
        × ((create encrypt decrypt failure id nonce p rows).rows
            ≡ (insert_row failure given rows).1)
  unfolding create
  create_sealed failure id nonce p p' given rows sealed e =
      (rw (create, sealed, e) refl, rw (create, sealed, e) refl)

  found_after :
      (failure : Option GoError) (given : Platform) (rows : List Row) (written : Written)
      → written.failed ≡ (insert_row failure given rows).0
      → written.rows ≡ (insert_row failure given rows).1
      → written.failed ≡ none
      → find_by_key encrypt decrypt none given.key written.rows
        ≡ done (some (decrypt_platform encrypt decrypt given))
  unfolding find_by_key decrypted
  found_after failure given rows written e f h =
      simp (f, insert_row-found failure given rows (has_own_key given) (sym e ∙ h)) refl

  created_is_found :
      (failure : Option GoError) (id nonce : ℕ) (p : Platform) (s : Text) (rows : List Row)
      → encrypt_platform encrypt decrypt nonce p ≡ done (record p { access_token = s })
      → ((i : ℕ) (st : String)
          → decrypt_platform encrypt decrypt (record p { id = i; status = st; access_token = s })
            ≡ record p { id = i; status = st })
      → (create encrypt decrypt failure id nonce p rows).failed ≡ none
      → find_by_key encrypt decrypt none p.key (create encrypt decrypt failure id nonce p rows).rows
        ≡ done (
            some (record p {
              id = if p.id == 0 then id else p.id;
              status = if p.status =ˢ "" then "active" else p.status;
            }))
  unfolding filled
  created_is_found failure id nonce p s rows sealed opened h =
      let written = create encrypt decrypt failure id nonce p rows in
      let i = if p.id == 0 then id else p.id in
      let st : String = if p.status =ˢ "" then "active" else p.status in
      let given : Platform = record p { id = i; status = st; access_token = s } in
      let (failed, stored) =
        create_sealed failure id nonce p (record p { access_token = s }) given rows sealed refl in
      found_after failure given rows written failed stored h
      ∙ ap (λ (q : Platform). done (some q)) (opened i st)

  not_sealed :
      (failure : Option GoError) (id nonce : ℕ) (p : Platform) (e : GoError) (rows : List Row)
      → encrypt nonce p.access_token ≡ error e
      → is_empty p.access_token ≡ false
      → (create encrypt decrypt failure id nonce p rows).failed
        ≡ some (wrap (codes "failed to encrypt access token") e)
  unfolding create encrypt_platform
  not_sealed failure id nonce p e rows answered given =
      simp (create, encrypt_platform, given, answered) refl

  sealed_none :
      (nonce : ℕ) (p : Platform)
      → is_empty p.access_token ≡ true
      → encrypt_platform encrypt decrypt nonce p ≡ done p
  unfolding encrypt_platform
  sealed_none nonce p n = rw n refl

  opened_none :
      (p : Platform) → is_empty p.access_token ≡ true → decrypt_platform encrypt decrypt p ≡ p
  unfolding decrypt_platform
  opened_none p n = rw n refl

  sealed_done :
      (nonce : ℕ) (p : Platform) (s : Text)
      → is_empty p.access_token ≡ false
      → encrypt nonce p.access_token ≡ done s
      → encrypt_platform encrypt decrypt nonce p ≡ done (record p { access_token = s })
  unfolding encrypt_platform
  sealed_done nonce p s given answered = rw (encrypt_platform, given, answered) refl

  opened_done :
      (p : Platform) (t : Text)
      → is_empty p.access_token ≡ false
      → decrypt p.access_token ≡ done t
      → decrypt_platform encrypt decrypt p ≡ record p { access_token = t }
  unfolding decrypt_platform
  opened_done p t given answered = rw (decrypt_platform, given, answered) refl

module _ (encrypt : ℕ → Text → Outcome Text) (decrypt : Text → Outcome Text)
    (decrypts : (nonce : ℕ) (t s : Text) → encrypt nonce t ≡ done s → decrypt s ≡ done t)
    (nonempty : (nonce : ℕ) (t s : Text) → encrypt nonce t ≡ done s → is_empty s ≡ false) where
  -- A platform whose creation succeeded is read back by its key as it was given, its token in the
  -- clear, with its id or the one that the database drew where it had none, and with the status
  -- `active` where it had none. Hypotheses: what was encrypted decrypts to the text it was, and is
  -- not empty.
  pub find_by_key-create :
      (failure : Option GoError) (id nonce : ℕ) (p : Platform) (rows : List Row)
      → (create encrypt decrypt failure id nonce p rows).failed ≡ none
      → find_by_key encrypt decrypt none p.key (create encrypt decrypt failure id nonce p rows).rows
        ≡ done (
            some (record p {
              id = if p.id == 0 then id else p.id;
              status = if p.status =ˢ "" then "active" else p.status;
            }))
  find_by_key-create failure id nonce p rows h = elim (Bool-cases (is_empty p.access_token)) [
    | inl nothing ↦
        created_is_found encrypt decrypt failure id nonce p p.access_token rows
          (sealed_none encrypt decrypt nonce p nothing)
          (λ i st. opened_none encrypt decrypt (record p { id = i; status = st }) nothing) h
    | inr given ↦ with_answer (encrypt nonce p.access_token) refl given
  ]
    where
      with_answer :
          (answer : Outcome Text)
          → encrypt nonce p.access_token ≡ answer
          → is_empty p.access_token ≡ false
          → find_by_key encrypt decrypt none p.key
              (create encrypt decrypt failure id nonce p rows).rows
            ≡ done (
                some (record p {
                  id = if p.id == 0 then id else p.id;
                  status = if p.status =ˢ "" then "active" else p.status;
                }))
      with_answer (error e) answered given =
          let failed = not_sealed encrypt decrypt failure id nonce p e rows answered given in
          absurd (ground arith)
      with_answer (done s) answered given =
          created_is_found encrypt decrypt failure id nonce p s rows
            (sealed_done encrypt decrypt nonce p s given answered)
            (λ i st.
              opened_done encrypt decrypt (record p { id = i; status = st; access_token = s })
                p.access_token (nonempty nonce p.access_token s answered)
                (decrypts nonce p.access_token s answered))
            h
