-- ===== src/Lock/Semaphore/Capacity.antt =====
-- The semaphore never has more slots than `max`, and slots come back by themselves.
use git_sync_core.Prelude.{
  ℕ, ◌+◌, ◌-◌, ◌≤◌, ◌≡◌, refl, String, none, some, List, [], ◌∷◌, arith, Option-cases, inl, inr,
  eq_iff,
}
use git_sync_core.Lock.Redis.{SortedSet, Fate, answered, unanswered, unreached}
use git_sync_core.Lock.Semaphore.{
  Semaphore, acquire_script, renew_script, acquire, renew, release, cleanup,
}

-- What any process asks of the semaphore, and what becomes of the call.
pub data Command : Type 0 where
  acquires : Fate → (now later : ℕ) (identifier : String) → Command
  renews : Fate → (now : ℕ) (identifier : String) → Command
  releases : Fate → (identifier : String) → Command
  cleans : Fate → (now older_than : ℕ) → Command

module _ (Z : SortedSet) (s : Semaphore) where
  open Z use {Db, score, card, drop_up_to, add, rem}

  pub perform : Db → Command → Db
  perform db (acquires f now later id) = (acquire Z f s now later id db).1
  perform db (renews f now id) = (renew Z f s now id db).1
  perform db (releases f id) = (release Z f id db).1
  perform db (cleans f now age) = (cleanup Z f now age db).1

  pub perform_all : Db → List Command → Db
  perform_all db [] = db
  perform_all db (c ∷ cs) = perform_all (perform db c) cs

  add_card_le : (t : ℕ) (id : String) (db : Db) → card (add t id db) ≤ card db + 1
  add_card_le t id db = elim (Option-cases (score db id)) [
    | inl e ↦ omega (arith, Z.card-add_new t id db e)
    | inr (u, e) ↦ omega (arith, Z.card-add_old t u id db e)
  ]

  -- A renewal never adds a member.
  renew_card : (t : ℕ) (id : String) (db : Db) → card (renew_script Z id t db).1 ≡ card db
  unfolding renew_script
  renew_card t id db = elim (Option-cases (score db id)) [
    | inl e ↦ rw (e, renew_script)
    | inr (u, e) ↦ rw (e, renew_script) (Z.card-add_old t u id db e)
  ]

  acquire_card :
      (now t : ℕ) (id : String) (db : Db)
      → card db ≤ s.max
      → card (acquire_script Z id s.max now t db).1 ≤ s.max
  unfolding acquire_script
  acquire_card now t id db h =
      ground (arith, add_card_le t id (drop_up_to now db), Z.card-drop_up_to now db)

  perform-card : (db : Db) (c : Command) → card db ≤ s.max → card (perform db c) ≤ s.max
  unfolding perform acquire renew release cleanup
  perform-card db (acquires answered now later id) h = acquire_card now (later + s.slot_ttl) id db h
  perform-card db (acquires unanswered now later id) h =
      acquire_card now (later + s.slot_ttl) id db h
  perform-card db (renews answered now id) h = omega (arith, renew_card (now + s.slot_ttl) id db)
  perform-card db (renews unanswered now id) h = omega (arith, renew_card (now + s.slot_ttl) id db)
  perform-card db (releases answered id) h = omega (arith, Z.card-rem id db)
  perform-card db (releases unanswered id) h = omega (arith, Z.card-rem id db)
  perform-card db (cleans answered now age) h = omega (arith, Z.card-drop_up_to (now - age) db)
  perform-card db (cleans unanswered now age) h = omega (arith, Z.card-drop_up_to (now - age) db)
  perform-card db _ h = h

  -- However many processes acquire, renew, release and clean up in whatever order, and whatever
  -- replies are lost, the set never has more members than `max`.
  pub card-le-max :
      (db : Db) (cs : List Command) → card db ≤ s.max → card (perform_all db cs) ≤ s.max
  unfolding perform_all
  card-le-max db [] h = h
  card-le-max db (c ∷ cs) h = card-le-max (perform db c) cs (perform-card db c h)

  renew_gone :
      (f : Fate) (now : ℕ) (id : String) (db : Db)
      → score db id ≡ none
      → (renew Z f s now id db).1 ≡ db
  unfolding renew renew_script
  renew_gone answered now id db e = rw (e, renew_script)
  renew_gone unanswered now id db e = rw (e, renew_script)
  renew_gone unreached now id db e = refl

  renew_held :
      (now t : ℕ) (id : String) (db : Db)
      → score db id ≡ some t
      → score (renew Z answered s now id db).1 id ≡ some (now + s.slot_ttl)
  unfolding renew renew_script
  renew_held now t id db e =
      rw (e, renew_script) (ground (arith, eq_iff id id, Z.score-add (now + s.slot_ttl) id db id))

  -- An answered `Renew` moves the deadline of a member that is still there and adds none; a `Renew`
  -- of a member that is gone leaves the set as it was, answered or not.
  pub renew_keeps_gone :
      (f : Fate) (now : ℕ) (id : String) (db : Db)
      → (score db id ≡ none → (renew Z f s now id db).1 ≡ db)
        × ((t : ℕ)
            → score db id ≡ some t
            → (card (renew Z answered s now id db).1 ≡ card db)
              × (score (renew Z answered s now id db).1 id ≡ some (now + s.slot_ttl)))
  unfolding renew
  renew_keeps_gone f now id db = (
    renew_gone f now id db,
    λ t e. (renew_card (now + s.slot_ttl) id db, renew_held now t id db e),
  )
