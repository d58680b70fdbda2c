-- ===== src/Platforms/Sync/Keys.antt =====
-- Looking up a key in rows that are appended or replaced.
use git_sync_core.Prelude.{
  ◌≡◌, refl, sym, ◌∙◌, subst, true, false, String, Option, none, some, List, [], ◌∷◌, ◌++◌, arith,
  Bool-cases, inl, inr, ◌=ˢ◌, eq_iff,
}
use git_sync_core.Model.Entities.{Repo}
use git_sync_core.Platforms.Sync.{find_key, replace_key}

abbrev key_or : String → Option Repo → String
key_or k none = k
key_or k (some r) = r.key

module _ (k : String) where
  pub find_key-append-some :
      (xs ys : List Repo) (e : Repo) → find_key k xs ≡ some e → find_key k (xs ++ ys) ≡ some e
  unfolding find_key
  find_key-append-some [] ys e h = absurd (ground arith)
  find_key-append-some (x ∷ xs) ys e h = elim (Bool-cases (x.key =ˢ k)) [
    | inl g ↦ simp g (simp g at h)
    | inr g ↦ simp g (find_key-append-some xs ys e (simp g at h))
  ]

  pub find_key-append-none :
      (xs ys : List Repo) → find_key k xs ≡ none → find_key k (xs ++ ys) ≡ find_key k ys
  unfolding find_key
  find_key-append-none [] ys h = refl
  find_key-append-none (x ∷ xs) ys h = elim (Bool-cases (x.key =ˢ k)) [
    | inl g ↦ let found : some x ≡ none = simp g at h in absurd (ground arith)
    | inr g ↦ simp g (find_key-append-none xs ys (simp g at h))
  ]

  pub find_key-append_ap :
      (xs xs' ys : List Repo)
      → find_key k xs ≡ find_key k xs'
      → find_key k (xs ++ ys) ≡ find_key k (xs' ++ ys)
  find_key-append_ap xs xs' ys h = with_answer (find_key k xs') refl
    where
      with_answer :
          (answer : Option Repo)
          → find_key k xs' ≡ answer
          → find_key k (xs ++ ys) ≡ find_key k (xs' ++ ys)
      with_answer none a = find_key-append-none xs ys (h ∙ a) ∙ sym (find_key-append-none xs' ys a)
      with_answer (some e) a =
          find_key-append-some xs ys e (h ∙ a) ∙ sym (find_key-append-some xs' ys e a)

  pub find_key-snoc_other :
      (xs : List Repo) (r : Repo)
      → (r.key =ˢ k) ≡ false
      → find_key k (xs ++ (r ∷ [])) ≡ find_key k xs
  unfolding find_key
  find_key-snoc_other [] r g = simp g refl
  find_key-snoc_other (x ∷ xs) r g = elim (Bool-cases (x.key =ˢ k)) [
    | inl e ↦ simp e refl
    | inr e ↦ simp e (find_key-snoc_other xs r g)
  ]

  pub find_key-snoc_own :
      (xs : List Repo) (r : Repo)
      → find_key k xs ≡ none
      → (r.key =ˢ k) ≡ true
      → find_key k (xs ++ (r ∷ [])) ≡ some r
  unfolding find_key
  find_key-snoc_own xs r h g = find_key-append-none xs (r ∷ []) h ∙ simp g refl

  pub find_key-key : (xs : List Repo) (e : Repo) → find_key k xs ≡ some e → (e.key =ˢ k) ≡ true
  unfolding find_key
  find_key-key [] e h = absurd (ground arith)
  find_key-key (x ∷ xs) e h = elim (Bool-cases (x.key =ˢ k)) [
    | inl g ↦
        let found : some x ≡ some e = simp g at h in
        subst (λ (o : Option Repo). (key_or k o =ˢ k) ≡ true) found g
    | inr g ↦ find_key-key xs e (simp g at h)
  ]

  pub find_key-replace_other :
      (key : String) (r' : Repo) (xs : List Repo)
      → r'.key ≡ key
      → (key =ˢ k) ≡ false
      → find_key k (replace_key key r' xs) ≡ find_key k xs
  unfolding find_key replace_key
  find_key-replace_other key r' [] e d = refl
  find_key-replace_other key r' (x ∷ xs) e d = elim (Bool-cases (x.key =ˢ key)) [
    | inl g ↦
        let same_key : x.key ≡ key = (eq_iff x.key key).0 g in
        let x_other : (x.key =ˢ k) ≡ false = rw same_key d in
        let r_other : (r'.key =ˢ k) ≡ false = rw e d in
        simp (g, x_other, r_other) (find_key-replace_other key r' xs e d)
    | inr g ↦ simp (g, find_key-replace_other key r' xs e d) refl
  ]

  pub find_key-replace_own :
      (r' : Repo) (xs : List Repo) (e : Repo)
      → find_key k xs ≡ some e
      → (r'.key =ˢ k) ≡ true
      → find_key k (replace_key k r' xs) ≡ some r'
  unfolding find_key replace_key
  find_key-replace_own r' [] e h own = absurd (ground arith)
  find_key-replace_own r' (x ∷ xs) e h own = elim (Bool-cases (x.key =ˢ k)) [
    | inl g ↦ simp (g, own) refl
    | inr g ↦ simp g (find_key-replace_own r' xs e (simp g at h) own)
  ]
