-- ===== src/Tasks/Edits.antt =====
-- What edits and completed runs do to the table of tasks (service/task_service.go).
use git_sync_core.Prelude.{
  ℕ, ◌≡◌, refl, ap, subst, ◌&&◌, Bool, Option, ==_iff, true, false, String, some, none, [], ◌∷◌,
  Text, codes, is_empty, same, all, any, not, ◌==◌, ◌=ˢ◌, Table, lookup, insert, lookup-insert,
  arith, Bool-cases, Option-cases, inl, inr,
}
use git_sync_core.Model.Entities.{SyncTask}
use git_sync_core.Tasks.{
  is_branch_char, is_valid_branch_name, CreateTaskRequest, UpdateTaskRequest, new_task, create_task,
  updated_task, update_task, text_or,
}

and_true : (a b : Bool) → (a && b) ≡ true → (a ≡ true) × (b ≡ true)
and_true true b h = (refl, h)
and_true false b h = ground arith

not-true : (a : Bool) → not a ≡ true → a ≡ false
not-true a h = ground arith

not_both : (a : Bool) → a ≡ true → not a ≡ true → ⊥
not_both a h k = ground arith

-- The characters to which git gives a meaning in a refspec or a revision, the space and the quotation
-- marks among them.
abbrev special : Text
special = codes " :~^?*[\\@{+!,;&|<>$#%=()\""

-- A text with none of them, which is not a name of a directory either.
abbrev pub IsSafe : Text → Type 0
IsSafe b =
    (all (λ c. not (any (λ d. c == d) special)) b ≡ true)
    × (same b (codes ".") ≡ false)
    × (same b (codes "..") ≡ false)

branch_char-other :
    (c : ℕ) (ds : Text)
    → is_branch_char c ≡ true
    → all (λ d. not (is_branch_char d)) ds ≡ true
    → any (λ d. c == d) ds ≡ false
branch_char-other c [] h k = refl
branch_char-other c (d ∷ ds) h k =
    let (apart, rest) =
      and_true (not (is_branch_char d)) (all (λ e. not (is_branch_char e)) ds) k in
    elim (Bool-cases (c == d)) [
      | inl e ↦
          let both : is_branch_char d ≡ true =
            subst (λ x. is_branch_char x ≡ true) ((==_iff c d).0 e) h in
          absurd (not_both (is_branch_char d) both apart)
      | inr e ↦ rw e (branch_char-other c ds h rest)
    ]

branch_chars-IsSafe :
    (b : Text) → all is_branch_char b ≡ true → all (λ c. not (any (λ d. c == d) special)) b ≡ true
branch_chars-IsSafe [] h = refl
branch_chars-IsSafe (c ∷ b) h =
    let (first, rest) = and_true (is_branch_char c) (all is_branch_char b) h in
    rw (branch_char-other c special first refl) (branch_chars-IsSafe b rest)

valid-IsSafe : (b : Text) → is_valid_branch_name b ≡ true → IsSafe b
unfolding is_valid_branch_name is_empty same
valid-IsSafe [] h = (refl, refl, refl)
valid-IsSafe (c ∷ b) h =
    let (chars, names) = and_true (all is_branch_char (c ∷ b)) _ h in
    let (dot, dots) = and_true (not (same (c ∷ b) (codes "."))) _ names in
    (branch_chars-IsSafe (c ∷ b) chars, not-true _ dot, not-true _ dots)

-- The branch names of every task of the table are safe.
abbrev pub SafeBranches : Table SyncTask → Type 0
SafeBranches tasks =
    (k : String) (t : SyncTask)
    → lookup k tasks ≡ some t
    → IsSafe t.source_branch × IsSafe t.target_branch

text_or-IsSafe :
    (new old : Text) → is_valid_branch_name new ≡ true → IsSafe old → IsSafe (text_or new old)
unfolding is_empty
text_or-IsSafe [] old h k = k
text_or-IsSafe (c ∷ new) old h k = valid-IsSafe (c ∷ new) h

abbrev task_or : SyncTask → Option SyncTask → SyncTask
task_or t none = t
task_or t (some u) = u

insert-SafeBranches :
    (key : String) (t : SyncTask) (tasks : Table SyncTask)
    → IsSafe t.source_branch
    → IsSafe t.target_branch
    → SafeBranches tasks
    → SafeBranches (insert key t tasks)
insert-SafeBranches key t tasks a b h k u e = elim (Bool-cases (key =ˢ k)) [
  | inl found ↦
      let is_new : some t ≡ some u = ground (arith, e, found, lookup-insert key k t tasks) in
      let which : t ≡ u = ap (λ (o : Option SyncTask). task_or t o) is_new in
      subst (λ (x : SyncTask). IsSafe x.source_branch × IsSafe x.target_branch) which (a, b)
  | inr other ↦ h k u (ground (arith, e, other, lookup-insert key k t tasks))
]

-- Creating and updating a task keep the branch names of all tasks of the table free of the characters
-- that mean something to git in a refspec or a revision, such as a colon, a tilde or a star, and
-- different from `.` and `..`, whatever the request asks for.
pub edits_keep_branches_safe :
    (tasks : Table SyncTask)
    → SafeBranches tasks
    → ((id : ℕ) (key token : String) (req : CreateTaskRequest)
        → SafeBranches (create_task id key token req tasks).1)
      × ((req : UpdateTaskRequest) → SafeBranches (update_task req tasks).1)
unfolding create_task update_task
edits_keep_branches_safe tasks h = (
  (λ id key token req. elim (Bool-cases (is_valid_branch_name req.source_branch)) [
    | inl a ↦ elim (Bool-cases (is_valid_branch_name req.target_branch)) [
      | inl b ↦
          rw (a, b, create_task)
            (insert-SafeBranches key (new_task id key token req) tasks
              (unfold new_task in valid-IsSafe req.source_branch a)
              (unfold new_task in valid-IsSafe req.target_branch b) h)
      | inr b ↦ rw (a, b, create_task) h
    ]
    | inr a ↦ rw (a, create_task) h
  ]),
  (λ req. elim (Option-cases (lookup req.key tasks)) [
    | inl missing ↦ rw (missing, update_task) h
    | inr (task, found) ↦ elim (Bool-cases (is_valid_branch_name req.source_branch)) [
      | inl a ↦ elim (Bool-cases (is_valid_branch_name req.target_branch)) [
        | inl b ↦
            let (c, d) = h req.key task found in
            rw (found, a, b, update_task)
              (insert-SafeBranches req.key (updated_task req task) tasks
                (unfold updated_task in text_or-IsSafe req.source_branch task.source_branch a c)
                (unfold updated_task in text_or-IsSafe req.target_branch task.target_branch b d) h)
        | inr b ↦ rw (found, a, b, update_task) h
      ]
      | inr a ↦ rw (found, a, update_task) h
    ]
  ]),
)
