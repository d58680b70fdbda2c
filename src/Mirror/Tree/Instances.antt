-- ===== src/Mirror/Tree/Instances.antt =====
-- An object store in memory, which refuses an object whose hash is taken by another. It shows that what
-- is asked of git's store can be had, for any hash.
use mathlib.Core.Logic.{ite, dite, if_pos, if_neg}
use mathlib.Core.Bool.{true, Bool-discrete}
use native.Mathlib.Decide.{ℕ_discrete}
use git_sync_core.Prelude.{
  ℕ, zero, suc, ◌≡◌, ap, ◌∙◌, none, some, ◌⊎◌, inl, inr, String, Table, lookup, insert,
  lookup-insert, codes, arith, eq_iff, ◌=ˢ◌, Option-cases, length,
}
use git_sync_core.Executor.Errors.{new_error}
use git_sync_core.Executor.Environment.{Outcome, done, error}
use git_sync_core.Mirror.Tree.{Hash, Object, blob, tree, commit, tag, ObjectStore}
use git_sync_core.Mirror.Tree.Refines.{IsAddressed}

unfoldable String-discrete : Discrete String
String-discrete s t =
    dite (Bool-discrete (s =ˢ t) true) (λ same. yes ((eq_iff s t).0 same))
      (λ differ. no (λ p. differ ((eq_iff s t).1 p)))

unfoldable Object-discrete : Discrete Object
unfolding String-discrete
Object-discrete = hlevel (ℕ_discrete, String-discrete)

unfoldable pub unary : ℕ → String
unary zero = ""
unary (suc n) = String.◌∷◌ "x" (unary n)

-- A poor hash.
unfoldable pub digest : Object → Hash
unfolding unary
digest (blob contents) = String.◌∷◌ "b" (unary (length contents))
digest (tree es) = String.◌∷◌ "t" (unary (length es))
digest (commit c) = String.◌∷◌ "c" (unary (length c.message))
digest (tag t) = String.◌∷◌ "g" (unary (length t.message))

unfoldable pub memory_put : Object → Table Object → Outcome Hash × Table Object
unfolding Object-discrete
memory_put o s = elim (lookup (digest o) s) [
  | none ↦ (done (digest o), insert (digest o) o s)
  | some p ↦
      ite (Object-discrete p o) (done (digest o), s) (error (new_error (codes "collision")), s)
]

abbrev pub memory : ObjectStore
memory = record { State = Table Object; get = lookup; put = memory_put }

-- The three ways in which an object is put.
put-cases :
    (o : Object) (s : Table Object)
    → ((lookup (digest o) s ≡ none) × (memory_put o s ≡ (done (digest o), insert (digest o) o s)))
      ⊎ (((lookup (digest o) s ≡ some o) × (memory_put o s ≡ (done (digest o), s)))
          ⊎ (memory_put o s ≡ (error (new_error (codes "collision")), s)))
unfolding memory_put
put-cases o s = elim (Option-cases (lookup (digest o) s)) [
  | inl e ↦ inl (e, rw (memory_put, e))
  | inr (p, e) ↦ elim (Object-discrete p o) [
    | yes same ↦ inr (
        inl (
          e ∙ ap some same,
          rw (memory_put, e)
              (if_pos (Object-discrete p o) same _ (error (new_error (codes "collision")), s)),
        ))
    | no differ ↦
        inr (inr (rw (memory_put, e) (if_neg (Object-discrete p o) differ (done (digest o), s) _)))
  ]
]

pub memory-IsAddressed : IsAddressed memory digest
memory-IsAddressed = record {
  put-hash = λ o s e. elim (put-cases o s) [
    | inl (absent, q) ↦ ground arith
    | inr (inl (there, q)) ↦ ground arith
    | inr (inr q) ↦ absurd (ground arith)
  ];
  put-get = λ o s e. elim (put-cases o s) [
    | inl (absent, q) ↦ rw (q, lookup-insert) (ground (arith, eq_iff (digest o) (digest o)))
    | inr (inl (there, q)) ↦ rw q there
    | inr (inr q) ↦ absurd (ground arith)
  ];
  put_keeps = λ o s k p h. elim (put-cases o s) [
    | inl (absent, q) ↦ rw (q, lookup-insert) (ground (arith, eq_iff (digest o) k))
    | inr (inl (there, q)) ↦ rw q h
    | inr (inr q) ↦ rw q h
  ];
}
