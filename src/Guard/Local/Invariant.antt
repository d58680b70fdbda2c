-- ===== src/Guard/Local/Invariant.antt =====
-- What the channel and the map say about the goroutines, in every reachable state.
use git_sync_core.Prelude.{
  ℕ, zero, suc, ◌≤◌, ◌<◌, ◌≡◌, refl, sym, [], inl, inr, Option-cases, Bool-cases, ◌=ˢ◌, String,
  some, arith, eq_iff, lookup, lookup-insert, lookup-remove,
}
use git_sync_core.Prelude.Families.{at, tally, tally-at, tally_none}
use git_sync_core.Prelude.Int.{ℤ, pos, negsuc}
use git_sync_core.Guard.Local.{
  LocalGuard, new_local_guard, Pc, outside, slot, holding, move, System, Step, pick, Reach, here,
  next,
}

-- A goroutine that is inside has one value in the channel.
abbrev pub inside : Pc → ℕ
inside outside = 0
inside _ = 1

abbrev pub running : Pc → ℕ
running (holding _) = 1
running _ = 0

pub record Inv (n : ℕ) (g : LocalGuard) (pc : ℕ → Pc) : Type 0 where
  pub counted : g.sem ≡ tally inside n pc
  pub bounded : g.sem ≤ g.limit
  pub marked : (i : ℕ) (k : String) → pc i ≡ holding k → lookup k g.running_tasks ≡ some tt
  pub owned : (k : String) → lookup k g.running_tasks ≡ some tt → (i : ℕ) × (pc i ≡ holding k)
  pub unique : (i j : ℕ) (k : String) → pc i ≡ holding k → pc j ≡ holding k → i ≡ j

empty-Inv : (n top : ℕ) → Inv n (record { running_tasks = []; sem = 0; limit = top }) (λ _. outside)
unfolding lookup
empty-Inv n top = record {
  counted = sym (tally_none inside n (λ _. outside) (λ _. refl));
  bounded = omega arith;
  marked = λ i k e. cc;
  owned = λ k e. cc;
  unique = λ i j k e f. cc;
}

start-Inv : (n : ℕ) (max : ℤ) → Inv n (new_local_guard max) (λ _. outside)
unfolding new_local_guard
start-Inv n (pos zero) = empty-Inv n 5
start-Inv n (pos (suc m)) = empty-Inv n (suc m)
start-Inv n (negsuc m) = empty-Inv n 5

module _ {n : ℕ} {g : LocalGuard} {pc : ℕ → Pc} (inv : Inv n g pc) (i : ℕ) (lt : i < n)
    (key : String) where
  open inv use {counted, bounded, marked, owned, unique}

  move-counted :
      (p : Pc)
      → pc i ≡ p
      → ((move key g p).0.sem ≡ tally inside n (at pc i (move key g p).1))
        × ((move key g p).0.sem ≤ (move key g p).0.limit)
  unfolding move
  move-counted p e = ground (arith, tally-at inside n pc i (move key g p).1 lt)

  move-marked :
      (p : Pc)
      → pc i ≡ p
      → (j : ℕ) (k : String) → at pc i (move key g p).1 j ≡ holding k
      → lookup k (move key g p).0.running_tasks ≡ some tt
  unfolding move
  move-marked (slot q) e j k h =
      ground (arith, marked j k, lookup-insert q k tt g.running_tasks, eq_iff q k)
  move-marked (holding q) e j k h =
      ground (arith, marked j k, lookup-remove q k g.running_tasks, eq_iff q k, unique i j k)
  move-marked _ e j k h = ground (arith, marked j k)

  move-owned :
      (p : Pc)
      → pc i ≡ p
      → (k : String) → lookup k (move key g p).0.running_tasks ≡ some tt
      → (j : ℕ) × (at pc i (move key g p).1 j ≡ holding k)
  unfolding move
  move-owned (slot q) e k h = elim (Option-cases (lookup q g.running_tasks)) [
    | inl free ↦ elim (Bool-cases (q =ˢ k)) [
      | inl same ↦ (i, ground (arith, eq_iff q k))
      | inr other ↦
          let (j, held) =
            owned k (ground (arith, lookup-insert q k tt g.running_tasks, eq_iff q k)) in
          (j, ground arith)
    ]
    | inr (_, busy) ↦ let (j, held) = owned k (ground arith) in (j, ground arith)
  ]
  move-owned (holding q) e k h =
      let (j, held) = owned k (ground (arith, lookup-remove q k g.running_tasks, eq_iff q k)) in
      (j, ground (arith, lookup-remove q k g.running_tasks, eq_iff q k))
  move-owned _ e k h = let (j, held) = owned k (ground arith) in (j, ground arith)

  move_unique :
      (p : Pc)
      → pc i ≡ p
      → (j l : ℕ) (k : String) → at pc i (move key g p).1 j ≡ holding k
      → at pc i (move key g p).1 l ≡ holding k
      → j ≡ l
  unfolding move
  move_unique (slot q) e j l k hj hl = ground (arith, unique j l k, marked j k, marked l k)
  move_unique _ e j l k hj hl = ground (arith, unique j l k)

  move-Inv : Inv n (move key g (pc i)).0 (at pc i (move key g (pc i)).1)
  move-Inv = record {
    counted = (move-counted (pc i) refl).0;
    bounded = (move-counted (pc i) refl).1;
    marked = move-marked (pc i) refl;
    owned = move-owned (pc i) refl;
    unique = move_unique (pc i) refl;
  }

Step-Inv : {n : ℕ} {s t : System} → Step n s t → Inv n s.guard s.pc → Inv n t.guard t.pc
Step-Inv (pick i key lt) inv = move-Inv inv i lt key

pub Reach-Inv : {n : ℕ} {max : ℤ} {s : System} → Reach n max s → Inv n s.guard s.pc
Reach-Inv {n} {max} here = start-Inv n max
Reach-Inv (next r st) = Step-Inv st (Reach-Inv r)
