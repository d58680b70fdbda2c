-- ===== src/Lock/Semaphore/Tests.antt =====
-- The semaphore on a set in memory, and the theorems at it.
use git_sync_core.Prelude.{◌≡◌, refl, ◌≤◌, true, List, [], ◌∷◌, arith, insert, remove, length}
use git_sync_core.Lock.Redis.{answered, unanswered, unreached, reply}
use git_sync_core.Lock.Redis.Instances.{memory_set, Members, drop_scores}
use git_sync_core.Lock.Semaphore.{Semaphore, acquire}
use git_sync_core.Lock.Semaphore.Capacity.{
  Command, acquires, renews, releases, cleans, perform_all, card-le-max,
}

abbrev two_slots : Semaphore
two_slots = record { max = 2; slot_ttl = 30 }

-- "a" has run out at 100, "b" has not.
abbrev members : Members
members = ("a", 90) ∷ ("b", 120) ∷ []

abbrev traffic : List Command
traffic =
    acquires answered 100 100 "c"
    ∷ acquires unanswered 101 101 "d"
    ∷ renews answered 102 "a"
    ∷ releases unreached "b"
    ∷ cleans answered 200 10
    ∷ []

reclaims :
    acquire memory_set answered two_slots 100 101 "c" members
    ≡ (reply true, ("b", 120) ∷ ("c", 131) ∷ [])
unfolding acquire drop_scores insert remove
reclaims = refl

card-le-max_example : length (perform_all memory_set two_slots members traffic) ≤ 2
card-le-max_example = card-le-max memory_set two_slots members traffic (omega arith)
