-- ===== src/Platforms/Store/Defaults.antt =====
-- The default platform that `SetDefault` leaves.
use git_sync_core.Prelude.{
  ◌≡◌, refl, ap, Bool, true, false, String, Option, none, some, List, [], ◌∷◌, map, arith, ◌=ˢ◌,
}
use git_sync_core.Model.Entities.{Platform}
use git_sync_core.Executor.Errors.{GoError}
use git_sync_core.Platforms.Store.{Row, find_rows, update_rows, has_key, set_default}

abbrev pub as_default : Bool → Platform → Platform
as_default b p = record p { is_default = b }

abbrev made_default : String → List Row → List Row
made_default key rows =
    update_rows (has_key key) (as_default true)
      (update_rows (λ p. p.is_default) (as_default false) rows)

defaults_of_row :
    (key : String) (deleted : Bool) (p : Platform) (rows : List Row)
    → find_rows (λ p. p.is_default) (made_default key rows)
      ≡ map (as_default true) (find_rows (has_key key) rows)
    → (was named : Bool) → p.is_default ≡ was
    → (p.key =ˢ key) ≡ named
    → find_rows
        (λ p. p.is_default)
        (made_default key (record { platform = p; deleted = deleted } ∷ rows))
      ≡ map
          (as_default true)
          (find_rows (has_key key) (record { platform = p; deleted = deleted } ∷ rows))
unfolding find_rows update_rows has_key
defaults_of_row key true p rows rest was named e f = rest
defaults_of_row key false p rows rest true true e f =
    simp (e, f) (ap (λ (ps : List Platform). as_default true p ∷ ps) rest)
defaults_of_row key false p rows rest true false e f = simp (e, f) rest
defaults_of_row key false p rows rest false true e f =
    simp (e, f) (ap (λ (ps : List Platform). as_default true p ∷ ps) rest)
defaults_of_row key false p rows rest false false e f = simp (e, f) rest

defaults-made_default :
    (key : String) (rows : List Row)
    → find_rows (λ p. p.is_default) (made_default key rows)
      ≡ map (as_default true) (find_rows (has_key key) rows)
unfolding find_rows update_rows has_key
defaults-made_default key [] = refl
defaults-made_default key (r ∷ rows) =
    defaults_of_row key r.deleted r.platform rows (defaults-made_default key rows)
      r.platform.is_default (r.platform.key =ˢ key) refl refl

-- Once `SetDefault` has succeeded, the default platforms are the visible platforms that the key named
-- before, each with its mark and otherwise unchanged: none where the key names none. Hypothesis: both
-- statements of the transaction succeed.
pub defaults_are_named :
    (clearing setting : Option GoError) (key : String) (rows : List Row)
    → (set_default clearing setting key rows).0 ≡ none
    → find_rows (λ p. p.is_default) (set_default clearing setting key rows).1
      ≡ map (as_default true) (find_rows (has_key key) rows)
unfolding set_default
defaults_are_named (some e) setting key rows h = ground arith
defaults_are_named none (some e) key rows h = ground arith
defaults_are_named none none key rows h = defaults-made_default key rows
