-- ===== src/Image/Artifacts/Prune/Walk.antt =====
-- crates/ota-update/src/registry/mod.rs: the walk over the directories with downloads.
use ghaf_givc.Prelude.{
  ℕ, zero, suc, ◌+◌, ◌<◌, ◌≡◌, refl, sym, ap, subst, ◌∙◌, Option, some, List, [], ◌∷◌, arith,
  list_eq, option_eq, nat_eq, Result, ok, err, panic,
}
use mathlib.Core.List.{append_assoc, append-nil}
use ghaf_givc.Text.{Text}
use ghaf_givc.Image.Artifacts.Prune.{
  Dir, dir, Dirs, no_dirs, more_dirs, listing_fails, Tag, tags_in, stale, extend, paths_of, Removal,
  and_then, then_run, remove_each, prune_stack, size, sizes, prune_downloaded_updates,
}
use ghaf_givc.Image.Artifacts.Prune.Stale.{IsSplit, stale-IsSplit}

then_run-some : (first next : Removal) → then_run first (some next) ≡ some (and_then first next)
then_run-some (ok u, removed) next = refl
then_run-some (err e, removed) next = refl
then_run-some (panic, removed) next = refl

and_then_assoc : (a b c : Removal) → and_then (and_then a b) c ≡ and_then a (and_then b c)
and_then_assoc (ok _, x) (ok _, y) (end, z) = ap (λ l. (end, l)) (append_assoc x y z)
and_then_assoc (ok _, x) (err e, y) c = refl
and_then_assoc (ok _, x) (panic, y) c = refl
and_then_assoc (err e, x) b c = refl
and_then_assoc (panic, x) b c = refl

module _ (remove_dir : Text → Result (Unit {0})) where
  -- What is done with a directory, by its downloads or the error in finding them; `below` is what
  -- is done with the directories in it.
  abbrev pub pruned_by : Result (List Tag) → Removal → Removal
  pruned_by (ok []) below = below
  pruned_by (ok (t ∷ tags)) below = remove_each remove_dir (paths_of (stale (t ∷ tags)))
  pruned_by (err e) below = (err e, [])
  pruned_by panic below = (panic, [])

  mutual
    -- The pruning of a directory by recursion: its old downloads, if it has downloads in it; else
    -- what is in it, the last directory first. An error ends it.
    pub pruned : Dir → Removal
    pruned (dir path held modified subdirs) = pruned_by (tags_in subdirs) (pruned_in subdirs)

    pub pruned_in : Dirs → Removal
    pruned_in no_dirs = (ok tt, [])
    pruned_in (more_dirs d ds) = and_then (pruned_in ds) (pruned d)
    pruned_in (listing_fails e) = (ok tt, [])

  abbrev pruned_all : List Dir → Removal
  pruned_all [] = (ok tt, [])
  pruned_all (d ∷ stack) = and_then (pruned d) (pruned_all stack)

  abbrev total_size : List Dir → ℕ
  total_size [] = 0
  total_size (d ∷ stack) = size d + total_size stack

  pruned_all-extend :
      (ds : Dirs) (stack : List Dir)
      → pruned_all (extend ds stack) ≡ and_then (pruned_in ds) (pruned_all stack)
  unfolding extend pruned_in
  pruned_all-extend no_dirs stack = refl
  pruned_all-extend (more_dirs d ds) stack =
      pruned_all-extend ds (d ∷ stack)
      ∙ sym (and_then_assoc (pruned_in ds) (pruned d) (pruned_all stack))
  pruned_all-extend (listing_fails e) stack = refl

  total_size-extend :
      (ds : Dirs) (stack : List Dir) → total_size (extend ds stack) ≡ sizes ds + total_size stack
  unfolding extend sizes
  total_size-extend no_dirs stack = omega arith
  total_size-extend (more_dirs d ds) stack = omega (arith, total_size-extend ds (d ∷ stack))
  total_size-extend (listing_fails e) stack = omega arith

  -- One round, by what was found.
  abbrev walked : ℕ → Dirs → List Dir → Result (List Tag) → Option Removal
  walked fuel subdirs stack found = elim found [
    | ok [] ↦ prune_stack remove_dir fuel (extend subdirs stack)
    | ok (t ∷ tags) ↦
        then_run (remove_each remove_dir (paths_of (stale (t ∷ tags))))
          (prune_stack remove_dir fuel stack)
    | err e ↦ some (err e, [])
    | panic ↦ some (panic, [])
  ]

  walked-pruned :
      (fuel : ℕ) (subdirs : Dirs) (stack : List Dir) (found : Result (List Tag))
      → prune_stack remove_dir fuel (extend subdirs stack)
        ≡ some (pruned_all (extend subdirs stack))
      → prune_stack remove_dir fuel stack ≡ some (pruned_all stack)
      → walked fuel subdirs stack found
        ≡ some (and_then (pruned_by found (pruned_in subdirs)) (pruned_all stack))
  walked-pruned fuel subdirs stack (ok []) below beside =
      below ∙ ap some (pruned_all-extend subdirs stack)
  walked-pruned fuel subdirs stack (ok (t ∷ tags)) below beside =
      let removal = remove_each remove_dir (paths_of (stale (t ∷ tags))) in
      ap (then_run removal) beside ∙ then_run-some removal (pruned_all stack)
  walked-pruned fuel subdirs stack (err e) below beside = refl
  walked-pruned fuel subdirs stack panic below beside = refl

  prune_stack_total :
      (fuel : ℕ) (stack : List Dir)
      → total_size stack < fuel
      → prune_stack remove_dir fuel stack ≡ some (pruned_all stack)
  unfolding prune_stack pruned size
  prune_stack_total zero stack few = absurd (omega arith)
  prune_stack_total (suc fuel) [] few = refl
  prune_stack_total (suc fuel) (dir path held modified subdirs ∷ stack) few =
      let smaller : sizes subdirs + total_size stack < fuel = omega (arith, few) in
      walked-pruned fuel subdirs stack (tags_in subdirs)
        (prune_stack_total fuel (extend subdirs stack)
          (subst (λ n. n < fuel) (sym (total_size-extend subdirs stack)) smaller))
        (prune_stack_total fuel stack (omega arith))

and_then-nil : (a : Removal) → and_then a (ok tt, []) ≡ a
and_then-nil (ok _, removed) = ap (λ l. (ok tt, l)) (append-nil removed)
and_then-nil (err e, removed) = refl
and_then-nil (panic, removed) = refl

-- With the lock, and where the directory is there, the pruning always ends, and comes to what the
-- recursion over the directories gives: in a directory that holds downloads all of them but two, none
-- newer than those two, are removed, one after the other, and nothing below it is looked at; of any
-- other directory the directories in it are pruned, the last one first. The first error of a listing,
-- of the search for manifests, of the metadata or of a removal ends it, and what was removed before
-- stays removed.
pub prune_downloaded_updates_total :
    (remove_dir : Text → Result (Unit {0})) (root : Dir)
    → (prune_downloaded_updates remove_dir (ok tt) (ok (some root)) ≡ some (pruned remove_dir root))
      × ((tags : List Tag) → (kept : List Tag) × IsSplit tags kept (stale tags))
unfolding prune_downloaded_updates
prune_downloaded_updates_total remove_dir root = (
  prune_stack_total remove_dir (size root + 1) (root ∷ []) (omega arith)
      ∙ ap some (and_then-nil (pruned remove_dir root)),
  stale-IsSplit,
)
