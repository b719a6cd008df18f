-- ===== src/Image/Artifacts/Prune.antt =====
-- crates/ota-update/src/registry/mod.rs: the removal of old downloads.
pub mod Stale
pub mod Walk
use ghaf_givc.Prelude.{
  ℕ, zero, suc, ◌+◌, Bool, true, false, Option, none, some, List, [], ◌∷◌, ◌++◌, map, leb,
  if◌then◌else◌, list_eq, option_eq, nat_eq, drop, Error, Result, ok, err, panic, ◌>>=◌, ◌>>◌,
}
use ghaf_givc.Text.{Text}

mutual
  -- A directory, as the file system answers: its path, whether a `manifest.json` is there, its
  -- metadata, of which the time of the last change is read where it is known, and its listing.
  pub data Dir : Type 0 where
    dir : Text → Result Bool → Result (Option ℕ) → Dirs → Dir

  -- The directories of a listing, in its order; the listing may fail at any point.
  pub data Dirs : Type 0 where
    no_dirs : Dirs
    more_dirs : Dir → Dirs → Dirs
    listing_fails : Error → Dirs

-- A download: the directory's path and its time.
pub record Tag : Type 0 where
  pub path : Text
  pub modified : Option ℕ

-- The listing is read to its end before anything else is asked.
unfoldable pub read_listing : Dirs → Result (Unit {0})
read_listing no_dirs = ok tt
read_listing (more_dirs d ds) = read_listing ds
read_listing (listing_fails e) = err e

-- The metadata is asked for where there is a manifest.
abbrev pub tag_of : Dir → Result (List Tag)
tag_of (dir path held modified subdirs) = do
  exists ← held
  if exists then (modified >>= λ time. ok (record { path = path; modified = time } ∷ [])) else ok []

unfoldable pub find_tags : Dirs → Result (List Tag)
find_tags no_dirs = ok []
find_tags (more_dirs d ds) = do first ← tag_of d; rest ← find_tags ds; ok (first ++ rest)
find_tags (listing_fails e) = err e

unfoldable pub tags_in : Dirs → Result (List Tag)
tags_in subdirs = do read_listing subdirs; find_tags subdirs

-- The order of `Option`: an unknown time is the least.
abbrev pub not_after : Option ℕ → Option ℕ → Bool
not_after none b = true
not_after (some m) none = false
not_after (some m) (some n) = leb m n

-- `sort_by`, which is stable: the newest first.
unfoldable pub insert_newest : Tag → List Tag → List Tag
insert_newest x [] = x ∷ []
insert_newest x (y ∷ ys) =
    if not_after y.modified x.modified then x ∷ y ∷ ys else y ∷ insert_newest x ys

unfoldable pub newest_first : List Tag → List Tag
newest_first [] = []
newest_first (x ∷ xs) = insert_newest x (newest_first xs)

abbrev pub keep_per_repository : ℕ
keep_per_repository = 2

-- What is removed from a directory with downloads.
unfoldable pub stale : List Tag → List Tag
stale tags = drop keep_per_repository (newest_first tags)

-- `stack.extend`; the list begins with the top of the stack.
unfoldable pub extend : Dirs → List Dir → List Dir
extend no_dirs stack = stack
extend (more_dirs d ds) stack = extend ds (d ∷ stack)
extend (listing_fails e) stack = stack

abbrev pub paths_of : List Tag → List Text
paths_of tags = map (λ t. t.path) tags

-- What has been removed, and how it ended.
abbrev pub Removal : Type 0
Removal = Result (Unit {0}) × List Text

abbrev pub and_then : Removal → Removal → Removal
and_then (ok _, removed) (end, later) = (end, removed ++ later)
and_then (err e, removed) next = (err e, removed)
and_then (panic, removed) next = (panic, removed)

abbrev pub after : Removal → Option Removal → Option Removal
after first none = none
after first (some next) = some (and_then first next)

abbrev pub then_run : Removal → Option Removal → Option Removal
then_run (ok u, removed) rest = after (ok u, removed) rest
then_run (err e, removed) rest = some (err e, removed)
then_run (panic, removed) rest = some (panic, removed)

module _ (remove_dir : Text → Result (Unit {0})) where
  abbrev pub removed_one : Result (Unit {0}) → Text → Removal
  removed_one (ok _) path = (ok tt, path ∷ [])
  removed_one (err e) path = (err e, [])
  removed_one panic path = (panic, [])

  -- An error ends the loop.
  unfoldable pub remove_each : List Text → Removal
  remove_each [] = (ok tt, [])
  remove_each (path ∷ paths) = and_then (removed_one (remove_dir path) path) (remove_each paths)

  -- The loop over the stack, for as many rounds as the fuel gives.
  unfoldable pub prune_stack : ℕ → List Dir → Option Removal
  prune_stack zero stack = none
  prune_stack (suc fuel) [] = some (ok tt, [])
  prune_stack (suc fuel) (dir path held modified subdirs ∷ stack) = elim (tags_in subdirs) [
    | ok [] ↦ prune_stack fuel (extend subdirs stack)
    | ok (t ∷ tags) ↦ then_run (remove_each (paths_of (stale (t ∷ tags)))) (prune_stack fuel stack)
    | err e ↦ some (err e, [])
    | panic ↦ some (panic, [])
  ]

unfoldable mutual
  -- The number of directories.
  pub size : Dir → ℕ
  size (dir path held modified subdirs) = suc (sizes subdirs)

  pub sizes : Dirs → ℕ
  sizes no_dirs = 0
  sizes (more_dirs d ds) = size d + sizes ds
  sizes (listing_fails e) = 0

abbrev pub run_prune : (Text → Result (Unit {0})) → Result (Unit {0}) → Dir → Option Removal
run_prune remove_dir (ok _) root = prune_stack remove_dir (size root + 1) (root ∷ [])
run_prune remove_dir (err e) root = some (err e, [])
run_prune remove_dir panic root = some (panic, [])

-- Nothing is done where there is no directory, and the lock is taken first.
unfoldable pub prune_downloaded_updates :
    (Text → Result (Unit {0})) → Result (Unit {0}) → Result (Option Dir) → Option Removal
prune_downloaded_updates remove_dir lock (ok none) = some (ok tt, [])
prune_downloaded_updates remove_dir lock (ok (some root)) = run_prune remove_dir lock root
prune_downloaded_updates remove_dir lock (err e) = some (err e, [])
prune_downloaded_updates remove_dir lock panic = some (panic, [])
