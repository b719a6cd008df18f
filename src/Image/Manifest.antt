-- ===== src/Image/Manifest.antt =====
-- crates/ota-update/src/image/manifest.rs: the description of an image and its files.
pub mod Paths
pub mod Validation
use ghaf_givc.Prelude.{
  ℕ, ◌+◌, ◌-◌, ◌*◌, ◌/◌, ◌%◌, ◌^◌, ◌≤◌, ◌<◌, ◌≡◌, ◌∙◌, ◌≢◌, ◌↔◌, ◌⊎◌, Bool, not, ◌&&◌, ◌||◌, Option,
  none, some, List, [], ◌∷◌, ◌++◌, if◌then◌else◌, Bool-cases, &&-eq-true, Option-cases, is_some_and,
  ◌==◌, ne→eq_false, list_beq, list_eq, option_eq, nat_eq, length-append, length-take_of_le,
  take-append, drop-append, Result, ok, err, panic, ◌>>=◌, ◌>>◌, ensure, >>=-eq-ok, >>-eq-ok,
  Result-cases, absolute_path, parent_dir_in_path, empty_path, non_relative_path, missing_file,
  not_a_regular_file, checksum_mismatch,
}
use mathlib.Core.List.{append-nil}
use ghaf_givc.Text.{
  Text, codes, split_at_checked, join, components, Component, root_dir, cur_dir, parent_dir, normal,
  has_root, extension, eq_ignore_ascii_case,
}
use ghaf_givc.Image.Version.{Version}

pub record File : Type 0 where
  pub name : Text
  pub sha256sum : List ℕ
  pub unpacked_size : Option ℕ

pub record Manifest : Type 0 where
  pub meta : List (Text × Text)
  pub manifest_version : ℕ
  pub system : Option Text
  pub version : Text
  pub root_verity_hash : Text
  pub kernel : File
  pub store : File
  pub verity : File

-- `&self.root_verity_hash[..16]` panics where the text is shorter.
unfoldable pub hash_fragment : Manifest → Result Text
hash_fragment m = elim (split_at_checked 16 m.root_verity_hash) [
  | some (l, r) ↦ ok l
  | none ↦ panic
]

unfoldable pub to_version : Manifest → Result Version
to_version m = do
  fragment ← hash_fragment m
  ok (record { revision = m.version; hash = some fragment })

unfoldable pub full_name : File → Text → Text
unfolding join
full_name f base_dir = join base_dir f.name

unfoldable pub is_compressed : File → Bool
unfolding extension eq_ignore_ascii_case
is_compressed f = is_some_and (λ ext. eq_ignore_ascii_case ext (codes "zst")) (extension f.name)

-- The loop over the components: each normal one is pushed onto `out`.
unfoldable pub push_components : Text → List Component → Result Text
push_components out [] = ok out
push_components out (normal item ∷ cs) = push_components (join out item) cs
push_components out (cur_dir ∷ cs) = push_components out cs
push_components out (parent_dir ∷ cs) = err parent_dir_in_path
push_components out (root_dir ∷ cs) = err non_relative_path

unfoldable pub normalize_relative_path : Text → Result Text
unfolding push_components components list_beq
normalize_relative_path value = do
  ensure (not (has_root value)) absolute_path
  out ← push_components [] (components value)
  ensure (not (out == [])) empty_path
  ok out

unfoldable pub normalize_path : File → Result File
normalize_path f = do name ← normalize_relative_path f.name; ok (record f { name = name })

unfoldable pub normalize_paths : Manifest → Result Manifest
normalize_paths m = do
  kernel ← normalize_path m.kernel
  store ← normalize_path m.store
  verity ← normalize_path m.verity
  ok (record m { kernel = kernel; store = store; verity = verity })

-- The file system, as far as validation asks it.
pub record FileSystem : Type 0 where
  pub try_exists : Text → Result Bool
  pub is_file : Text → Result Bool
  pub read_sha256 : Text → Result (List ℕ)

module _ (fs : FileSystem) (base_dir : Text) (checksum : Bool) where
  -- The optional comparison of the checksums.
  unfoldable pub check_sum : File → Text → Result (Unit {0})
  check_sum f path = do
    actual ← fs.read_sha256 path
    ensure (actual == f.sha256sum) checksum_mismatch

  unfoldable pub validate_file : File → Result (Unit {0})
  unfolding check_sum
  validate_file f = do
    let path = full_name f base_dir
    exists ← fs.try_exists path
    ensure exists missing_file
    regular ← fs.is_file path
    ensure regular not_a_regular_file
    if checksum then check_sum f path else ok tt

  unfoldable pub validate : Manifest → Result (Unit {0})
  validate m = do validate_file m.kernel; validate_file m.store; validate_file m.verity; ok tt
