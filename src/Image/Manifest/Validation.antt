-- ===== src/Image/Manifest/Validation.antt =====
-- crates/ota-update/src/image/manifest.rs: what a validated manifest says of the files.
use ghaf_givc.Prelude.{
  ◌≡◌, refl, ap, ◌∙◌, ◌↔◌, inl, inr, Bool, true, arith, Bool-cases, ◌==◌, eq_iff, eq_refl, list_eq,
  option_eq, nat_eq, Error, ok, ensure, >>=-eq-ok, >>-eq-ok, missing_file, not_a_regular_file,
  checksum_mismatch,
}
use ghaf_givc.Text.{Text}
use ghaf_givc.Image.Manifest.{
  File, Manifest, FileSystem, full_name, check_sum, validate_file, validate,
}

module _ (fs : FileSystem) (base_dir : Text) (checksum : Bool) where
  -- The file is there, is a regular one, and has its checksum where checksums are wanted.
  pub record IsPresent (f : File) : Type 0 where
    pub exists : fs.try_exists (full_name f base_dir) ≡ ok true
    pub regular : fs.is_file (full_name f base_dir) ≡ ok true
    pub digest : checksum ≡ true → fs.read_sha256 (full_name f base_dir) ≡ ok f.sha256sum

  ensure-eq-ok : (b : Bool) (e : Error) → ensure b e ≡ ok tt → b ≡ true
  ensure-eq-ok b e h = ground arith

  check_sum_sound :
      (f : File) (path : Text)
      → check_sum fs base_dir checksum f path ≡ ok tt
      → fs.read_sha256 path ≡ ok f.sha256sum
  unfolding check_sum
  check_sum_sound f path h =
      let (actual, read, same) = >>=-eq-ok (fs.read_sha256 path) _ h in
      let e : actual ≡ f.sha256sum =
        (eq_iff actual f.sha256sum).0
          (ensure-eq-ok (actual == f.sha256sum) checksum_mismatch same) in
      read ∙ ap ok e

  check_sum_complete :
      (f : File) (path : Text)
      → fs.read_sha256 path ≡ ok f.sha256sum
      → check_sum fs base_dir checksum f path ≡ ok tt
  unfolding check_sum
  check_sum_complete f path h = rw (h, eq_refl f.sha256sum) refl

  validate_file_sound : (f : File) → validate_file fs base_dir checksum f ≡ ok tt → IsPresent f
  unfolding validate_file
  validate_file_sound f h =
      let path = full_name f base_dir in
      let (exists, e, h1) = >>=-eq-ok (fs.try_exists path) _ h in
      let (there, h2) = >>-eq-ok (ensure exists missing_file) _ h1 in
      let (regular, r, h3) = >>=-eq-ok (fs.is_file path) _ h2 in
      let (plain, h4) = >>-eq-ok (ensure regular not_a_regular_file) _ h3 in
      record {
        exists = e ∙ ap ok (ensure-eq-ok exists missing_file there);
        regular = r ∙ ap ok (ensure-eq-ok regular not_a_regular_file plain);
        digest = λ c. check_sum_sound f path (rw c at h4);
      }

  validate_file_complete : (f : File) → IsPresent f → validate_file fs base_dir checksum f ≡ ok tt
  unfolding validate_file
  validate_file_complete f p = elim (Bool-cases checksum) [
    | inl c ↦ rw (p.exists, p.regular, c) (check_sum_complete f (full_name f base_dir) (p.digest c))
    | inr c ↦ rw (p.exists, p.regular, c) refl
  ]

-- A manifest is accepted exactly if each of its three files is there and regular, and has the
-- checksum of the manifest where checksums are wanted.
pub validate_iff :
    (fs : FileSystem) (base_dir : Text) (checksum : Bool) (m : Manifest)
    → (validate fs base_dir checksum m ≡ ok tt) ↔ (
        IsPresent fs base_dir checksum m.kernel
        × IsPresent fs base_dir checksum m.store
        × IsPresent fs base_dir checksum m.verity)
unfolding validate
validate_iff fs base_dir checksum m =
    let file = validate_file fs base_dir checksum in
    (
      λ h.
          let (kernel, h1) = >>-eq-ok (file m.kernel) _ h in
          let (store, h2) = >>-eq-ok (file m.store) _ h1 in
          let (verity, _) = >>-eq-ok (file m.verity) _ h2 in
          (
            validate_file_sound fs base_dir checksum m.kernel kernel,
            validate_file_sound fs base_dir checksum m.store store,
            validate_file_sound fs base_dir checksum m.verity verity,
          ),
      λ p.
          rw
            (
              validate_file_complete fs base_dir checksum m.kernel p.0,
              validate_file_complete fs base_dir checksum m.store p.1,
              validate_file_complete fs base_dir checksum m.verity p.2,
            )
            refl,
    )
