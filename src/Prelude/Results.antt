-- ===== src/Prelude/Results.antt =====
-- `anyhow::Result`, with a panic as an outcome of its own. An error is named for its message.
use mathlib.Core.Path.{◌≡◌, refl}
use mathlib.Core.Bool.{Bool, true, false}
use mathlib.Core.Logic.{◌⊎◌, inl, inr}
use mathlib.Core.Option.{Option, none, some}
use mathlib.Core.List.{List, [], ◌∷◌}

pub data Error : Type 0 where
  missing_version empty_name unknown_kind slot_already_used : Error
  not_an_efi invalid_uki_prefix invalid_remaining invalid_used missing_hash empty_revision : Error
  duplicate_slot multiple_ukis already_has_uki : Error
  root_verity_mismatch uki_root_mismatch uki_verity_mismatch empty_group_contains_uki : Error
  absolute_path parent_dir_in_path empty_path non_relative_path : Error
  missing_file not_a_regular_file checksum_mismatch : Error
  invalid_verity_hash ambiguous_slot slot_not_found no_active_slot : Error
  active_without_root active_without_verity unknown_size unparsed_created_slot : Error
  identifiers_exhausted no_root_volume no_verity_volume no_uki_name cannot_remove_active : Error
  unknown_unit_type unknown_protocol invalid_number : Error
  status_missing endpoint_missing bad_vm_status bad_trust_level : Error
  bad_vm_type bad_service_type : Error
  repeated_initial missing_item not_an_application : Error
  not_registered no_entries_match no_service more_than_one_service managed_by_other its_a_host :
      Error
  no_worker invalid_service_name empty_tokens permission_denied missing_hostname bad_request : Error
  missing_unit_status vm_not_loaded unable_to_launch unit_not_loaded failed_to_stop : Error
  failed_to_pause failed_to_resume no_assignments empty_locale invalid_locale : Error
  invalid_locale_key invalid_timezone vm_not_found not_supported unimplemented_update : Error
  endpoint_of_host rpc_failed : Error
  clone_failed old_head_missing new_head_missing head_request_failed get_request_failed : Error
  policy_not_found policy_without_updater missing_layer no_file_name payload_too_large : Error
  reference_with_tag reference_with_digest untagged_reference cancelled_discover : Error

pub data Result {ℓ} (A : Type ℓ) : Type ℓ where
  ok : A → Result A
  err : Error → Result A
  panic : Result A

infixl 5 ◌>>=◌ ◌>>◌
abbrev pub ◌>>=◌ {ℓ κ} : {A : Type ℓ} {B : Type κ} → Result A → (A → Result B) → Result B
ok value >>= next = next value
panic >>= next = panic
err why >>= next = err why

abbrev pub ◌>>◌ {ℓ} : {B : Type ℓ} → Result (Unit {0}) → Result B → Result B
check >> next = check >>= λ _. next

-- `ensure!`
abbrev pub ensure : Bool → Error → Result (Unit {0})
ensure true e = ok tt
ensure false e = err e

-- `Option::context`
abbrev pub context {ℓ} : {A : Type ℓ} → Error → Option A → Result A
context e none = err e
context e (some a) = ok a

-- `collect::<Result<Vec<_>>>` over `map`
unfoldable pub map_result {ℓ κ} :
    {A : Type ℓ} {B : Type κ} → (A → Result B) → List A → Result (List B)
map_result f [] = ok []
map_result f (x ∷ xs) = do y ← f x; ys ← map_result f xs; ok (y ∷ ys)

module _ {ℓ κ} {A : Type ℓ} {B : Type κ} where
  -- A sequence that ends well began well.
  pub >>=-eq-ok :
      (first : Result A) (next : A → Result B) {b : B}
      → (first >>= next) ≡ ok b
      → (value : A) × (first ≡ ok value) × (next value ≡ ok b)
  >>=-eq-ok panic next e = cc
  >>=-eq-ok (err why) next e = cc
  >>=-eq-ok (ok value) next e = (value, refl, e)

pub Result-cases {ℓ} :
    {A : Type ℓ} (r : Result A) → ((a : A) × (r ≡ ok a)) ⊎ ((e : Error) × (r ≡ err e)) ⊎ (r ≡ panic)
Result-cases (ok a) = inl (a, refl)
Result-cases (err e) = inr (inl (e, refl))
Result-cases panic = inr (inr refl)

-- Inversion of a check in front of more checks.
pub >>-eq-ok : (m k : Result (Unit {0})) → (m >> k) ≡ ok tt → (m ≡ ok tt) × (k ≡ ok tt)
>>-eq-ok (ok tt) k h = (refl, h)
>>-eq-ok (err e) k h = cc
>>-eq-ok panic k h = cc
