-- ===== src/Image/Volume.antt =====
-- crates/ota-update/src/image/lvm.rs: logical volumes.
use ghaf_givc.Prelude.{ℕ, Option, [], ◌∷◌, ◌++◌, nat_eq, list_eq, option_eq}
use ghaf_givc.Text.{Text, codes, join}
use ghaf_givc.Image.Pipeline.{Pipeline, command, with_args, single}

pub record Volume : Type 0 where
  pub lv_name : Text
  pub vg_name : Text
  pub lv_attr : Option Text
  pub lv_size_bytes : Option ℕ

unfoldable pub device_file : Volume → Text
unfolding join
device_file v = join (codes "/dev/mapper") (v.vg_name ++ (codes "-" ++ v.lv_name))

unfoldable pub rename_to : Volume → Text → Pipeline
rename_to v new_name =
    single (with_args (command (codes "lvrename")) (v.vg_name ∷ v.lv_name ∷ new_name ∷ []))
