-- ===== src/Image/Artifacts.antt =====
-- crates/ota-update/src/registry: which blobs of an image in a registry are fetched, under which
-- names, and the reports of the progress of a transfer.
pub mod Bindings
pub mod Progress
pub mod Prune
pub mod Push
pub mod Discover
use ghaf_givc.Prelude.{
  ℕ, not, Option, none, some, List, [], ◌∷◌, ◌==◌, list_beq, list_eq, option_eq, nat_eq, find,
  Result, ok, err, panic, ◌>>=◌, ◌>>◌, ensure, context, absolute_path, empty_path, missing_layer,
}
use ghaf_givc.Text.{Text, codes, components, has_root}
use ghaf_givc.Image.Manifest.{Manifest, push_components}

pub data MediaType : Type 0 where
  manifest uki root verity changelog : MediaType

-- `as_ref`
abbrev pub media_type_text : MediaType → Text
media_type_text manifest = codes "application/vnd.ghaf.ota.manifest.v1+json"
media_type_text uki = codes "application/vnd.ghaf.ota.uki.v1+efi"
media_type_text root = codes "application/vnd.ghaf.ota.root.v1+raw"
media_type_text verity = codes "application/vnd.ghaf.ota.verity.v1+raw"
media_type_text changelog = codes "application/vnd.ghaf.ota.changelog.v1+plain"

-- The annotations are the rows of the map.
pub record BlobDescriptor : Type 0 where
  pub digest : Text
  pub media_type : Text
  pub size : ℕ
  pub annotations : Option (List (Text × Text))

pub record ArtifactBinding : Type 0 where
  pub kind : MediaType
  pub blob : BlobDescriptor
  pub digest : Text
  pub local_name : Text

unfoldable pub find_layer_by_media_type : List BlobDescriptor → MediaType → Option BlobDescriptor
find_layer_by_media_type layers media_type =
    find (λ layer. layer.media_type == media_type_text media_type) layers

unfoldable pub sanitize_relative_file_path : Text → Result Text
unfolding list_beq
sanitize_relative_file_path value = do
  ensure (not (has_root value)) absolute_path
  out ← push_components [] (components value)
  ensure (not (out == [])) empty_path
  ok out

abbrev pub image_title : Text
image_title = codes "org.opencontainers.image.title"

abbrev second_of : Option (Text × Text) → Option Text
second_of none = none
second_of (some (key, value)) = some value

abbrev pub title_of : Option (List (Text × Text)) → Option Text
title_of none = none
title_of (some annotations) = second_of (find (λ row. row.0 == image_title) annotations)

abbrev pub default_name : Text
default_name = codes "changelog.txt"

abbrev pub path_or_default : Result Text → Text
path_or_default (ok path) = path
path_or_default (err e) = default_name
path_or_default panic = default_name

abbrev pub name_of_title : Option Text → Text
name_of_title none = default_name
name_of_title (some title) = path_or_default (sanitize_relative_file_path title)

unfoldable pub changelog_local_name : BlobDescriptor → Text
changelog_local_name layer = name_of_title (title_of layer.annotations)

abbrev pub make_binding : BlobDescriptor → MediaType → Text → ArtifactBinding
make_binding layer kind local_name = record {
  kind = kind;
  blob = layer;
  digest = layer.digest;
  local_name = local_name;
}

unfoldable pub required_binding : List BlobDescriptor → MediaType → Text → Result ArtifactBinding
required_binding layers media_type local_name = do
  layer ← context missing_layer (find_layer_by_media_type layers media_type)
  ok (make_binding layer media_type local_name)

abbrev pub changelog_binding : Option BlobDescriptor → List ArtifactBinding
changelog_binding none = []
changelog_binding (some layer) = make_binding layer changelog (changelog_local_name layer) ∷ []

unfoldable pub select_artifact_bindings :
    Manifest → List BlobDescriptor → Result (List ArtifactBinding)
select_artifact_bindings m layers = do
  kernel ← required_binding layers uki m.kernel.name
  store ← required_binding layers root m.store.name
  tree ← required_binding layers verity m.verity.name
  ok (kernel ∷ store ∷ tree ∷ changelog_binding (find_layer_by_media_type layers changelog))
