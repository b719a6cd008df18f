-- ===== src/Image/Artifacts/Push.antt =====
-- crates/ota-update/src/registry: pushing an update, as far as the layers of its image.
pub mod Layers
pub mod Pulled
use ghaf_givc.Prelude.{
  ℕ, ◌^◌, true, Option, none, some, List, [], ◌∷◌, ltb, list_eq, option_eq, nat_eq, Result, ok,
  ◌>>=◌, ◌>>◌, ensure, context, map_result, no_file_name, payload_too_large,
}
use ghaf_givc.Text.{Text, file_name}
use ghaf_givc.Image.Manifest.{Manifest, FileSystem, full_name, validate}
use ghaf_givc.Image.Artifacts.{
  MediaType, uki, root, verity, changelog, media_type_text, BlobDescriptor, image_title,
  sanitize_relative_file_path,
}

pub record LayerInput : Type 0 where
  pub path : Text
  pub media_type : MediaType
  pub annotations : Option (List (Text × Text))

abbrev pub titled : Text → MediaType → Text → LayerInput
titled path media_type title = record {
  path = path;
  media_type = media_type;
  annotations = some ((image_title, title) ∷ []);
}

unfoldable pub layer_input_with_title : Text → MediaType → Result LayerInput
layer_input_with_title path media_type = do
  title ← context no_file_name (file_name path)
  name ← sanitize_relative_file_path title
  ok (titled path media_type name)

abbrev pub changelog_input : Option Text → Result (List LayerInput)
changelog_input none = ok []
changelog_input (some path) = do input ← layer_input_with_title path changelog; ok (input ∷ [])

unfoldable pub layer_inputs : Manifest → Text → Option Text → Result (List LayerInput)
layer_inputs m base_dir changelog_path = do
  kernel ← layer_input_with_title (full_name m.kernel base_dir) uki
  store ← layer_input_with_title (full_name m.store base_dir) root
  tree ← layer_input_with_title (full_name m.verity base_dir) verity
  more ← changelog_input changelog_path
  ok (kernel ∷ store ∷ tree ∷ more)

-- What the files hold, and what the remote registry answers: to a blob under its digest, to the
-- image with these layers, and to a fetch of this image behind that, which gives its digest.
pub record Remote : Type 0 where
  pub digest_and_size : Text → Result (Text × ℕ)
  pub push_blob : Text → Text → Result (Unit {0})
  pub push_image : List BlobDescriptor → Result (Unit {0})
  pub fetch_manifest : Result Text

abbrev pub described : LayerInput → Text → ℕ → BlobDescriptor
described input digest total = record {
  digest = digest;
  media_type = media_type_text input.media_type;
  size = total;
  annotations = input.annotations;
}

module _ (remote : Remote) where
  abbrev pub push_digested : LayerInput → Text × ℕ → Result BlobDescriptor
  push_digested input (digest, total) = do
    remote.push_blob input.path digest
    ensure (ltb total (2 ^ 63)) payload_too_large
    ok (described input digest total)

  -- One round of the loop over the inputs; a length that the client refuses is an answer of
  -- `push_blob`.
  unfoldable pub push_layer : LayerInput → Result BlobDescriptor
  push_layer input = do digested ← remote.digest_and_size input.path; push_digested input digested

  unfoldable pub push_layers : List LayerInput → Result (List BlobDescriptor)
  push_layers inputs = map_result push_layer inputs

  -- The result is what the image in the registry lists.
  unfoldable pub push_update :
      FileSystem → Manifest → Text → Option Text → Result (List BlobDescriptor)
  push_update fs m base_dir changelog_path = do
    validate fs base_dir true m
    inputs ← layer_inputs m base_dir changelog_path
    layers ← push_layers inputs
    remote.push_image layers
    digest ← remote.fetch_manifest
    ok layers
