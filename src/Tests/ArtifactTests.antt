-- ===== src/Tests/ArtifactTests.antt =====
-- crates/ota-update/src/registry: an image with a changelog, and a transfer of three chunks.
use ghaf_givc.Prelude.{
  ℕ, ◌+◌, ◌^◌, ◌<◌, ◌≡◌, refl, ◌↔◌, true, false, Option, none, some, List, [], ◌∷◌, arith,
  if◌then◌else◌, ◌==◌, list_beq, list_eq, option_eq, nat_eq, All, find, Result, ok, err, map_result,
  not_supported, untagged_reference,
}
use ghaf_givc.Text.{
  Text, codes, components, split_char, later_components, join, file_name, split_once,
}
use ghaf_givc.Image.Manifest.{
  Manifest, File, push_components, FileSystem, full_name, check_sum, validate_file, validate,
}
use ghaf_givc.Image.Artifacts.{
  MediaType, uki, root, verity, changelog, media_type_text, BlobDescriptor, ArtifactBinding,
  make_binding, find_layer_by_media_type, changelog_local_name, sanitize_relative_file_path,
  required_binding, select_artifact_bindings,
}
use ghaf_givc.Image.Artifacts.Prune.{
  Dir, dir, Dirs, no_dirs, more_dirs, listing_fails, read_listing, find_tags, Tag, stale,
  newest_first, insert_newest, tags_in, extend, size, remove_each, prune_stack,
  prune_downloaded_updates,
}
use ghaf_givc.Image.Artifacts.Prune.Stale.{IsSplit}
use ghaf_givc.Image.Artifacts.Prune.Walk.{pruned, prune_downloaded_updates_total}
use ghaf_givc.Image.Artifacts.Push.{
  Remote, described, titled, layer_input_with_title, layer_inputs, push_layer, push_layers,
  push_update,
}
use ghaf_givc.Image.Artifacts.Push.Pulled.{IsPulled, push_update-select}
use ghaf_givc.Image.Artifacts.Discover.{
  Reference, RemoteImage, AvailableUpdate, Fetched, fetch_failed, remote_image, update_of,
  parse_tagged, for_tag, discover_tags, discover_updates,
}
use ghaf_givc.Image.Artifacts.Discover.Found.{IsFound, discover_updates_iff}
use ghaf_givc.Image.Artifacts.Bindings.{
  IsSelected, HasLayer, select_artifact_bindings_sound, select_artifact_bindings_iff,
}
use ghaf_givc.Image.Artifacts.Progress.{
  new, progress, next_multiple_of, report_chunks, total_of, IsPaced, report_chunks-new,
}

abbrev file : Text → File
file name = record { name = name; sha256sum = []; unpacked_size = none }

abbrev image : Manifest
image = record {
  meta = [];
  manifest_version = 1;
  system = none;
  version = codes "1.0";
  root_verity_hash = codes "00112233445566778899";
  kernel = file (codes "ghaf.efi");
  store = file (codes "root.raw");
  verity = file (codes "verity.raw");
}

abbrev layer : MediaType → BlobDescriptor
layer kind = record {
  digest = media_type_text kind;
  media_type = media_type_text kind;
  size = 7;
  annotations = some ((codes "org.opencontainers.image.title", codes "./notes//v1.txt") ∷ []);
}

abbrev layers : List BlobDescriptor
layers = layer verity ∷ layer changelog ∷ layer uki ∷ layer root ∷ []

abbrev bindings : List ArtifactBinding
bindings =
    make_binding (layer uki) uki (codes "ghaf.efi")
    ∷ make_binding (layer root) root (codes "root.raw")
    ∷ make_binding (layer verity) verity (codes "verity.raw")
    ∷ make_binding (layer changelog) changelog (codes "notes/v1.txt")
    ∷ []

selected : select_artifact_bindings image layers ≡ ok bindings
unfolding select_artifact_bindings required_binding find_layer_by_media_type find
    changelog_local_name sanitize_relative_file_path push_components list_beq components split_char
    later_components join
selected = refl

select_artifact_bindings_sound_example : IsSelected image layers bindings
select_artifact_bindings_sound_example =
    select_artifact_bindings_sound image layers bindings selected

select_artifact_bindings_iff_example :
    ((bs : List ArtifactBinding) × (select_artifact_bindings image layers ≡ ok bs))
    ↔ (HasLayer layers uki × HasLayer layers root × HasLayer layers verity)
select_artifact_bindings_iff_example = select_artifact_bindings_iff image layers

-- Four bytes are a step here; a chunk may pass two of them.
abbrev chunks : List ℕ
chunks = 3 ∷ 2 ∷ 7 ∷ 1 ∷ []

reported : report_chunks (new 4) 0 chunks ≡ 4 ∷ 12 ∷ []
unfolding report_chunks progress next_multiple_of
reported = refl

report_chunks-new_example :
    IsPaced 4 4 (total_of chunks) (report_chunks (new 4) 0 chunks)
    × All (λ x. x + 4 < 2 ^ 64) (report_chunks (new 4) 0 chunks)
report_chunks-new_example = report_chunks-new 4 chunks (omega arith) (omega arith)

abbrev download : Text → ℕ → Dir
download path time = dir path (ok true) (ok (some time)) no_dirs

abbrev plain : Text → Dirs → Dir
plain path subdirs = dir path (ok false) (ok none) subdirs

-- Three downloads of one repository, and a directory that cannot be read, which comes after it.
abbrev downloads : Dir
downloads = plain (codes "/u") (
    more_dirs (plain (codes "/u/locked") (listing_fails not_supported)) (
      more_dirs
        (plain (codes "/u/repo") (
          more_dirs (download (codes "/u/repo/v1") 1) (
            more_dirs (download (codes "/u/repo/v3") 3)
              (more_dirs (download (codes "/u/repo/v2") 2) no_dirs))))
        no_dirs))

abbrev remove_dir : Text → Result (Unit {0})
remove_dir path = ok tt

prunes :
    prune_downloaded_updates remove_dir (ok tt) (ok (some downloads))
    ≡ some (err not_supported, codes "/u/repo/v1" ∷ [])
unfolding prune_downloaded_updates prune_stack remove_each stale newest_first insert_newest tags_in
    read_listing find_tags extend size
prunes = refl

prune_downloaded_updates_total_example :
    (prune_downloaded_updates remove_dir (ok tt) (ok (some downloads))
      ≡ some (pruned remove_dir downloads))
    × ((tags : List Tag) → (kept : List Tag) × IsSplit tags kept (stale tags))
prune_downloaded_updates_total_example = prune_downloaded_updates_total remove_dir downloads

abbrev files : FileSystem
files = record {
  try_exists = λ path. ok true;
  is_file = λ path. ok true;
  read_sha256 = λ path. ok [];
}

-- A digest is the path here.
abbrev remote : Remote
remote = record {
  digest_and_size = λ path. ok (path, 7);
  push_blob = λ path digest. ok tt;
  push_image = λ layers. ok tt;
  fetch_manifest = ok (codes "sha256:0");
}

abbrev pushed_layer : Text → MediaType → Text → BlobDescriptor
pushed_layer path kind title = described (titled path kind title) path 7

abbrev pushed_layers : List BlobDescriptor
pushed_layers =
    pushed_layer (codes "/out/ghaf.efi") uki (codes "ghaf.efi")
    ∷ pushed_layer (codes "/out/root.raw") root (codes "root.raw")
    ∷ pushed_layer (codes "/out/verity.raw") verity (codes "verity.raw")
    ∷ pushed_layer (codes "notes/news.md") changelog (codes "news.md")
    ∷ []

pushed :
    push_update remote files image (codes "/out") (some (codes "notes/news.md")) ≡ ok pushed_layers
unfolding push_update push_layers push_layer map_result layer_inputs layer_input_with_title validate
    validate_file check_sum full_name sanitize_relative_file_path push_components list_beq
    components split_char later_components join file_name
pushed = refl

push_update-select_example :
    IsPulled remote image image (codes "/out") (some (codes "notes/news.md")) pushed_layers
push_update-select_example =
    push_update-select remote files image image (codes "/out") (some (codes "notes/news.md"))
      pushed_layers pushed

abbrev reference_of : Option (Text × Text) → Result Reference
reference_of none = err untagged_reference
reference_of (some (repository, tag)) = ok (record {
  resolve_registry = codes "reg";
  repository = repository;
  tag = some tag;
  digest = none;
})

-- References of the tests have a tag.
abbrev parse : Text → Result Reference
parse input = reference_of (split_once b':' input)

abbrev repository : Reference
repository = record {
  resolve_registry = codes "reg";
  repository = codes "ghaf";
  tag = none;
  digest = none;
}

abbrev remote_of : Text → RemoteImage
remote_of tag = record { repository = codes "reg/ghaf"; tag = tag; config_json = tag }

-- The image `v2` cannot be fetched.
abbrev fetch_tag : Option Text → Fetched
fetch_tag none = fetch_failed
fetch_tag (some tag) = if tag == codes "v2" then fetch_failed else remote_image (remote_of tag)

abbrev fetch : Reference → Fetched
fetch r = fetch_tag r.tag

abbrev from_slice : Text → Option Manifest
from_slice config_json = some image

abbrev list_tags : Reference → Result (List Text)
list_tags r = ok (codes "v1" ∷ codes "v2" ∷ codes "v3" ∷ [])

abbrev updates : List AvailableUpdate
updates = update_of (remote_of (codes "v1")) image ∷ update_of (remote_of (codes "v3")) image ∷ []

discovered : (discover_updates parse fetch from_slice list_tags repository).0 ≡ ok updates
unfolding discover_updates discover_tags for_tag parse_tagged list_beq split_once
discovered = refl

discover_updates_iff_example :
    ((discover_updates parse fetch from_slice list_tags repository).0 ≡ ok updates) ↔ (
      (tags : List Text) × (list_tags repository ≡ ok tags)
      × IsFound parse fetch from_slice repository tags updates)
discover_updates_iff_example =
    discover_updates_iff parse fetch from_slice list_tags repository updates
