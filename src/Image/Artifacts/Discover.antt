-- ===== src/Image/Artifacts/Discover.antt =====
-- crates/ota-update/src/registry: references to repositories and images, and the search of a
-- repository for updates.
pub mod Found
use ghaf_givc.Prelude.{
  ℕ, ◌+◌, Bool, true, not, ◌||◌, Option, none, some, List, [], ◌∷◌, ◌++◌, is_some, ◌==◌, list_eq,
  option_eq, nat_eq, length, Result, ok, err, panic, ◌>>=◌, ◌>>◌, ensure, reference_with_tag,
  reference_with_digest, untagged_reference, cancelled_discover,
}
use ghaf_givc.Text.{Text, codes}
use ghaf_givc.Image.Manifest.{Manifest}

-- `Reference` of the `oci_client` crate, as far as the code reads it.
pub record Reference : Type 0 where
  pub resolve_registry : Text
  pub repository : Text
  pub tag : Option Text
  pub digest : Option Text

abbrev pub or_option : {A : Type 0} → Option A → Option A → Option A
or_option (some a) b = some a
or_option none b = b

abbrev pub none_or_latest : Option Text → Bool
none_or_latest none = true
none_or_latest (some tag) = tag == codes "latest"

-- `repository_path` of both kinds of references.
abbrev pub repository_path : Reference → Text
repository_path r = r.resolve_registry ++ (b'/' ∷ r.repository)

abbrev pub found_or_unreachable : Option Text → Result Text
found_or_unreachable (some text) = ok text
found_or_unreachable none = panic

unfoldable pub tag_or_digest : Reference → Result Text
tag_or_digest r = found_or_unreachable (or_option r.tag r.digest)

-- What a fetch gives, as far as the search reads it.
pub record RemoteImage : Type 0 where
  pub repository : Text
  pub tag : Text
  pub config_json : Text

pub record AvailableUpdate : Type 0 where
  pub repository : Text
  pub tag : Text
  pub version : Text
  pub hash : Text

-- The events of a search; the text of the reference in the first one is left out.
pub data Event : Type 0 where
  discover_started : ℕ → Event
  tag_discovered : Text → Text → ℕ → ℕ → Event
  manifest_fetched : Text → Text → ℕ → ℕ → Event
  cancelled : Event
  done : Event

-- What the registry answers for an image: its configuration, a cancellation, or that there is an
-- error or no answer in time.
pub data Fetched : Type 0 where
  remote_image : RemoteImage → Fetched
  was_cancelled : Fetched
  fetch_failed : Fetched

abbrev pub Discovery : Type 0
Discovery = Result (List AvailableUpdate) × List Event

abbrev pub noted : Event → Discovery → Discovery
noted event (updates, events) = (updates, event ∷ events)

abbrev pub with_update : AvailableUpdate → Discovery → Discovery
with_update update (ok updates, events) = (ok (update ∷ updates), events)
with_update update (err e, events) = (err e, events)
with_update update (panic, events) = (panic, events)

abbrev pub update_of : RemoteImage → Manifest → AvailableUpdate
update_of remote m = record {
  repository = remote.repository;
  tag = remote.tag;
  version = m.version;
  hash = m.root_verity_hash;
}

abbrev pub read_manifest : Option Manifest → RemoteImage → ℕ → ℕ → Discovery → Discovery
read_manifest none remote current total rest = rest
read_manifest (some m) remote current total rest =
    noted (manifest_fetched remote.repository remote.tag current total)
      (with_update (update_of remote m) rest)

-- The parser of references.
module _ (parse : Text → Result Reference) where
  -- `FromStr` of `UntaggedReference`
  unfoldable pub parse_untagged : Text → Result Reference
  parse_untagged input = do
    reference ← parse input
    ensure (none_or_latest reference.tag) reference_with_tag
    ensure (not (is_some reference.digest)) reference_with_digest
    ok reference

  -- `FromStr` of `TaggedReference`
  unfoldable pub parse_tagged : Text → Result Reference
  parse_tagged input = do
    reference ← parse input
    ensure (is_some reference.tag || is_some reference.digest) untagged_reference
    ok reference

  unfoldable pub for_tag : Reference → Text → Result Reference
  for_tag reference tag = parse_tagged (repository_path reference ++ (b':' ∷ tag))

-- The parser of references, the answers of the registry, and the reading of a manifest.
module _ (parse : Text → Result Reference) (fetch : Reference → Fetched)
    (from_slice : Text → Option Manifest) where
  -- What is fetched for a tag, where `rest` is what follows.
  abbrev pub take_fetched : Fetched → ℕ → ℕ → Discovery → Discovery
  take_fetched (remote_image remote) current total rest =
      read_manifest (from_slice remote.config_json) remote current total rest
  take_fetched was_cancelled current total rest = (err cancelled_discover, cancelled ∷ [])
  take_fetched fetch_failed current total rest = rest

  abbrev pub take_reference : Result Reference → Text → ℕ → ℕ → Discovery → Discovery
  take_reference (ok tag_ref) tag current total rest =
      noted (tag_discovered (repository_path tag_ref) tag current total)
        (take_fetched (fetch tag_ref) current total rest)
  take_reference (err e) tag current total rest = (err e, [])
  take_reference panic tag current total rest = (panic, [])

  -- The loop over the tags, from the number of those before.
  unfoldable pub discover_tags : Reference → ℕ → ℕ → List Text → Discovery
  discover_tags reference total idx [] = (ok [], done ∷ [])
  discover_tags reference total idx (tag ∷ tags) =
      let rest = discover_tags reference total (idx + 1) tags in
      take_reference (for_tag parse reference tag) tag (idx + 1) total rest

  abbrev pub discover_listed : Reference → Result (List Text) → Discovery
  discover_listed reference (ok tags) =
      noted (discover_started (length tags)) (discover_tags reference (length tags) 0 tags)
  discover_listed reference (err e) = (err e, [])
  discover_listed reference panic = (panic, [])

  unfoldable pub discover_updates : (Reference → Result (List Text)) → Reference → Discovery
  discover_updates list_tags reference = discover_listed reference (list_tags reference)
