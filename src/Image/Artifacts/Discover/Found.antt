-- ===== src/Image/Artifacts/Discover/Found.antt =====
-- crates/ota-update/src/registry/mod.rs: which updates are found.
use ghaf_givc.Prelude.{
  ℕ, ◌+◌, ◌≡◌, refl, sym, ap, subst, ◌↔◌, ◌⊎◌, inl, inr, ◌||◌, Option, none, some, List, [], ◌∷◌,
  is_some, list_eq, option_eq, nat_eq, length, Result, ok, err, panic, ensure, >>=-eq-ok,
  untagged_reference,
}
use ghaf_givc.Text.{Text}
use ghaf_givc.Image.Manifest.{Manifest}
use ghaf_givc.Image.Artifacts.Discover.{
  Reference, RemoteImage, AvailableUpdate, Fetched, remote_image, was_cancelled, fetch_failed,
  Discovery, with_update, update_of, for_tag, read_manifest, take_fetched, take_reference,
  discover_tags, parse_tagged, discover_updates, tag_or_digest, discover_listed,
  found_or_unreachable, or_option,
}

module _ (parse : Text → Result Reference) (fetch : Reference → Fetched)
    (from_slice : Text → Option Manifest) where
  -- The image cannot be fetched, or its configuration is not a manifest.
  abbrev pub IsUnreadable : Reference → Type 0
  IsUnreadable r =
      (fetch r ≡ fetch_failed)
      ⊎ ((image : RemoteImage) × (fetch r ≡ remote_image image)
          × (from_slice image.config_json ≡ none))

  -- The updates of these tags: one for each image that can be read, in the order of the tags.
  pub data IsFound (reference : Reference) : List Text → List AvailableUpdate → Type 0 where
    none_left : IsFound reference [] []
    available :
        {tag : Text} {tags : List Text} {updates : List AvailableUpdate} (r : Reference)
        (image : RemoteImage) (m : Manifest)
        → for_tag parse reference tag ≡ ok r
        → fetch r ≡ remote_image image
        → from_slice image.config_json ≡ some m
        → IsFound reference tags updates
        → IsFound reference (tag ∷ tags) (update_of image m ∷ updates)
    unreadable :
        {tag : Text} {tags : List Text} {updates : List AvailableUpdate} (r : Reference)
        → for_tag parse reference tag ≡ ok r
        → IsUnreadable r
        → IsFound reference tags updates
        → IsFound reference (tag ∷ tags) updates

  abbrev taken : ℕ → ℕ → Text → Result Reference → Discovery → Discovery
  taken current total tag r rest = take_reference parse fetch from_slice r tag current total rest

  with_update-eq-ok :
      (u : AvailableUpdate) (d : Discovery) {updates : List AvailableUpdate}
      → (with_update u d).0 ≡ ok updates
      → (rest : List AvailableUpdate) × (d.0 ≡ ok rest) × (updates ≡ u ∷ rest)
  with_update-eq-ok u (ok rest, events) e = (rest, refl, sym (cc e))
  with_update-eq-ok u (err why, events) e = cc
  with_update-eq-ok u (panic, events) e = cc

  with_update-ok :
      (u : AvailableUpdate) (d : Discovery) {rest : List AvailableUpdate}
      → d.0 ≡ ok rest
      → (with_update u d).0 ≡ ok (u ∷ rest)
  with_update-ok u (ok updates, events) e = ap (λ us. ok (u ∷ us)) (cc e)
  with_update-ok u (err why, events) e = cc
  with_update-ok u (panic, events) e = cc

  -- What the round of a tag adds to the updates that follow.
  abbrev RoundEnds : Reference → Text → Discovery → List AvailableUpdate → Type 0
  RoundEnds reference tag rest updates =
      (r : Reference) × (for_tag parse reference tag ≡ ok r)
      × (((image : RemoteImage) × (m : Manifest) × (later : List AvailableUpdate) × (fetch r
              ≡ remote_image image)
            × (from_slice image.config_json ≡ some m)
            × (rest.0 ≡ ok later)
            × (updates ≡ update_of image m ∷ later))
          ⊎ (IsUnreadable r × (rest.0 ≡ ok updates)))

  round_ends :
      (reference : Reference) (tag : Text) (current total : ℕ) (rest : Discovery)
      {updates : List AvailableUpdate}
      → (taken current total tag (for_tag parse reference tag) rest).0 ≡ ok updates
      → RoundEnds reference tag rest updates
  round_ends reference tag current total rest {updates} e =
      by_reference (for_tag parse reference tag) refl e
    where
      by_manifest :
          (r : Reference) (image : RemoteImage) (read : Option Manifest)
          → for_tag parse reference tag ≡ ok r
          → fetch r ≡ remote_image image
          → from_slice image.config_json ≡ read
          → (read_manifest read image current total rest).0 ≡ ok updates
          → RoundEnds reference tag rest updates
      by_manifest r image none t f g e = (r, t, inr (inr (image, f, g), e))
      by_manifest r image (some m) t f g e =
          let (later, ends, same) = with_update-eq-ok (update_of image m) rest e in
          (r, t, inl (image, m, later, f, g, ends, same))

      by_fetched :
          (r : Reference) (got : Fetched)
          → for_tag parse reference tag ≡ ok r
          → fetch r ≡ got
          → (take_fetched parse fetch from_slice got current total rest).0 ≡ ok updates
          → RoundEnds reference tag rest updates
      by_fetched r (remote_image image) t f e =
          by_manifest r image (from_slice image.config_json) t f refl e
      by_fetched r was_cancelled t f e = absurd (cc e)
      by_fetched r fetch_failed t f e = (r, t, inr (inl f, e))

      by_reference :
          (got : Result Reference)
          → for_tag parse reference tag ≡ got
          → (taken current total tag got rest).0 ≡ ok updates
          → RoundEnds reference tag rest updates
      by_reference (ok r) t e = by_fetched r (fetch r) t refl e
      by_reference (err why) t e = absurd (cc e)
      by_reference panic t e = absurd (cc e)

  discover_tags-IsFound :
      (reference : Reference) (total idx : ℕ) (tags : List Text) {updates : List AvailableUpdate}
      → (discover_tags parse fetch from_slice reference total idx tags).0 ≡ ok updates
      → IsFound reference tags updates
  unfolding discover_tags
  discover_tags-IsFound reference total idx [] e = subst (IsFound reference []) (cc e) none_left
  discover_tags-IsFound reference total idx (tag ∷ tags) e =
      let rest = discover_tags parse fetch from_slice reference total (idx + 1) tags in
      let (r, t, round) = round_ends reference tag (idx + 1) total rest e in
      elim round [
        | inl (image, m, later, f, g, ends, same) ↦
            subst (IsFound reference (tag ∷ tags)) (sym same) (
              available r image m t f g (discover_tags-IsFound reference total (idx + 1) tags ends))
        | inr (bad, ends) ↦
            unreadable r t bad (discover_tags-IsFound reference total (idx + 1) tags ends)
      ]

  IsFound-discover_tags :
      (reference : Reference) (total idx : ℕ) {tags : List Text} {updates : List AvailableUpdate}
      → IsFound reference tags updates
      → (discover_tags parse fetch from_slice reference total idx tags).0 ≡ ok updates
  unfolding discover_tags
  IsFound-discover_tags reference total idx none_left = refl
  IsFound-discover_tags reference total idx (available r image m t f g found) =
      let follows = IsFound-discover_tags reference total (idx + 1) found in
      rw (t, f, g) (with_update-ok (update_of image m) _ follows)
  IsFound-discover_tags reference total idx (unreadable r t (inl f) found) =
      rw (t, f) (IsFound-discover_tags reference total (idx + 1) found)
  IsFound-discover_tags reference total idx (unreadable r t (inr (image, f, g)) found) =
      rw (t, f, g) (IsFound-discover_tags reference total (idx + 1) found)

  module _ (list_tags : Reference → Result (List Text)) where
    -- A search of a repository succeeds with some updates exactly if its tags can be listed and
    -- these are their updates: one for each tag, in their order, whose image can be fetched and has a
    -- manifest, with what the manifest says. An image that fails or cannot be read hides no other
    -- one; a tag that makes no reference and a cancellation fail the search.
    pub discover_updates_iff :
        (reference : Reference) (updates : List AvailableUpdate)
        → ((discover_updates parse fetch from_slice list_tags reference).0 ≡ ok updates)
          ↔ ((tags : List Text) × (list_tags reference ≡ ok tags) × IsFound reference tags updates)
    unfolding discover_updates
    discover_updates_iff reference updates = (listed (list_tags reference) refl, found)
      where
        listed :
            (got : Result (List Text))
            → list_tags reference ≡ got
            → (discover_listed parse fetch from_slice reference got).0 ≡ ok updates
            → (tags : List Text) × (list_tags reference ≡ ok tags) × IsFound reference tags updates
        listed (ok tags) l e = (tags, l, discover_tags-IsFound reference (length tags) 0 tags e)
        listed (err why) l e = absurd (cc e)
        listed panic l e = absurd (cc e)

        found :
            (tags : List Text) × (list_tags reference ≡ ok tags) × IsFound reference tags updates
            → (discover_listed parse fetch from_slice reference (list_tags reference)).0
              ≡ ok updates
        found (tags, l, f) = rw l (IsFound-discover_tags reference (length tags) 0 f)

one_named :
    (tag digest : Option Text) {u : Unit {0}}
    → ensure (is_some tag || is_some digest) untagged_reference ≡ ok u
    → (text : Text) × (found_or_unreachable (or_option tag digest) ≡ ok text)
one_named (some tag) digest e = (tag, refl)
one_named none (some digest) e = (digest, refl)
one_named none none e = cc

-- A reference that was read as one to an image names a tag or a digest, so the code that is marked
-- unreachable is not reached.
pub parse_tagged-tag_or_digest :
    (parse : Text → Result Reference) (input : Text) (r : Reference)
    → parse_tagged parse input ≡ ok r
    → (text : Text) × (tag_or_digest r ≡ ok text)
unfolding parse_tagged tag_or_digest
parse_tagged-tag_or_digest parse input r e =
    let (read, _, e1) = >>=-eq-ok (parse input) _ e in
    let (_, named, e2) =
      >>=-eq-ok (ensure (is_some read.tag || is_some read.digest) untagged_reference) _ e1 in
    let same : read ≡ r = cc e2 in
    subst (λ q. (text : Text) × (tag_or_digest q ≡ ok text)) same
      (one_named read.tag read.digest named)
