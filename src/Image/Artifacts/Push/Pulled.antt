-- ===== src/Image/Artifacts/Push/Pulled.antt =====
-- crates/ota-update/src/registry/mod.rs: what a pull selects from an image that was pushed.
use ghaf_givc.Prelude.{
  ℕ, ◌≡◌, refl, sym, ap, ◌∙◌, true, Option, none, some, List, [], ◌∷◌, list_beq, list_eq, option_eq,
  nat_eq, find, ok, >>=-eq-ok,
}
use ghaf_givc.Text.{Text}
use ghaf_givc.Image.Artifacts.{
  MediaType, BlobDescriptor, changelog, Manifest, make_binding, find_layer_by_media_type,
  select_artifact_bindings, ArtifactBinding, required_binding, changelog_binding, uki,
  changelog_local_name, root, verity,
}
use ghaf_givc.Image.Artifacts.Push.Layers.{IsPushed, MayHaveChangelog, layer_inputs-IsPushed}
use ghaf_givc.Image.Artifacts.Push.{
  Remote, push_layers, push_update, layer_inputs, full_name, FileSystem, validate,
}

module _ (remote : Remote) where
  -- The binding has the name and the digest of the file that was pushed.
  pub record IsBoundTo (path name : Text) (b : ArtifactBinding) : Type 0 where
    pub named : b.local_name ≡ name
    pub total : ℕ
    pub digest_is : remote.digest_and_size path ≡ ok (b.digest, total)

  abbrev pub ChangelogBound : Option Text → List ArtifactBinding → Type 0
  ChangelogBound none rest = rest ≡ []
  ChangelogBound (some path) rest =
      (b : ArtifactBinding) × (rest ≡ b ∷ []) × IsBoundTo path b.local_name b

  -- What a pull of the image selects.
  pub record IsPulled (m pulled : Manifest) (base_dir : Text) (changelog_path : Option Text)
      (layers : List BlobDescriptor) : Type 0 where
    pub kernel : ArtifactBinding
    pub store : ArtifactBinding
    pub tree : ArtifactBinding
    pub rest : List ArtifactBinding
    pub selected : select_artifact_bindings pulled layers ≡ ok (kernel ∷ store ∷ tree ∷ rest)
    pub kernel_bound : IsBoundTo (full_name m.kernel base_dir) pulled.kernel.name kernel
    pub store_bound : IsBoundTo (full_name m.store base_dir) pulled.store.name store
    pub tree_bound : IsBoundTo (full_name m.verity base_dir) pulled.verity.name tree
    pub changelog_bound : ChangelogBound changelog_path rest

  made_binding :
      (path name : Text) (kind : MediaType) {layer : BlobDescriptor}
      → IsPushed remote path kind layer
      → IsBoundTo path name (make_binding layer kind name)
  made_binding path name kind (title, digest, total, same, d) = record {
    named = refl;
    total = total;
    digest_is = d ∙ ap (λ l. ok (l.digest, total)) (sym same);
  }

  -- Where each of the three layers is of its kind, a search finds it, and looks behind them for the
  -- changelog.
  select_artifact_bindings-IsPushed :
      (pulled : Manifest) {p q r : Text} {kernel store tree : BlobDescriptor}
      (more : List BlobDescriptor)
      → IsPushed remote p uki kernel
      → IsPushed remote q root store
      → IsPushed remote r verity tree
      → select_artifact_bindings pulled (kernel ∷ store ∷ tree ∷ more)
        ≡ ok (
            make_binding kernel uki pulled.kernel.name
            ∷ make_binding store root pulled.store.name
            ∷ make_binding tree verity pulled.verity.name
            ∷ changelog_binding (find_layer_by_media_type more changelog))
  unfolding select_artifact_bindings required_binding find_layer_by_media_type find list_beq
  select_artifact_bindings-IsPushed pulled more (_, _, _, k, _) (_, _, _, s, _) (_, _, _, t, _) =
      rw (k, s, t) refl

  changelog_binding-ChangelogBound :
      (changelog_path : Option Text) (more : List BlobDescriptor)
      → MayHaveChangelog remote changelog_path more
      → ChangelogBound changelog_path (changelog_binding (find_layer_by_media_type more changelog))
  unfolding find_layer_by_media_type find list_beq
  changelog_binding-ChangelogBound none more none_more =
      ap (λ l. changelog_binding (find_layer_by_media_type l changelog)) none_more
  changelog_binding-ChangelogBound (some path) more (layer, one, pushed) =
      let (title, digest, total, same, d) = pushed in
      (
        make_binding layer changelog (changelog_local_name layer),
        ap (λ l. changelog_binding (find_layer_by_media_type l changelog)) one ∙ rw same refl,
        made_binding path (changelog_local_name layer) changelog pushed,
      )

  -- From an image that was pushed with success, a pull selects the three files that were pushed,
  -- each by the digest of its content and under the name in the manifest that the pull reads, and
  -- the changelog exactly if one was pushed, by the digest of its content.
  pub push_update-select :
      (fs : FileSystem) (m pulled : Manifest) (base_dir : Text) (changelog_path : Option Text)
      (layers : List BlobDescriptor)
      → push_update remote fs m base_dir changelog_path ≡ ok layers
      → IsPulled m pulled base_dir changelog_path layers
  unfolding push_update
  push_update-select fs m pulled base_dir changelog_path layers e =
      let (_, _, e1) = >>=-eq-ok (validate fs base_dir true m) _ e in
      let (inputs, made, e2) = >>=-eq-ok (layer_inputs m base_dir changelog_path) _ e1 in
      let (listed, pushed, e3) = >>=-eq-ok (push_layers remote inputs) _ e2 in
      let (_, _, e4) = >>=-eq-ok (remote.push_image listed) _ e3 in
      let (_, _, e5) = >>=-eq-ok remote.fetch_manifest _ e4 in
      let same : listed ≡ layers = cc e5 in
      let (kernel, store, tree, more, split, k, s, t, c) =
        layer_inputs-IsPushed remote m base_dir changelog_path made pushed in
      record {
        kernel = make_binding kernel uki pulled.kernel.name;
        store = make_binding store root pulled.store.name;
        tree = make_binding tree verity pulled.verity.name;
        rest = changelog_binding (find_layer_by_media_type more changelog);
        selected =
            ap (select_artifact_bindings pulled) (sym same ∙ split)
            ∙ select_artifact_bindings-IsPushed pulled more k s t;
        kernel_bound = made_binding (full_name m.kernel base_dir) pulled.kernel.name uki k;
        store_bound = made_binding (full_name m.store base_dir) pulled.store.name root s;
        tree_bound = made_binding (full_name m.verity base_dir) pulled.verity.name verity t;
        changelog_bound = changelog_binding-ChangelogBound changelog_path more c;
      }
