-- ===== src/Image/Artifacts/Push/Layers.antt =====
-- crates/ota-update/src/registry/mod.rs: the layers of an image that was pushed.
use ghaf_givc.Prelude.{
  ℕ, ◌^◌, ◌≡◌, sym, ap, ◌∙◌, Option, none, some, List, [], ◌∷◌, ltb, list_eq, option_eq, nat_eq, ok,
  ensure, context, map_result, >>=-eq-ok, no_file_name, payload_too_large,
}
use ghaf_givc.Text.{Text, file_name}
use ghaf_givc.Image.Artifacts.{
  MediaType, BlobDescriptor, sanitize_relative_file_path, changelog, Manifest, uki, root, verity,
}
use ghaf_givc.Image.Artifacts.Push.{
  LayerInput, titled, layer_input_with_title, Remote, described, push_digested, push_layer,
  push_layers, changelog_input, layer_inputs, full_name,
}

layer_input-titled :
    (path : Text) (kind : MediaType) {input : LayerInput}
    → layer_input_with_title path kind ≡ ok input
    → (title : Text) × (input ≡ titled path kind title)
unfolding layer_input_with_title
layer_input-titled path kind e =
    let (name, _, e1) = >>=-eq-ok (context no_file_name (file_name path)) _ e in
    let (title, _, e2) = >>=-eq-ok (sanitize_relative_file_path name) _ e1 in (title, cc e2)

module _ (remote : Remote) where
  -- The layer is of this kind, and its blob is the file.
  abbrev pub IsPushed : Text → MediaType → BlobDescriptor → Type 0
  IsPushed path kind layer =
      (title : Text) × (digest : Text) × (total : ℕ) × (layer
        ≡ described (titled path kind title) digest total)
      × (remote.digest_and_size path ≡ ok (digest, total))

  push_layer-IsPushed :
      (path : Text) (kind : MediaType) {input : LayerInput} {layer : BlobDescriptor}
      → layer_input_with_title path kind ≡ ok input
      → push_layer remote input ≡ ok layer
      → IsPushed path kind layer
  unfolding push_layer
  push_layer-IsPushed path kind {input} {layer} made e =
      let (title, same) = layer_input-titled path kind made in
      let e0 : push_layer remote (titled path kind title) ≡ ok layer =
        ap (push_layer remote) (sym same) ∙ e in
      let ((digest, total), d, e1) =
        >>=-eq-ok (remote.digest_and_size path) (push_digested remote (titled path kind title))
          e0 in
      let (_, _, e2) = >>=-eq-ok (remote.push_blob path digest) _ e1 in
      let (_, _, e3) = >>=-eq-ok (ensure (ltb total (2 ^ 63)) payload_too_large) _ e2 in
      (title, digest, total, sym (cc e3), d)

  push_layers-cons :
      (input : LayerInput) (inputs : List LayerInput) {layers : List BlobDescriptor}
      → push_layers remote (input ∷ inputs) ≡ ok layers
      → (layer : BlobDescriptor) × (rest : List BlobDescriptor) × (layers ≡ layer ∷ rest)
        × (push_layer remote input ≡ ok layer)
        × (push_layers remote inputs ≡ ok rest)
  unfolding push_layers map_result
  push_layers-cons input inputs e =
      let (layer, pushed, e1) = >>=-eq-ok (push_layer remote input) _ e in
      let (rest, others, e2) = >>=-eq-ok (map_result (push_layer remote) inputs) _ e1 in
      (layer, rest, sym (cc e2), pushed, others)

  push_layers-nil : {layers : List BlobDescriptor} → push_layers remote [] ≡ ok layers → layers ≡ []
  unfolding push_layers map_result
  push_layers-nil e = sym (cc e)

  -- The changelog's layer, if there is a changelog.
  abbrev pub MayHaveChangelog : Option Text → List BlobDescriptor → Type 0
  MayHaveChangelog none more = more ≡ []
  MayHaveChangelog (some path) more =
      (layer : BlobDescriptor) × (more ≡ layer ∷ []) × IsPushed path changelog layer

  changelog_input-IsPushed :
      (changelog_path : Option Text) {inputs : List LayerInput} {more : List BlobDescriptor}
      → changelog_input changelog_path ≡ ok inputs
      → push_layers remote inputs ≡ ok more
      → MayHaveChangelog changelog_path more
  changelog_input-IsPushed none {inputs} {more} made e =
      push_layers-nil (ap (push_layers remote) (cc made) ∙ e)
  changelog_input-IsPushed (some path) {inputs} {more} made e =
      let (input, made_one, made1) = >>=-eq-ok (layer_input_with_title path changelog) _ made in
      let e0 : push_layers remote (input ∷ []) ≡ ok more = ap (push_layers remote) (cc made1) ∙ e in
      let (layer, rest, split, pushed, others) = push_layers-cons input [] e0 in
      (
        layer,
        split ∙ ap (λ l. layer ∷ l) (push_layers-nil others),
        push_layer-IsPushed path changelog made_one pushed,
      )

  -- The layers of the four inputs, in their order.
  pub layer_inputs-IsPushed :
      (m : Manifest) (base_dir : Text) (changelog_path : Option Text) {inputs : List LayerInput}
      {layers : List BlobDescriptor}
      → layer_inputs m base_dir changelog_path ≡ ok inputs
      → push_layers remote inputs ≡ ok layers
      → (kernel store tree : BlobDescriptor) × (more : List BlobDescriptor) × (layers
          ≡ kernel ∷ store ∷ tree ∷ more)
        × IsPushed (full_name m.kernel base_dir) uki kernel
        × IsPushed (full_name m.store base_dir) root store
        × IsPushed (full_name m.verity base_dir) verity tree
        × MayHaveChangelog changelog_path more
  unfolding layer_inputs
  layer_inputs-IsPushed m base_dir changelog_path {inputs} {layers} made e =
      let first = full_name m.kernel base_dir in
      let second = full_name m.store base_dir in
      let third = full_name m.verity base_dir in
      let (k, made_k, made1) = >>=-eq-ok (layer_input_with_title first uki) _ made in
      let (s, made_s, made2) = >>=-eq-ok (layer_input_with_title second root) _ made1 in
      let (t, made_t, made3) = >>=-eq-ok (layer_input_with_title third verity) _ made2 in
      let (cs, made_cs, made4) = >>=-eq-ok (changelog_input changelog_path) _ made3 in
      let e0 : push_layers remote (k ∷ s ∷ t ∷ cs) ≡ ok layers =
        ap (push_layers remote) (cc made4) ∙ e in
      let (kernel, rest1, split1, pushed_k, e1) = push_layers-cons k (s ∷ t ∷ cs) e0 in
      let (store, rest2, split2, pushed_s, e2) = push_layers-cons s (t ∷ cs) e1 in
      let (tree, more, split3, pushed_t, e3) = push_layers-cons t cs e2 in
      (
        kernel,
        store,
        tree,
        more,
        split1 ∙ ap (λ l. kernel ∷ l) (split2 ∙ ap (λ l. store ∷ l) split3),
        push_layer-IsPushed first uki made_k pushed_k,
        push_layer-IsPushed second root made_s pushed_s,
        push_layer-IsPushed third verity made_t pushed_t,
        changelog_input-IsPushed changelog_path made_cs e3,
      )
