-- ===== src/Image/Artifacts/Bindings.antt =====
-- crates/ota-update/src/registry/mod.rs: what is selected from an image.
use ghaf_givc.Prelude.{
  ◌≡◌, refl, ap, subst, ◌↔◌, ◌⊎◌, inl, inr, Option, none, some, List, [], ◌∷◌, Option-cases, ◌==◌,
  eq_iff, list_eq, option_eq, nat_eq, Member, find_sound, find_complete, Result, ok, err, panic,
  >>=-eq-ok, missing_layer,
}
use ghaf_givc.Text.{Text}
use ghaf_givc.Image.Manifest.{Manifest, normalize_relative_path}
use ghaf_givc.Image.Manifest.Paths.{IsNormalized, normalize_relative_path_iff}
use ghaf_givc.Image.Artifacts.{
  MediaType, uki, root, verity, changelog, media_type_text, BlobDescriptor, ArtifactBinding,
  find_layer_by_media_type, sanitize_relative_file_path, title_of, default_name, path_or_default,
  name_of_title, changelog_local_name, make_binding, required_binding, changelog_binding,
  select_artifact_bindings,
}

abbrev IsTyped : MediaType → BlobDescriptor → Type 0
IsTyped kind layer = layer.media_type ≡ media_type_text kind

-- Some layer of the image has this type.
abbrev pub HasLayer : List BlobDescriptor → MediaType → Type 0
HasLayer layers kind = (layer : BlobDescriptor) × Member layer layers × IsTyped kind layer

-- The binding is of this kind and name, to a layer of the image that has the type of the kind.
pub record IsBound (layers : List BlobDescriptor) (kind : MediaType) (name : Text)
    (b : ArtifactBinding) : Type 0 where
  pub kind_is : b.kind ≡ kind
  pub named : b.local_name ≡ name
  pub stored : Member b.blob layers
  pub typed : b.blob.media_type ≡ media_type_text kind
  pub same_digest : b.digest ≡ b.blob.digest

-- The name is the default one, or a title that is a relative path which stays in its directory.
abbrev pub IsSafeName : Text → Type 0
IsSafeName name = (name ≡ default_name) ⊎ ((title : Text) × IsNormalized title name)

abbrev pub ChangelogPart : List BlobDescriptor → List ArtifactBinding → Type 0
ChangelogPart layers rest =
    ((rest ≡ []) × ¬ HasLayer layers changelog)
    ⊎ ((b : ArtifactBinding) × (rest ≡ b ∷ [])
        × IsBound layers changelog b.local_name b
        × IsSafeName b.local_name)

pub record IsSelected (m : Manifest) (layers : List BlobDescriptor) (bs : List ArtifactBinding)
    : Type 0 where
  pub kernel : ArtifactBinding
  pub store : ArtifactBinding
  pub tree : ArtifactBinding
  pub rest : List ArtifactBinding
  pub parts : bs ≡ kernel ∷ store ∷ tree ∷ rest
  pub kernel_bound : IsBound layers uki m.kernel.name kernel
  pub store_bound : IsBound layers root m.store.name store
  pub tree_bound : IsBound layers verity m.verity.name tree
  pub changelog_part : ChangelogPart layers rest

find_layer_sound :
    (layers : List BlobDescriptor) (kind : MediaType) {layer : BlobDescriptor}
    → find_layer_by_media_type layers kind ≡ some layer
    → Member layer layers × IsTyped kind layer
unfolding find_layer_by_media_type
find_layer_sound layers kind {layer} e =
    let (m, t) = find_sound (λ l. l.media_type == media_type_text kind) layers e in
    (m, (eq_iff layer.media_type (media_type_text kind)).0 t)

find_layer_complete :
    (layers : List BlobDescriptor) (kind : MediaType)
    → HasLayer layers kind
    → (layer : BlobDescriptor) × (find_layer_by_media_type layers kind ≡ some layer)
unfolding find_layer_by_media_type
find_layer_complete layers kind (layer, m, t) =
    find_complete (λ l. l.media_type == media_type_text kind) layers layer m
      ((eq_iff layer.media_type (media_type_text kind)).1 t)

make_binding-IsBound :
    (layers : List BlobDescriptor) (kind : MediaType) (name : Text) (layer : BlobDescriptor)
    → Member layer layers × IsTyped kind layer
    → IsBound layers kind name (make_binding layer kind name)
make_binding-IsBound layers kind name layer (m, t) = record {
  kind_is = refl;
  named = refl;
  stored = m;
  typed = t;
  same_digest = refl;
}

required_binding-IsBound :
    (layers : List BlobDescriptor) (kind : MediaType) (name : Text) {b : ArtifactBinding}
    → required_binding layers kind name ≡ ok b
    → IsBound layers kind name b
unfolding required_binding
required_binding-IsBound layers kind name {b} e =
    elim (Option-cases (find_layer_by_media_type layers kind)) [
      | inl f ↦ let no : err missing_layer ≡ ok b = rw f at e in absurd (cc no)
      | inr (layer, f) ↦
          let made : ok (make_binding layer kind name) ≡ ok b = rw f at e in
          subst (IsBound layers kind name) (cc made)
            (make_binding-IsBound layers kind name layer (find_layer_sound layers kind f))
    ]

sanitize-IsNormalized :
    (title name : Text) → sanitize_relative_file_path title ≡ ok name → IsNormalized title name
unfolding sanitize_relative_file_path normalize_relative_path
sanitize-IsNormalized title name e = (normalize_relative_path_iff title name).0 e

path_or_default-IsSafeName :
    (title : Text) (r : Result Text)
    → sanitize_relative_file_path title ≡ r
    → IsSafeName (path_or_default r)
path_or_default-IsSafeName title (ok path) e = inr (title, sanitize-IsNormalized title path e)
path_or_default-IsSafeName title (err why) e = inl refl
path_or_default-IsSafeName title panic e = inl refl

name_of_title-IsSafeName : (title : Option Text) → IsSafeName (name_of_title title)
name_of_title-IsSafeName none = inl refl
name_of_title-IsSafeName (some title) =
    path_or_default-IsSafeName title (sanitize_relative_file_path title) refl

changelog_binding-ChangelogPart :
    (layers : List BlobDescriptor)
    → ChangelogPart layers (changelog_binding (find_layer_by_media_type layers changelog))
unfolding changelog_local_name
changelog_binding-ChangelogPart layers =
    elim (Option-cases (find_layer_by_media_type layers changelog)) [
      | inl f ↦ inl (
        ap changelog_binding f,
        λ h. let (layer, e) = find_layer_complete layers changelog h in absurd (cc (f, e)),
      )
      | inr (layer, f) ↦ inr (
        make_binding layer changelog (changelog_local_name layer),
        ap changelog_binding f,
        make_binding-IsBound layers changelog (changelog_local_name layer) layer
            (find_layer_sound layers changelog f),
        name_of_title-IsSafeName (title_of layer.annotations),
      )
    ]

-- What is selected from an image with success is one binding each for the kernel image, the root
-- and the verity tree, in this order, under the names of the manifest, and one for the changelog
-- exactly if the image has a layer of its type. Each is bound to a layer of the image that has the
-- type of its kind, by its digest; and the changelog's name is the default one or a title that is a
-- relative path without a parent directory, normalized.
pub select_artifact_bindings_sound :
    (m : Manifest) (layers : List BlobDescriptor) (bs : List ArtifactBinding)
    → select_artifact_bindings m layers ≡ ok bs
    → IsSelected m layers bs
unfolding select_artifact_bindings
select_artifact_bindings_sound m layers bs e =
    let (kernel, k, e1) = >>=-eq-ok (required_binding layers uki m.kernel.name) _ e in
    let (store, s, e2) = >>=-eq-ok (required_binding layers root m.store.name) _ e1 in
    let (tree, t, e3) = >>=-eq-ok (required_binding layers verity m.verity.name) _ e2 in
    record {
      kernel = kernel;
      store = store;
      tree = tree;
      rest = changelog_binding (find_layer_by_media_type layers changelog);
      parts = cc e3;
      kernel_bound = required_binding-IsBound layers uki m.kernel.name k;
      store_bound = required_binding-IsBound layers root m.store.name s;
      tree_bound = required_binding-IsBound layers verity m.verity.name t;
      changelog_part = changelog_binding-ChangelogPart layers;
    }

IsBound-HasLayer :
    (layers : List BlobDescriptor) (kind : MediaType) (name : Text) (b : ArtifactBinding)
    → IsBound layers kind name b
    → HasLayer layers kind
IsBound-HasLayer layers kind name b bound = (b.blob, bound.stored, bound.typed)

required_binding_total :
    (layers : List BlobDescriptor) (kind : MediaType) (name : Text)
    → HasLayer layers kind
    → (b : ArtifactBinding) × (required_binding layers kind name ≡ ok b)
unfolding required_binding
required_binding_total layers kind name h =
    let (layer, e) = find_layer_complete layers kind h in (make_binding layer kind name, rw e refl)

-- The selection succeeds exactly if the image has a layer of each of the three types that an update
-- needs: any other image is refused, and a changelog is never required.
pub select_artifact_bindings_iff :
    (m : Manifest) (layers : List BlobDescriptor)
    → ((bs : List ArtifactBinding) × (select_artifact_bindings m layers ≡ ok bs))
      ↔ (HasLayer layers uki × HasLayer layers root × HasLayer layers verity)
unfolding select_artifact_bindings
select_artifact_bindings_iff m layers = (
  λ h.
      let selected = select_artifact_bindings_sound m layers h.0 h.1 in
      (
        IsBound-HasLayer layers uki m.kernel.name selected.kernel selected.kernel_bound,
        IsBound-HasLayer layers root m.store.name selected.store selected.store_bound,
        IsBound-HasLayer layers verity m.verity.name selected.tree selected.tree_bound,
      ),
  λ h.
      let (has_uki, has_root, has_verity) = h in
      let (kernel, k) = required_binding_total layers uki m.kernel.name has_uki in
      let (store, s) = required_binding_total layers root m.store.name has_root in
      let (tree, t) = required_binding_total layers verity m.verity.name has_verity in
      (
        kernel ∷ store ∷ tree ∷ changelog_binding (find_layer_by_media_type layers changelog),
        rw (k, s, t) refl,
      ),
)
