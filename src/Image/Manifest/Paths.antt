-- ===== src/Image/Manifest/Paths.antt =====
-- crates/ota-update/src/image/manifest.rs: which paths a manifest may name.
use ghaf_givc.Prelude.{
  ◌≡◌, refl, sym, ◌∙◌, ◌≢◌, ◌↔◌, Bool, false, not, List, [], ◌∷◌, arith, ◌==◌, eq_iff, ne→eq_false,
  list_eq, option_eq, nat_eq, All, Error, ok, ◌>>=◌, ◌>>◌, ensure, >>=-eq-ok, absolute_path,
  empty_path,
}
use ghaf_givc.Text.{
  Text, join, components, Component, root_dir, cur_dir, parent_dir, normal, has_root,
}
use ghaf_givc.Image.Manifest.{push_components, normalize_relative_path}

-- The component does not leave the directory.
abbrev pub IsInside : Component → Type 0
IsInside root_dir = ⊥
IsInside cur_dir = Unit
IsInside parent_dir = ⊥
IsInside (normal item) = Unit

-- The names of the components, joined.
unfoldable pub joined : Text → List Component → Text
joined out [] = out
joined out (normal item ∷ cs) = joined (join out item) cs
joined out (root_dir ∷ cs) = joined out cs
joined out (cur_dir ∷ cs) = joined out cs
joined out (parent_dir ∷ cs) = joined out cs

push_components_sound :
    (out : Text) (cs : List Component) {r : Text}
    → push_components out cs ≡ ok r
    → All IsInside cs × (r ≡ joined out cs)
unfolding push_components joined
push_components_sound out [] h = (tt, ground arith)
push_components_sound out (normal item ∷ cs) h =
    let (a, e) = push_components_sound (join out item) cs h in ((tt, a), e)
push_components_sound out (cur_dir ∷ cs) h =
    let (a, e) = push_components_sound out cs h in ((tt, a), e)
push_components_sound out (parent_dir ∷ cs) h = cc
push_components_sound out (root_dir ∷ cs) h = cc

push_components_complete :
    (out : Text) (cs : List Component)
    → All IsInside cs
    → push_components out cs ≡ ok (joined out cs)
unfolding push_components joined
push_components_complete out [] h = refl
push_components_complete out (normal item ∷ cs) h = push_components_complete (join out item) cs h.1
push_components_complete out (cur_dir ∷ cs) h = push_components_complete out cs h.1
push_components_complete out (parent_dir ∷ cs) h = absurd h.0
push_components_complete out (root_dir ∷ cs) h = absurd h.0

-- The path is relative, none of its components leaves the directory, and the result is its names
-- joined, which are not none.
pub record IsNormalized (value out : Text) : Type 0 where
  pub relative : has_root value ≡ false
  pub inside : All IsInside (components value)
  pub written : out ≡ joined [] (components value)
  pub nonempty : out ≢ []

not-eq-true : (b : Bool) (e : Error) {u : Unit {0}} → ensure (not b) e ≡ ok u → b ≡ false
not-eq-true b e h = ground arith

normalize_complete :
    (rooted : Bool) (cs : List Component) (out : Text)
    → rooted ≡ false
    → All IsInside cs
    → out ≡ joined [] cs
    → out ≢ []
    → (do
      ensure (not rooted) absolute_path
      r ← push_components [] cs
      ensure (not (r == [])) empty_path
      ok r)
      ≡ ok out
normalize_complete rooted cs out relative inside written n =
    let named : (out == []) ≡ false = ne→eq_false out [] n in
    rw (relative, push_components_complete [] cs inside, ← written, named) refl

-- The path of a manifest is accepted exactly if it is relative, has no parent directory in it and
-- names something; it is then written as its names joined, without `.` and empty components.
pub normalize_relative_path_iff :
    (value out : Text) → (normalize_relative_path value ≡ ok out) ↔ IsNormalized value out
unfolding normalize_relative_path
normalize_relative_path_iff value out = (
  λ h.
      let (_, relative, h1) = >>=-eq-ok (ensure (not (has_root value)) absolute_path) _ h in
      let (r, pushed, h2) = >>=-eq-ok (push_components [] (components value)) _ h1 in
      let (_, some_name, h3) = >>=-eq-ok (ensure (not (r == [])) empty_path) _ h2 in
      let (inside, written) = push_components_sound [] (components value) pushed in
      let same : r ≡ out = cc in
      let named : (r == []) ≡ false = not-eq-true (r == []) empty_path some_name in
      record {
        relative = not-eq-true (has_root value) absolute_path relative;
        inside = inside;
        written = sym same ∙ written;
        nonempty = λ e. absurd (cc (named, (eq_iff r []).1 (same ∙ e)));
      },
  λ n.
      normalize_complete (has_root value) (components value) out n.relative n.inside n.written
        n.nonempty,
)
