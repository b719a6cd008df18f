-- ===== src/Image/Artifacts/Prune/Stale.antt =====
-- crates/ota-update/src/registry/mod.rs: which downloads of a repository are removed.
use ghaf_givc.Prelude.{
  ℕ, ◌≤◌, ◌≡◌, refl, ◌≢◌, inl, inr, true, false, Option, none, some, List, [], ◌∷◌, ◌++◌, arith,
  Bool-cases, list_eq, option_eq, nat_eq, length, take, drop, All,
}
use mathlib.Core.List.Perm
use mathlib.Core.List.{Perm}
use ghaf_givc.Image.Artifacts.Prune.{Tag, not_after, insert_newest, newest_first, stale}

abbrev pub NotAfter : Tag → Tag → Type 0
NotAfter a b = not_after a.modified b.modified ≡ true

not_after_trans :
    (a b c : Option ℕ) → not_after a b ≡ true → not_after b c ≡ true → not_after a c ≡ true
not_after_trans none b c h k = refl
not_after_trans (some l) none c h k = cc
not_after_trans (some l) (some m) none h k = cc
not_after_trans (some l) (some m) (some n) h k = grind arith

not_after_total : (a b : Option ℕ) → not_after a b ≡ false → not_after b a ≡ true
not_after_total none b h = cc
not_after_total (some m) none h = refl
not_after_total (some m) (some n) h = grind arith

-- Each is not after those before it.
abbrev IsNewestFirst : List Tag → Type 0
IsNewestFirst [] = Unit
IsNewestFirst (x ∷ xs) = All (λ y. NotAfter y x) xs × IsNewestFirst xs

All-NotAfter :
    (x y : Tag) (ys : List Tag)
    → NotAfter y x
    → All (λ z. NotAfter z y) ys
    → All (λ z. NotAfter z x) ys
All-NotAfter x y [] h a = tt
All-NotAfter x y (z ∷ zs) h (hz, a) =
    (not_after_trans z.modified y.modified x.modified hz h, All-NotAfter x y zs h a)

All-insert_newest :
    (x w : Tag) (ys : List Tag)
    → NotAfter x w
    → All (λ z. NotAfter z w) ys
    → All (λ z. NotAfter z w) (insert_newest x ys)
unfolding insert_newest
All-insert_newest x w [] h a = (h, tt)
All-insert_newest x w (y ∷ ys) h (hy, a) = elim (Bool-cases (not_after y.modified x.modified)) [
  | inl t ↦ rw t (h, (hy, a))
  | inr f ↦ rw f (hy, All-insert_newest x w ys h a)
]

insert_newest-IsNewestFirst :
    (x : Tag) (ys : List Tag) → IsNewestFirst ys → IsNewestFirst (insert_newest x ys)
unfolding insert_newest
insert_newest-IsNewestFirst x [] s = (tt, tt)
insert_newest-IsNewestFirst x (y ∷ ys) (a, s) =
    elim (Bool-cases (not_after y.modified x.modified)) [
      | inl t ↦ rw t ((t, All-NotAfter x y ys t a), (a, s))
      | inr f ↦
          let before = not_after_total y.modified x.modified f in
          rw f (All-insert_newest x y ys before a, insert_newest-IsNewestFirst x ys s)
    ]

newest_first-IsNewestFirst : (tags : List Tag) → IsNewestFirst (newest_first tags)
unfolding newest_first
newest_first-IsNewestFirst [] = tt
newest_first-IsNewestFirst (x ∷ xs) =
    insert_newest-IsNewestFirst x (newest_first xs) (newest_first-IsNewestFirst xs)

insert_newest-perm : (x : Tag) (ys : List Tag) → Perm (insert_newest x ys) (x ∷ ys)
unfolding insert_newest
insert_newest-perm x [] = Perm.rfl
insert_newest-perm x (y ∷ ys) = elim (Bool-cases (not_after y.modified x.modified)) [
  | inl t ↦ rw t Perm.rfl
  | inr f ↦ rw f (Perm.trans (Perm.cons y (insert_newest-perm x ys)) (Perm.swap x y ys))
]

newest_first-perm : (tags : List Tag) → Perm (newest_first tags) tags
unfolding newest_first
newest_first-perm [] = Perm.rfl
newest_first-perm (x ∷ xs) =
    Perm.trans (insert_newest-perm x (newest_first xs)) (Perm.cons x (newest_first-perm xs))

-- Of the downloads of a repository some are kept and the others are removed: at most two are kept,
-- exactly two if any is removed, and none that is removed is newer than one that is kept.
pub record IsSplit (tags kept removed : List Tag) : Type 0 where
  pub all : Perm (kept ++ removed) tags
  pub few : length kept ≤ 2
  pub enough : removed ≢ [] → length kept ≡ 2
  pub newest : All (λ k. All (λ r. NotAfter r k) removed) kept

-- The split of the downloads that are in order already.
take-IsSplit :
    (sorted : List Tag) → IsNewestFirst sorted → IsSplit sorted (take 2 sorted) (drop 2 sorted)
take-IsSplit [] s = record {
  all = Perm.rfl;
  few = omega arith;
  enough = λ n. absurd (n refl);
  newest = tt;
}
take-IsSplit (x ∷ []) s = record {
  all = Perm.rfl;
  few = omega arith;
  enough = λ n. absurd (n refl);
  newest = (tt, tt);
}
take-IsSplit (x ∷ y ∷ rest) ((_, ax), (ay, s)) = record {
  all = Perm.rfl;
  few = omega arith;
  enough = λ n. refl;
  newest = (ax, (ay, tt));
}

pub stale-IsSplit : (tags : List Tag) → (kept : List Tag) × IsSplit tags kept (stale tags)
unfolding stale
stale-IsSplit tags =
    let split = take-IsSplit (newest_first tags) (newest_first-IsNewestFirst tags) in
    (
      take 2 (newest_first tags),
      record {
        all = Perm.trans split.all (newest_first-perm tags);
        few = split.few;
        enough = split.enough;
        newest = split.newest;
      },
    )
