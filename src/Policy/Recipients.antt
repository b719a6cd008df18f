-- ===== src/Policy/Recipients.antt =====
-- crates/policyadmin/src/policy_manager.rs: who gets the updates of a change set.
use ghaf_givc.Prelude.{
  ◌≡◌, refl, sym, ap, ap₂, subst, ◌∙◌, inl, inr, Bool, true, Option, none, some, List, [], ◌∷◌,
  ◌++◌, Bool-cases, ◌==◌, list_eq, option_eq, nat_eq, All, Member,
}
use ghaf_givc.Text.{
  Text, codes, lines, trim, join, join_with, split_char, split_char_sound, split_whitespace,
  strip_prefix, strip_prefix_sound, Lacks,
}
use ghaf_givc.Policy.{
  PolicyConfig, Task, new_manager, subscribers, second, first_two, policy_and_file, below_policies,
  parse_line, process_changeset,
}
use ghaf_givc.Policy.Changes.{tasks, change_tasks, wanted, process_changeset-wanted}

-- The second word of the line is a path below `vm-policies`, whose first component is the policy and
-- the second one the file; the components have no slash in them.
pub record IsNamed (line policy_name file_name : Text) : Type 0 where
  pub further : List Text
  pub path_is :
      second (split_whitespace (trim line))
      ≡ some (codes "vm-policies/" ++ join_with b'/' (policy_name ∷ file_name ∷ further))
  pub policy_lacks : Lacks b'/' policy_name
  pub file_lacks : Lacks b'/' file_name

-- The names that stand in the path.
abbrev IsPath : Text → Text → Text → Type 0
IsPath rest policy_name file_name =
    (further : List Text) × (rest ≡ join_with b'/' (policy_name ∷ file_name ∷ further))
    × Lacks b'/' policy_name
    × Lacks b'/' file_name

first_two-IsPath :
    (rest : Text) {policy_name file_name : Text}
    → first_two (split_char b'/' rest) ≡ some (policy_name, file_name)
    → IsPath rest policy_name file_name
first_two-IsPath rest {policy_name} {file_name} e =
    let split = split_char_sound b'/' rest in
    by_tail split.head split.tail (sym (ap first_two split.parts) ∙ e) split.lack split.joined
  where
    by_tail :
        (head : Text) (tail : List Text)
        → first_two (head ∷ tail) ≡ some (policy_name, file_name)
        → All (Lacks b'/') (head ∷ tail)
        → join_with b'/' (head ∷ tail) ≡ rest
        → IsPath rest policy_name file_name
    by_tail head [] e lack joined = absurd (cc e)
    by_tail head (next ∷ further) e lack joined =
        let answer : Text × Text = (head, next) in
        let wanted_names : Text × Text = (policy_name, file_name) in
        let same_some : some answer ≡ some wanted_names = e in
        let same : answer ≡ wanted_names = cc same_some in
        let policy_is = ap (λ p. p.0) same in
        let file_is = ap (λ p. p.1) same in
        (
          further,
          sym joined ∙ ap₂ (λ p f. join_with b'/' (p ∷ f ∷ further)) policy_is file_is,
          subst (Lacks b'/') policy_is lack.0,
          subst (Lacks b'/') file_is lack.1.0,
        )

parse_line-IsNamed :
    (line : Text) {policy_name file_name : Text}
    → parse_line (trim line) ≡ some (policy_name, file_name)
    → IsNamed line policy_name file_name
unfolding parse_line
parse_line-IsNamed line {policy_name} {file_name} e =
    by_word (second (split_whitespace (trim line))) refl e
  where
    by_rest :
        (word : Text) (rest : Option Text)
        → second (split_whitespace (trim line)) ≡ some word
        → strip_prefix (codes "vm-policies/") word ≡ rest
        → policy_and_file rest ≡ some (policy_name, file_name)
        → IsNamed line policy_name file_name
    by_rest word none w f e = absurd (cc e)
    by_rest word (some rest) w f e =
        let (further, path, policy_lacks, file_lacks) = first_two-IsPath rest e in
        record {
          further = further;
          path_is =
              w
              ∙ ap some (
                  strip_prefix_sound (codes "vm-policies/") word f
                  ∙ ap (λ r. codes "vm-policies/" ++ r) path);
          policy_lacks = policy_lacks;
          file_lacks = file_lacks;
        }

    by_word :
        (word : Option Text)
        → second (split_whitespace (trim line)) ≡ word
        → policy_and_file (below_policies word) ≡ some (policy_name, file_name)
        → IsNamed line policy_name file_name
    by_word none w e = absurd (cc e)
    by_word (some word) w e = by_rest word (strip_prefix (codes "vm-policies/") word) w refl e

module _ (exists : Text → Bool) (dir : Text) (configs : PolicyConfig) (changeset : Text) where
  -- A line of the change set names the policy and the file. The update is of the file of this name
  -- in the directory of this policy, which is there, and goes to a machine of the policy.
  pub record IsDue (task : Task) : Type 0 where
    pub line : Text
    pub listed : Member line (lines changeset)
    pub file_name : Text
    pub named : IsNamed line task.policy_name file_name
    pub file_is : task.file ≡ join (join dir task.policy_name) file_name
    pub there : exists task.file ≡ true
    pub subscribed : Member task.vm (subscribers task.policy_name configs.policies)

  tasks-IsDue :
      (line policy_name file_name : Text) (vms : List Text)
      → Member line (lines changeset)
      → IsNamed line policy_name file_name
      → exists (join (join dir policy_name) file_name) ≡ true
      → ((vm : Text) → Member vm vms → Member vm (subscribers policy_name configs.policies))
      → All IsDue (tasks policy_name (join (join dir policy_name) file_name) vms)
  unfolding tasks
  tasks-IsDue line policy_name file_name [] l n t h = tt
  tasks-IsDue line policy_name file_name (vm ∷ vms) l n t h = (
    record {
      line = line;
      listed = l;
      file_name = file_name;
      named = n;
      file_is = refl;
      there = t;
      subscribed = h vm (inl refl);
    },
    tasks-IsDue line policy_name file_name vms l n t (λ v m. h v (inr m)),
  )

  change_tasks-IsDue :
      (line : Text) (change : Option (Text × Text))
      → Member line (lines changeset)
      → parse_line (trim line) ≡ change
      → All IsDue (change_tasks exists dir configs change)
  change_tasks-IsDue line none l e = tt
  change_tasks-IsDue line (some (policy_name, file_name)) l e =
      elim (Bool-cases (exists (join (join dir policy_name) file_name))) [
        | inl t ↦ rw t (
            tasks-IsDue line policy_name file_name (subscribers policy_name configs.policies) l
              (parse_line-IsNamed line e) t (λ v m. m))
        | inr f ↦ rw f tt
      ]

  All-append : (xs ys : List Task) → All IsDue xs → All IsDue ys → All IsDue (xs ++ ys)
  All-append [] ys h k = k
  All-append (x ∷ xs) ys h k = (h.0, All-append xs ys h.1 k)

  wanted-IsDue :
      (ls : List Text)
      → ((line : Text) → Member line ls → Member line (lines changeset))
      → All IsDue (wanted exists dir configs ls)
  unfolding wanted
  wanted-IsDue [] h = tt
  wanted-IsDue (line ∷ rest) h =
      let later = wanted-IsDue rest (λ l m. h l (inr m)) in
      elim (Bool-cases (trim line == [])) [
        | inl t ↦ rw t later
        | inr f ↦ rw f (
            All-append (change_tasks exists dir configs (parse_line (trim line)))
              (wanted exists dir configs rest)
              (change_tasks-IsDue line (parse_line (trim line)) (h line (inl refl)) refl) later)
      ]

-- Whatever a change set says, each update that it queues is for a policy and a file that a line of it
-- names, as the first two components of a path below `vm-policies`, neither of which has a slash in
-- it. The file is the one of this name in the policy's directory and is there, and the update goes to
-- a machine that the configuration lists for the policy.
pub process_changeset-IsDue :
    (exists : Text → Bool) (dir : Text) (configs : PolicyConfig) (changeset : Text)
    → All
        (IsDue exists dir configs changeset)
        (process_changeset exists changeset (new_manager dir configs)).queued
process_changeset-IsDue exists dir configs changeset =
    rw (process_changeset-wanted exists dir configs changeset)
      (wanted-IsDue exists dir configs changeset (lines changeset) (λ l m. m))
