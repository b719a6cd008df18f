-- ===== src/Policy/Urls/Polls.antt =====
-- crates/policyadmin/src/policy_urls.rs: a policy that has been downloaded is not downloaded again.
use ghaf_givc.Prelude.{
  ◌≡◌, refl, sym, ap, subst, ◌∙◌, inl, inr, Bool, true, false, Option, none, some, List, [], ◌∷◌,
  ◌++◌, if◌then◌else◌, Bool-cases, Option-cases, ◌==◌, eq_refl, list_eq, option_eq, nat_eq,
  filter_by, Error, Result, ok, err, ◌>>=◌, ◌>>◌, ensure, context, >>=-eq-ok, head_request_failed,
  get_request_failed, policy_not_found, policy_without_updater,
}
use ghaf_givc.Text.{Text, codes, join, contains}
use ghaf_givc.Policy.{PolicyConfigPolicyUpdater, PolicyConfigPolicy, PolicyConfig}
use ghaf_givc.Policy.Changes.{tasks, with_tasks, send_to_vms-with_tasks}
use ghaf_givc.Policy.Urls.{
  Web, remote_head, file_name_of, final_head, write_body, download, unless_same, poll_once,
  PolicyTask, read_policy_config, update_policies, update_head, Poller, take_update, after_poll,
  monitor_round, find_policy, head_updated, with_head, task_of, read_policy,
}

ensure-passes : (b : Bool) (e : Error) → ensure b e ≡ ok tt → b ≡ true
ensure-passes true e h = refl
ensure-passes false e h = cc

module _ (web : Web) (output_dir name url : Text) where
  Polled : Type 0
  Polled = Result (Option (Text × Text))

  write_body-some :
      (body : Text) (o : Option Text) {new_head file : Text}
      → write_body web output_dir name url body o ≡ ok (some (new_head, file))
      → (o ≡ some new_head) × (file ≡ file_name_of url)
  write_body-some body none e = cc
  write_body-some body (some rh) {new_head} {file} e =
      let (_, _, done) =
        >>=-eq-ok (web.write (join (join output_dir name) (file_name_of url)) body) _ e in
      let answer : Text × Text = (rh, file_name_of url) in
      let wanted : Text × Text = (new_head, file) in
      let same : some answer ≡ some wanted = cc done in
      let both : answer ≡ wanted = cc same in
      let head_is : rh ≡ new_head = ap (λ p. p.0) both in
      let file_is : file_name_of url ≡ file = ap (λ p. p.1) both in (ap some head_is, sym file_is)

  hash_head-stable :
      (current body : Text) {new_head : Text}
      → final_head web output_dir current none body ≡ some new_head
      → final_head web output_dir new_head none body ≡ none
  hash_head-stable current body {new_head} e =
      let hash = codes "sha256:" ++ web.sha256 body in
      elim (Bool-cases (hash == current)) [
        | inl t ↦ let no : none ≡ some new_head = rw t at e in absurd (cc no)
        | inr f ↦
            let found : some hash ≡ some new_head = rw f at e in
            let same : hash ≡ new_head = cc found in
            ap (λ b. if b then none else some hash) (ap (λ h. hash == h) (sym same) ∙ eq_refl hash)
      ]

  download-stable :
      (current : Text) {new_head file : Text}
      → download web output_dir name url current none ≡ ok (some (new_head, file))
      → (download web output_dir name url new_head none ≡ ok none) × (file ≡ file_name_of url)
  download-stable current {new_head} {file} e =
      let (resp, got, e1) = >>=-eq-ok (web.download url) _ e in
      let (_, passed, e2) = >>=-eq-ok (ensure resp.is_success get_request_failed) _ e1 in
      let (final, named) =
        write_body-some resp.body (final_head web output_dir current none resp.body) e2 in
      (
        ap
              (λ r. r >>= λ get_resp.
                ensure get_resp.is_success get_request_failed
                >> write_body web output_dir name url get_resp.body
                    (final_head web output_dir new_head none get_resp.body))
              got
            ∙ (ap
                  (λ r.
                    r
                    >> write_body web output_dir name url resp.body
                        (final_head web output_dir new_head none resp.body))
                  passed
                ∙ ap (write_body web output_dir name url resp.body)
                    (hash_head-stable current resp.body final)),
        named,
      )

  headers-stable :
      (current rh : Text) {new_head file : Text}
      → unless_same web output_dir name url current (some rh) ≡ ok (some (new_head, file))
      → (rh ≡ new_head) × (file ≡ file_name_of url)
  headers-stable current rh {new_head} {file} e = elim (Bool-cases (rh == current)) [
    | inl t ↦ let no : ok none ≡ ok (some (new_head, file)) = rw t at e in absurd (cc no)
    | inr f ↦
        let e0 : download web output_dir name url current (some rh) ≡ ok (some (new_head, file)) =
          rw f at e in
        let (resp, got, e1) = >>=-eq-ok (web.download url) _ e0 in
        let (_, passed, e2) = >>=-eq-ok (ensure resp.is_success get_request_failed) _ e1 in
        let (final, named) = write_body-some resp.body (some rh) e2 in (cc final, named)
  ]

  unless_same-stable :
      (current : Text) (remote : Option Text) {new_head file : Text}
      → unless_same web output_dir name url current remote ≡ ok (some (new_head, file))
      → (unless_same web output_dir name url new_head remote ≡ ok none) × (file ≡ file_name_of url)
  unless_same-stable current none e = download-stable current e
  unless_same-stable current (some rh) {new_head} e =
      let (same, named) = headers-stable current rh e in
      (
        ap (λ b. if b then ok none else download web output_dir name url new_head (some rh))
            (ap (λ h. rh == h) (sym same) ∙ eq_refl rh),
        named,
      )

  -- A poll that has brought a new head brings nothing when it is repeated with this head.
  pub poll_once-stable :
      (current : Text) {new_head file : Text}
      → poll_once web output_dir name url current ≡ ok (some (new_head, file))
      → (poll_once web output_dir name url new_head ≡ ok none) × (file ≡ file_name_of url)
  unfolding poll_once
  poll_once-stable current {new_head} e =
      let (resp, got, e1) = >>=-eq-ok (web.head url) _ e in
      let (_, passed, e2) = >>=-eq-ok (ensure resp.is_success head_request_failed) _ e1 in
      let (stable, named) = unless_same-stable current (remote_head resp) e2 in
      (
        ap
              (λ r. r >>= λ head_resp.
                ensure head_resp.is_success head_request_failed
                >> unless_same web output_dir name url new_head (remote_head head_resp))
              got
            ∙ (ap (λ r. r >> unless_same web output_dir name url new_head (remote_head resp)) passed
                ∙ stable),
        named,
      )

-- The entry of a policy before and after its head was set.
record HeadSet (name new_head : Text) (ps next : List (Text × PolicyConfigPolicy)) : Type 0 where
  policy : PolicyConfigPolicy
  updater : PolicyConfigPolicyUpdater
  before : find_policy name ps ≡ some policy
  updated : policy.per_policy_updater ≡ some updater
  after : find_policy name next ≡ some (with_head new_head policy updater)

head_updated-eq-ok :
    (new_head : Text) (policy : PolicyConfigPolicy) {q : PolicyConfigPolicy}
    → head_updated new_head policy ≡ ok q
    → (updater : PolicyConfigPolicyUpdater) × (policy.per_policy_updater ≡ some updater)
      × (with_head new_head policy updater ≡ q)
head_updated-eq-ok new_head policy {q} e = elim (Option-cases policy.per_policy_updater) [
  | inl f ↦ let no : err policy_without_updater ≡ ok q = rw f at e in absurd (cc no)
  | inr (updater, f) ↦
      let done : ok (with_head new_head policy updater) ≡ ok q = rw f at e in (updater, f, cc done)
]

update_policies-HeadSet :
    (name new_head : Text) (ps : List (Text × PolicyConfigPolicy))
    {next : List (Text × PolicyConfigPolicy)}
    → update_policies name new_head ps ≡ ok next
    → HeadSet name new_head ps next
unfolding update_policies
update_policies-HeadSet name new_head [] e = cc
update_policies-HeadSet name new_head (p ∷ ps) {next} e = elim (Bool-cases (p.0 == name)) [
  | inl t ↦
      let e0 : (head_updated new_head p.1 >>= λ q. ok ((p.0, q) ∷ ps)) ≡ ok next =
        rw (t, update_policies) at e in
      let (q, made, done) = >>=-eq-ok (head_updated new_head p.1) _ e0 in
      let (updater, has, same) = head_updated-eq-ok new_head p.1 made in
      let next_is : (p.0, q) ∷ ps ≡ next = cc done in
      record {
        policy = p.1;
        updater = updater;
        before = rw t refl;
        updated = has;
        after =
            subst (λ l. find_policy name l ≡ some (with_head new_head p.1 updater)) next_is
              (rw t (ap some (sym same)));
      }
  | inr f ↦
      let e0 : (update_policies name new_head ps >>= λ qs. ok (p ∷ qs)) ≡ ok next =
        rw (f, update_policies) at e in
      let (qs, made, done) = >>=-eq-ok (update_policies name new_head ps) _ e0 in
      let set = update_policies-HeadSet name new_head ps made in
      let next_is : p ∷ qs ≡ next = cc done in
      record {
        policy = set.policy;
        updater = set.updater;
        before = rw f set.before;
        updated = set.updated;
        after =
            subst (λ l. find_policy name l ≡ some (with_head new_head set.policy set.updater))
              next_is (rw f set.after);
      }
]

-- A head that was set for a policy is the head that is read for it, and the rest that is read for it
-- is as before.
read_policy_config-update_head :
    (name new_head : Text) (config : PolicyConfig) {next : PolicyConfig}
    → update_head name new_head config ≡ ok next
    → (task : PolicyTask) × (read_policy_config name config ≡ ok task)
      × (read_policy_config name next ≡ ok (record task { head = new_head }))
unfolding update_head read_policy_config
read_policy_config-update_head name new_head config {next} e =
    let (policies, made, done) = >>=-eq-ok (update_policies name new_head config.policies) _ e in
    let set = update_policies-HeadSet name new_head config.policies made in
    let next_is : record config { policies = policies } ≡ next = cc done in
    (
      task_of set.policy set.updater,
      ap (λ o. context policy_not_found o >>= read_policy) set.before
          ∙ ap
              (λ o. context policy_without_updater o >>= λ updater. ok (task_of set.policy updater))
              set.updated,
      ap (λ c. context policy_not_found (find_policy name c.policies) >>= read_policy) (sym next_is)
          ∙ ap (λ o. context policy_not_found o >>= read_policy) set.after,
    )

module _ (web : Web) (output_dir policy_name : Text) (task : PolicyTask) where
  -- A round that finds a new version queues one update for each machine of the policy that has a
  -- worker, in their order, for the file that it has written; a machine without a worker gets none,
  -- and the new head is kept all the same. The next round, if the server's answers are the same,
  -- queues nothing.
  pub monitor_round-once :
      (p : Poller) {new_head file : Text}
      → poll_once web output_dir policy_name task.url p.current_head ≡ ok (some (new_head, file))
      → let next = (monitor_round output_dir policy_name task web p).1 in
        (next.current_head ≡ new_head)
        × (next.manager
            ≡ with_tasks p.manager (
                tasks policy_name
                  (join (join output_dir policy_name) (file_name_of task.url))
                  (filter_by (contains p.manager.workers) task.vms)))
        × ((monitor_round output_dir policy_name task web next).1.manager ≡ next.manager)
  unfolding monitor_round
  monitor_round-once p {new_head} {file} e =
      let (stable, named) = poll_once-stable web output_dir policy_name task.url p.current_head e in
      let taken = take_update output_dir policy_name task new_head file p in
      let served = filter_by (contains p.manager.workers) task.vms in
      let next_is : (monitor_round output_dir policy_name task web p).1 ≡ taken =
        ap (λ r. (after_poll output_dir policy_name task r p).1) e in
      (
        ap (λ n. n.current_head) next_is,
        ap (λ n. n.manager) next_is
            ∙ (send_to_vms-with_tasks task.vms policy_name (join (join output_dir policy_name) file)
                  p.manager
                ∙ ap
                    (λ f.
                      with_tasks p.manager
                        (tasks policy_name (join (join output_dir policy_name) f) served))
                    named),
        ap (λ n. (monitor_round output_dir policy_name task web n).1.manager) next_is
            ∙ (ap (λ r. (after_poll output_dir policy_name task r taken).1.manager) stable
                ∙ ap (λ n. n.manager) (sym next_is)),
      )
