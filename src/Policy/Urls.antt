-- ===== src/Policy/Urls.antt =====
-- crates/policyadmin/src/policy_urls.rs: the monitor of the policies that are downloaded one by one.
pub mod Polls
use ghaf_givc.Prelude.{
  ℕ, Bool, true, false, not, Option, none, some, List, [], ◌∷◌, ◌++◌, if◌then◌else◌, ◌==◌, list_eq,
  option_eq, nat_eq, Result, ok, err, panic, ◌>>=◌, ◌>>◌, ensure, context, head_request_failed,
  get_request_failed, policy_not_found, policy_without_updater,
}
use ghaf_givc.Text.{Text, codes, split_char, join}
use ghaf_givc.Policy.{
  PolicyConfigPolicyUpdater, PolicyConfigPolicy, PolicyConfig, PolicyManager, send_to_vms,
}

-- The answer to a HEAD request: whether its status is a success, and the two headers, if they are
-- there and are text.
pub record HeadResponse : Type 0 where
  pub is_success : Bool
  pub etag : Option Text
  pub last_modified : Option Text

pub record GetResponse : Type 0 where
  pub is_success : Bool
  pub body : Text

-- The server of a policy, the hash of a body, and the file system.
pub record Web : Type 0 where
  pub head : Text → Result HeadResponse
  pub download : Text → Result GetResponse
  pub sha256 : Text → Text
  pub write : (path body : Text) → Result (Unit {0})

abbrev pub default_poll_interval : ℕ
default_poll_interval = 60

abbrev etag_head : Option Text → Option Text
etag_head none = none
etag_head (some s) = some (codes "etag:" ++ s)

abbrev last_modified_head : Option Text → Option Text
last_modified_head none = none
last_modified_head (some s) = some (codes "last-modified:" ++ s)

abbrev or_else : Option Text → Option Text → Option Text
or_else (some a) b = some a
or_else none b = b

-- The entity tag, or else the time of the last change.
unfoldable pub remote_head : HeadResponse → Option Text
remote_head r = or_else (etag_head r.etag) (last_modified_head r.last_modified)

abbrev last_or : Text → List Text → Text
last_or dft [] = dft
last_or dft (p ∷ []) = p
last_or dft (p ∷ q ∷ ps) = last_or dft (q ∷ ps)

unfoldable pub file_name_of : Text → Text
file_name_of url = last_or (codes "policy.bin") (split_char b'/' url)

module _ (web : Web) (output_dir : Text) where
  -- The new head, unless nothing has changed: without headers it is the hash of the body.
  abbrev pub final_head : Text → Option Text → Text → Option Text
  final_head current (some rh) body = some rh
  final_head current none body =
      if (codes "sha256:" ++ web.sha256 body) == current
      then none
      else some (codes "sha256:" ++ web.sha256 body)

  abbrev pub write_body : Text → Text → Text → Option Text → Result (Option (Text × Text))
  write_body name url body none = ok none
  write_body name url body (some new_head) = do
    web.write (join (join output_dir name) (file_name_of url)) body
    ok (some (new_head, file_name_of url))

  abbrev pub download : Text → Text → Text → Option Text → Result (Option (Text × Text))
  download name url current rh = do
    get_resp ← web.download url
    ensure get_resp.is_success get_request_failed
    write_body name url get_resp.body (final_head current rh get_resp.body)

  -- Nothing is downloaded where the headers say that nothing has changed.
  abbrev pub unless_same : Text → Text → Text → Option Text → Result (Option (Text × Text))
  unless_same name url current none = download name url current none
  unless_same name url current (some rh) =
      if rh == current then ok none else download name url current (some rh)

  unfoldable pub poll_once : Text → Text → Text → Result (Option (Text × Text))
  poll_once name url current = do
    head_resp ← web.head url
    ensure head_resp.is_success head_request_failed
    unless_same name url current (remote_head head_resp)

abbrev pub find_policy : Text → List (Text × PolicyConfigPolicy) → Option PolicyConfigPolicy
find_policy name [] = none
find_policy name (p ∷ ps) = if p.0 == name then some p.1 else find_policy name ps

abbrev text_or_empty : Option Text → Text
text_or_empty none = []
text_or_empty (some s) = s

abbrev or_default : Option ℕ → ℕ
or_default none = default_poll_interval
or_default (some n) = n

-- What the loop of a policy reads at its start.
pub record PolicyTask : Type 0 where
  pub url : Text
  pub head : Text
  pub vms : List Text
  pub interval : ℕ

abbrev pub task_of : PolicyConfigPolicy → PolicyConfigPolicyUpdater → PolicyTask
task_of policy updater = record {
  url = updater.url;
  head = text_or_empty updater.head;
  vms = policy.vms;
  interval = or_default updater.poll_interval_secs;
}

abbrev pub read_policy : PolicyConfigPolicy → Result PolicyTask
read_policy policy = do
  updater ← context policy_without_updater policy.per_policy_updater
  ok (task_of policy updater)

unfoldable pub read_policy_config : Text → PolicyConfig → Result PolicyTask
read_policy_config name config =
    context policy_not_found (find_policy name config.policies) >>= read_policy

-- The policy with the new head.
abbrev pub with_head : Text → PolicyConfigPolicy → PolicyConfigPolicyUpdater → PolicyConfigPolicy
with_head new_head policy updater = record policy {
  per_policy_updater = some (record updater { head = some new_head });
}

abbrev pub head_updated : Text → PolicyConfigPolicy → Result PolicyConfigPolicy
head_updated new_head policy = do
  updater ← context policy_without_updater policy.per_policy_updater
  ok (with_head new_head policy updater)

unfoldable pub update_policies :
    Text → Text → List (Text × PolicyConfigPolicy) → Result (List (Text × PolicyConfigPolicy))
update_policies name new_head [] = err policy_not_found
update_policies name new_head (p ∷ ps) = elim (p.0 == name) [
  | true ↦ head_updated new_head p.1 >>= λ q. ok ((p.0, q) ∷ ps)
  | false ↦ update_policies name new_head ps >>= λ qs. ok (p ∷ qs)
]

-- The change of the configuration in memory, which is then written to its file.
unfoldable pub update_head : Text → Text → PolicyConfig → Result PolicyConfig
update_head name new_head config = do
  policies ← update_policies name new_head config.policies
  ok (record config { policies = policies })

-- The state of the loop of a policy; the configuration and the manager are shared.
pub record Poller : Type 0 where
  pub config : PolicyConfig
  pub manager : PolicyManager
  pub current_head : Text
  pub wait_time : ℕ

abbrev pub or_kept : PolicyConfig → Result PolicyConfig → PolicyConfig
or_kept config (ok next) = next
or_kept config (err e) = config
or_kept config panic = config

module _ (output_dir : Text) (policy_name : Text) (task : PolicyTask) where
  -- The machines are told, and the new head is kept.
  abbrev pub take_update : Text → Text → Poller → Poller
  take_update new_head file_name p = record {
    config = or_kept p.config (update_head policy_name new_head p.config);
    manager =
        send_to_vms task.vms policy_name (join (join output_dir policy_name) file_name) p.manager;
    current_head = new_head;
    wait_time = task.interval;
  }

  -- One round of the loop, and whether there is a next one.
  abbrev pub after_poll : Result (Option (Text × Text)) → Poller → Bool × Poller
  after_poll (ok none) p = (not (task.interval == 0), record p { wait_time = task.interval })
  after_poll (ok (some (new_head, file_name))) p =
      (not (task.interval == 0), take_update new_head file_name p)
  after_poll (err e) p = (true, p)
  after_poll panic p = (false, p)

  unfoldable pub monitor_round : Web → Poller → Bool × Poller
  monitor_round web p = after_poll (poll_once web output_dir policy_name task.url p.current_head) p
