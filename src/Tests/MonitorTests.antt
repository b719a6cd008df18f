-- ===== src/Tests/MonitorTests.antt =====
-- crates/policyadmin/src/policy_repo.rs, policy_urls.rs and policy_manager.rs: a repository that is
-- cloned, two changes, a policy with a URL, and a full refresh.
use ghaf_givc.Prelude.{
  ℕ, ◌+◌, ◌≤◌, ◌≡◌, refl, true, none, some, List, [], ◌∷◌, ltb, if◌then◌else◌, list_beq, list_eq,
  option_eq, nat_eq, length, filter_by, Result, ok, err, rpc_failed,
}
use ghaf_givc.Text.{Text, codes, join, split_char, contains, is_whitespace}
use ghaf_givc.Policy.{
  git_url, PolicyConfig, PolicyManager, process_changeset, process_change, policy_and_file,
  below_policies,
}
use ghaf_givc.Policy.Changes.{tasks, with_tasks}
use ghaf_givc.Policy.Refresh.{Store, force_update_all_vms}
use ghaf_givc.Policy.Refresh.Everything.{refresh_tasks, force_update_all_vms-tasks}
use ghaf_givc.Policy.Repo.{Git, Monitor, Change, modification, deletion, changes_text, ensure_clone}
use ghaf_givc.Policy.Repo.Attempts.{Attempts, ensure_clone_total}
use ghaf_givc.Policy.Repo.OneLine.{IsWritten, process_changeset-first}
use ghaf_givc.Policy.Urls.{
  Web, PolicyTask, Poller, poll_once, file_name_of, monitor_round, remote_head,
}
use ghaf_givc.Policy.Urls.Polls.{monitor_round-once}

abbrev configs : PolicyConfig
configs = record {
  source = record {
    kind = git_url;
    url = some (codes "https://host/repo");
    branch = none;
    poll_interval_secs = some 60;
  };
  policies =
      (
        codes "firewall",
        record {
          url = none;
          vms = codes "net-vm" ∷ [];
          per_policy_updater = some (record {
            url = codes "https://host/rules.json";
            head = none;
            poll_interval_secs = none;
          });
        },
      )
      ∷ [];
}

abbrev manager : PolicyManager
manager = record {
  policy_dir = codes "/etc/policies/data/vm-policies";
  configs = configs;
  workers = codes "net-vm" ∷ [];
  queued = [];
}

abbrev store : Store
store = record {
  exists = λ path. true;
  read_dir = λ path. some (codes "/etc/policies/data/vm-policies/firewall/rules.json" ∷ []);
  is_file = λ path. true;
}

-- The third attempt to clone succeeds.
abbrev clone_at : ℕ → Result Text
clone_at n = if ltb n 2 then err rpc_failed else ok (codes "c0ffee")

abbrev git : Git
git = record {
  fetch = λ n. err rpc_failed;
  checkout = λ n head. ok tt;
  clone = clone_at;
  diff = λ old new_id. ok [];
}

abbrev monitor : Monitor
monitor = record {
  state = record { new_head = none; old_head = none };
  manager = manager;
  calls = 0;
  wait_time = 30;
  pauses = [];
}

ensure_clone_total_example :
    (r : Result (Unit {0})) × (v : Monitor) × (ensure_clone git monitor ≡ some (r, v))
    × Attempts git 3 monitor r v
    × (v.calls ≤ monitor.calls + 4)
    × (length v.pauses ≤ length monitor.pauses + 3)
    × (v.manager ≡ monitor.manager)
ensure_clone_total_example = ensure_clone_total git monitor

abbrev first_change : Change
first_change = modification (codes "vm-policies/firewall/rules.json")

abbrev other_changes : List Change
other_changes = deletion (codes "vm-policies/proxy/hosts") ∷ []

first_change-IsWritten : IsWritten first_change
unfolding is_whitespace
first_change-IsWritten = (
  (λ e. cc e),
  (
    refl,
    (
      refl,
      (
        refl,
        (
          refl,
          (
            refl,
            (
              refl,
              (
                refl,
                (
                  refl,
                  (
                    refl,
                    (
                      refl,
                      (
                        refl,
                        (
                          refl,
                          (
                            refl,
                            (
                              refl,
                              (
                                refl,
                                (
                                  refl,
                                  (
                                    refl,
                                    (
                                      refl,
                                      (
                                        refl,
                                        (
                                          refl,
                                          (
                                            refl,
                                            (
                                              refl,
                                              (
                                                refl,
                                                (
                                                  refl,
                                                  (
                                                    refl,
                                                    (
                                                      refl,
                                                      (refl, (refl, (refl, (refl, (refl, tt))))),
                                                    ),
                                                  ),
                                                ),
                                              ),
                                            ),
                                          ),
                                        ),
                                      ),
                                    ),
                                  ),
                                ),
                              ),
                            ),
                          ),
                        ),
                      ),
                    ),
                  ),
                ),
              ),
            ),
          ),
        ),
      ),
    ),
  ),
)

other_change-IsWritten : IsWritten (deletion (codes "vm-policies/proxy/hosts"))
unfolding is_whitespace
other_change-IsWritten = (
  (λ e. cc e),
  (
    refl,
    (
      refl,
      (
        refl,
        (
          refl,
          (
            refl,
            (
              refl,
              (
                refl,
                (
                  refl,
                  (
                    refl,
                    (
                      refl,
                      (
                        refl,
                        (
                          refl,
                          (
                            refl,
                            (
                              refl,
                              (
                                refl,
                                (refl, (refl, (refl, (refl, (refl, (refl, (refl, (refl, tt)))))))),
                              ),
                            ),
                          ),
                        ),
                      ),
                    ),
                  ),
                ),
              ),
            ),
          ),
        ),
      ),
    ),
  ),
)

process_changeset-first_example :
    process_changeset (λ path. true) (changes_text (first_change ∷ other_changes)) manager
    ≡ process_change
        (λ path. true)
        manager
        (policy_and_file (below_policies (some (codes "vm-policies/firewall/rules.jsonD"))))
unfolding is_whitespace
process_changeset-first_example =
    process_changeset-first (λ path. true) manager first_change other_changes
      (first_change-IsWritten, (other_change-IsWritten, tt))

force_update_all_vms-tasks_example :
    force_update_all_vms store manager
    ≡ with_tasks manager (refresh_tasks store manager.policy_dir configs manager.workers)
force_update_all_vms-tasks_example = force_update_all_vms-tasks store manager

abbrev web : Web
web = record {
  head = λ url. ok (record { is_success = true; etag = some (codes "7"); last_modified = none });
  download = λ url. ok (record { is_success = true; body = codes "rules" });
  sha256 = λ body. body;
  write = λ path body. ok tt;
}

abbrev task : PolicyTask
task = record {
  url = codes "https://host/rules.json";
  head = [];
  vms = codes "net-vm" ∷ codes "lost-vm" ∷ [];
  interval = 60;
}

abbrev poller : Poller
poller = record { config = configs; manager = manager; current_head = []; wait_time = 30 }

monitor_round-once_example :
    let next = (monitor_round (codes "/out") (codes "firewall") task web poller).1 in
    (next.current_head ≡ codes "etag:7")
    × (next.manager
        ≡ with_tasks manager (
            tasks
              (codes "firewall")
              (join (join (codes "/out") (codes "firewall")) (file_name_of task.url))
              (filter_by (contains manager.workers) task.vms)))
    × ((monitor_round (codes "/out") (codes "firewall") task web next).1.manager ≡ next.manager)
unfolding poll_once remote_head list_beq contains file_name_of split_char
monitor_round-once_example =
    monitor_round-once web (codes "/out") (codes "firewall") task poller refl

abbrev after_update : PolicyConfig
after_update = record configs {
  policies =
      (
        codes "firewall",
        record {
          url = none;
          vms = codes "net-vm" ∷ [];
          per_policy_updater = some (record {
            url = codes "https://host/rules.json";
            head = some (codes "etag:7");
            poll_interval_secs = none;
          });
        },
      )
      ∷ [];
}
