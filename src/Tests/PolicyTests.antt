-- ===== src/Tests/PolicyTests.antt =====
-- crates/policyadmin/src/policy_manager.rs: a change set with two lines for one policy.
use ghaf_givc.Prelude.{◌≡◌, Bool, true, none, [], ◌∷◌, ◌++◌, list_eq, option_eq, nat_eq, All}
use ghaf_givc.Text.{Text, codes, lines}
use ghaf_givc.Policy.{no_source, PolicyConfig, new_manager, process_changeset}
use ghaf_givc.Policy.Changes.{wanted, process_changeset-wanted}
use ghaf_givc.Policy.Recipients.{IsDue, process_changeset-IsDue}

abbrev configs : PolicyConfig
configs = record {
  source = record { kind = no_source; url = none; branch = none; poll_interval_secs = none };
  policies =
      (
        codes "firewall",
        record {
          url = none;
          vms = codes "net-vm" ∷ codes "gui-vm" ∷ [];
          per_policy_updater = none;
        },
      )
      ∷ (codes "proxy", record { url = none; vms = codes "net-vm" ∷ []; per_policy_updater = none })
      ∷ [];
}

abbrev changeset : Text
changeset = codes "M vm-policies/firewall/rules.json" ++ (0xa ∷ codes "D other/file")

abbrev all_exist : Text → Bool
all_exist path = true

process_changeset-wanted_example :
    (process_changeset all_exist changeset (new_manager (codes "/etc/policies") configs)).queued
    ≡ wanted all_exist (codes "/etc/policies") configs (lines changeset)
process_changeset-wanted_example =
    process_changeset-wanted all_exist (codes "/etc/policies") configs changeset

process_changeset-IsDue_example :
    All
      (IsDue all_exist (codes "/etc/policies") configs changeset)
      (process_changeset all_exist changeset (new_manager (codes "/etc/policies") configs)).queued
process_changeset-IsDue_example =
    process_changeset-IsDue all_exist (codes "/etc/policies") configs changeset
