-- ===== src/Lib.antt =====
-- Verification library of ghaf-givc: the image based update of a machine, the admin server with its
-- registry and access control, and the distribution of the policies.
--
-- The parts, and the files that model them:
--   Prelude, Text        Rust's options, results, lists and `str`. A text is the list of its code
--                        points; lengths in bytes and the slices that depend on them count UTF-8.
--                        `Result` has a third case, `panic`, for `unwrap` and slices out of bounds.
--                        Text/Patterns is the matching of whole texts by the patterns of the locale.
--   Image                crates/ota-update/src/image.
--     Version, Volume    version.rs and lvm.rs: a version, and a logical volume (the fields of `lvs`
--                        that the code reads).
--     Slot               slot.rs: `decode_status` splits a volume's name from the right, and
--                        `name_text` is its `Display`; `from_volumes`, `into_version`, `rename`.
--     Uki                uki.rs: `parse_uki` is `FromStr`, `uki_text` is `Display`; boot entries from
--                        the items of `bootctl`.
--     Group              group.rs: `group_volumes` is two loops, over the slots and over the boot
--                        entries; `validate`, `classify` and the accessors.
--     Kernel             runtime.rs: `KernelParams::from_cmdline`, and the version that it stands for.
--     Manifest           manifest.rs: `to_version`, `normalize_paths`, `validate`. The file system is
--                        the record `FileSystem`, an argument of `validate`.
--     Runtime            runtime.rs: the state `Runtime` that a plan is made from, `select_update_slot`
--                        with `create_empty_slot`, the lookups, `allocate_empty_identifier`.
--     Artifacts          crates/ota-update/src/registry: `select_artifact_bindings`, the choice of an
--                        image's layers; Push for `push_update_with_feedback`, Discover for references
--                        and `discover_updates`, Progress for the reports of a transfer, and Prune for
--                        the removal of old downloads from a tree of directories, with errors in it.
--     Pipeline, Plan     pipeline.rs and plan.rs: commands, and `install` and `remove`, which compute
--                        the list of pipelines that the executor then runs.
--                        Plan/Commands writes the commands out, for the theorems.
--   Admin                crates/common/src and crates/admin/src.
--     Types, Query       types.rs, address.rs, query.rs: unit types and their numbers, endpoints, query
--                        results, events, and the messages of api/admin/admin.proto and
--                        api/systemd/systemd.proto as records.
--     Naming             utils/naming.rs: names of units.
--     Entry              admin/entry.rs: registry entries, and the requests they come from.
--     Registry           admin/registry.rs: the registry; a change holds the lock, so it is one step on
--                        the state, and its events are appended to the list `sent`. `subscribe` makes
--                        the receiver before it takes the lock, and so speaks of two states.
--   Admin/Server         crates/admin/src/admin/server.rs and crates/admin/src/systemd_api/client.rs.
--     World, Client      a handler is an action on `World`, which holds the state of the server
--                        (`Service`: registry, locale, timezone) and the calls, writes and tasks so
--                        far; what the agents answer is the record `Env`.
--     Endpoints          `host_endpoint`, `endpoint`, `agent_endpoint`, `app_entries`.
--     Units              requests on units and their states, `start_vm`; Services has the lemmas.
--     Monitor            `monitor_routine`, `handle_error`, and the restart of a machine.
--     Apps               `start_app`, and the control of applications by name.
--     Locale             `set_locale` with the patterns of its values, `set_timezone`, and `new`, which
--                        reads the files again.
--     Handlers, Watch    the methods of the service with the tasks that they start, and `watch`.
--     Runs               a history of the server as a step relation over requests and monitor rounds.
--                        The other files of the folder are proofs, by what they are about.
--   Access               crates/admin/src/utils/access_control.rs: `authorize` and `intercept`, over the
--                        record `Policies` of what other libraries answer.
--   Policy               crates/policyadmin/src: policy_manager.rs with the configuration of policy.rs.
--                        Each worker's channel is the part of the list `queued` for its machine; the
--                        file system is the test `exists`, an argument of `process_changeset`.
--     Refresh            the update of all machines, `force_update_all_vms`.
--     Repo, Urls         policy_repo.rs: clones and their retries, change sets between two revisions;
--                        policy_urls.rs: one poll of the URLs of policies.
--   Tests                the theorems at concrete inputs.
--
-- How the parts interact: `new_runtime` reads volumes into slots, `bootctl` items into boot entries,
-- and groups both; `select_update_slot` looks for a group with the manifest's version, else an empty
-- one, else computes a new pair of volumes; `install` and `remove` turn the selected group into
-- commands. The admin server asks the agents of the registry, starts machines and applications by
-- their units, and reads their states in each round of the monitor. A request becomes an entry,
-- `register` and `deregister` change the map and send events, whose messages are read again by the
-- clients. A change set of the policies becomes one update for each machine of a policy, in the
-- channel of its worker; it comes from a poll of the repository.
--
-- Bounds: `decimal n` prints with fuel n + 1, which is more than its digits. The loop over candidate
-- identifiers has the 100 rounds of the source. The search for a unique entry name has as fuel one
-- more than the number of entries. Numbers that the source parses as u16, u32 or i32 are refused
-- outside their range, as the parsers of std do. The counter of unique names is unbounded here; in
-- the source it is an i32, which 2^31 entries would overflow. A machine that was started is asked
-- for its state once, ten seconds later, as in the source. The attempts to clone have fuel 5, one
-- more than the four rounds that the source makes before it gives up. The walk of the pruning has as
-- fuel one more than the number of directories.
--
-- Parameters: the file system (`FileSystem`), and the texts of enumerations that the `strum` crate
-- derives (`EnumTexts`, with the law that a printed value is read back); which files exist, for the
-- policies; the decision of the policy engine, the descriptors of the methods and JSON (`Policies`).
-- For the server: what the agents answer and what other tasks do to the registry meanwhile (`Env`),
-- the regex library as a matcher of the patterns, and whether files can be written. For the monitors
-- of the policies: git, the web server and the store of files. For the image registry: its answers,
-- the parser of references, and the removal of a directory. The hash map of the registry is a list
-- of rows, in some order of its iterators; a vsock address is its two numbers.
--
-- Not modelled: running the commands, locks, JSON, the network, certificates and the evaluation of
-- policies (I/O and libraries); the report of `inspect` (display text); the start-up of the server,
-- its push of policy updates and its OTA handlers; the protocol of the image registry and the client
-- library; the Go modules. The broadcast channel of `watch` is taken as not lagging. The keys of a
-- locale assignment are natural numbers: a negative one is refused by the source like one above the
-- last key. In `Kernel` a slice that the source would refuse by a panic is empty; `from_cmdline`
-- checks the length of the store hash before it is cut.
pub mod Prelude
pub mod Text
pub mod Image
pub mod Admin
pub mod Access
pub mod Policy
pub mod Tests
