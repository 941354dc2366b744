-- ===== src/Lib.antt =====
-- A model of scripthut, which runs graphs of tasks on the job schedulers of remote machines, and of
-- what its run manager promises.
--
-- A run (src/scripthut/runs/models.py) is a list of items, each a task with its state. The run manager
-- (src/scripthut/runs/manager.py) submits items to a backend when their dependencies have completed,
-- within the caps of the run and of the backend; it restores items from a result cache, moves items on
-- by what the scheduler's queue reports, and appends the tasks that a completed task generates. The
-- environment of a task is resolved from layers of rules (src/scripthut/runs/env.py). A poll of a
-- backend (`poll_backend` of src/scripthut/main.py) asks its accounting about jobs that have left the
-- queue, settles their items by the records and then calls `process_run` again. Runs are stored as JSON
-- (src/scripthut/runs/storage.py). The disk cleanup (src/scripthut/disk) plans which directories on a
-- backend to delete, from a scan and from the runs. The ledger of finished tasks
-- (src/scripthut/runs/usage.py) outlives the runs, and the activity grid
-- (src/scripthut/runs/activity.py) spreads its records over days. The hub of notifications
-- (src/scripthut/notifications.py) announces what has become of runs and items.
--
-- The files, and the code that they model:
--   Common, with Tests, Lists, Dict, Int, Text, Decimal: conditionals, lists, dictionaries, integers
--     and texts of Python.
--   Model/Item, Model/Runs: the dataclasses of runs/models.py, `EnvRule` and `Stack` of
--     src/scripthut/config_schema.py. Model/Deps: `get_item_by_task_id`, `are_deps_satisfied`,
--     `get_failed_deps` and the counters. Model/Status: `Run.status`.
--     Model/Uncascade: `uncascade_dep_failures`.
--   Env: `_expand`, `_matches`, `resolve_detailed` and `resolve` of runs/env.py. Env/Layers: the seed,
--     the layers, `flatten` and `resolve_for_task`.
--   Manager/World: the clock, the backends, the shell and the store, as a record of answers.
--   Manager/Cascade: the first loop of `process_run`. Manager/Submit: `submit_task`,
--     `_try_restore_from_cache`, `probe_cache_for_task`. Manager/Slots: the caps and the fair share.
--     Manager/Generate: `_after_item_completed`, `_handle_generates_source`, `_resolve_wildcard_deps`.
--     Manager/Process: `process_run` as a whole. Manager/Validate: `_validate_dependencies`.
--     Manager/Lookups, Manager/Progress: how validated dependencies meet the items of a run.
--   Manager/Observe: `update_run_status`. Manager/Update: `update_all_runs`.
--   Manager/Control: `cancel_run`, `rerun_in_place`, `delete_run`, `get_active_runs`.
--   Poll: the choice of jobs, and what a record does to an item (`poll_backend`), with `JobStats` of
--     backends/base.py. Poll/Runs: its loops over runs and items.
--   Disk/Entries: disk/models.py. Disk/Paths: `normalize_remote_path`, `_first_component_under` and the
--     patterns of disk/scan.py. Disk/References: `build_run_references`. Disk/Classify:
--     `classify_entries`. Disk/Guards, Disk/Cleanup: `_safety_reason` and `plan_cleanup` of disk/cleanup.py.
--   Storage/Json: JSON values. Storage/Tasks, Storage/Items: `to_dict` and `from_dict` of tasks,
--     outputs and items. Storage/Runs: the documents of `save_run` and `load_run`.
--   Notifications: `NotificationHub` and `_compute_stats` of notifications.py.
--   Usage: `UsageRecord`, `UsageLog` and `merged_records` of runs/usage.py.
--   Activity: the slicers, `_assign_levels` and `build_activity_grid` of runs/activity.py.
--     Activity/Hourly: the hours, the buckets, the folding and the totals of `build_hourly_usage`.
--   Tests, with Polls, Disks, Documents, Graphs, Hubs, Heat: concrete runs, a scan, a codec, a hub and
--     records of usage.
--
-- State is passed on explicitly: an operation takes a run and returns it changed, and the manager's
-- dictionary of runs is a list, split around the run in hand as `before` and `after`. A place in the
-- list of items stands for the item object that the code holds on to. The clock is read once for an
-- operation, and World answers a call the same way throughout it. `process_run` awaits its calls; the
-- model takes one call of it as one step, so what other coroutines do in between is not modelled.
--
-- The cascade runs on fuel for each pending item and one more, since a pass that changes an item leaves
-- fewer pending ones. `process_run` calls itself after cache hits and for generated tasks: its fuel
-- counts these calls, and `none` says that it ran out. A task can generate a task that generates again,
-- so that no bound holds in general. `flatten` runs on fuel for the depth of the inclusion: a group
-- that is entered twice is an error, so each group and one more is enough. The loops of a poll go
-- through the items by place, since a hook may append items, on fuel `rounds`: where no task generates
-- others, each item and one more is enough. The search of `_validate_dependencies` enters a task once,
-- so each task and one more is enough, and `update_all_runs` needs what `process_run` needs on the run
-- with the most pending items. The slicers take a microsecond at least with each slice.
--
-- A JSON document is a value: Python's json module writes and reads its text. What pydantic does for
-- rules and stacks and the datetime module for timestamps is the record Codec; ReadsBack says that they
-- read back what they write. Python does not check the types of what it loads; the model does, and takes
-- a value of another type for an error.
--
-- Not modelled: the command line, the rest of the web application, the files and folders of the
-- storage and of the ledger, the scheduler backends, SSH, git, and the remote scripts
-- of scans and deletions. They are I/O around this core, or parts of their own.
pub mod Common
pub mod Model
pub mod Env
pub mod Manager
pub mod Poll
pub mod Disk
pub mod Storage
pub mod Notifications
pub mod Usage
pub mod Activity
pub mod Tests
