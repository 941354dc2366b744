-- ===== src/Notifications.antt =====
-- `NotificationHub` of src/scripthut/notifications.py: what is announced about the runs. A subscriber
-- is its queue; the set of announced failures is a list.
pub mod Edges
pub mod Scans
pub mod Counts
use scripthut.Common.{
  ℕ, ◌+◌, String, ◌<>◌, Bool, true, false, not, ◌&&◌, ◌||◌, Option, none, some, List, [], ◌∷◌, ◌++◌,
  map, keep, if◌then◌else◌, ◌==◌, elem, ltb, eqb, length, truthy,
}
use scripthut.Common.Dict.{Dict, get, put}
use scripthut.Common.Text.{starts_with}
use scripthut.Common.Decimal.{decimal}
use scripthut.Model.{
  RunItem, RunItemStatus, Run, RunStatus, completed_count, failed_count, dep_failed_count,
}
use scripthut.Model.Status.{status}

pub record Notification : Type 0 where
  pub kind : String
  pub title : String
  pub body : String
  pub level : String
  pub run_id : Option String
  pub tag : Option String

pub record Stats : Type 0 where
  pub running : ℕ
  pub waiting : ℕ
  pub completed : ℕ
  pub failed : ℕ
  pub active_runs : ℕ

pub data Message : Type 0 where
  notify : Notification → Message
  progress : Stats → Message

-- `asyncio.Queue(maxsize=...)`, oldest message first.
pub record Queue : Type 0 where
  pub maxsize : ℕ
  pub messages : List Message

-- The attributes of the hub.
pub record Hub : Type 0 where
  pub subscribers : List Queue
  pub run_status : Dict RunStatus
  pub notified_failures : List String
  pub stats : Stats

abbrev pub empty_stats : Stats
empty_stats = record { running = 0; waiting = 0; completed = 0; failed = 0; active_runs = 0 }

-- `run.status in _ACTIVE` and `in _TERMINAL`
abbrev pub is_active : RunStatus → Bool
is_active RunStatus.pending = true
is_active RunStatus.running = true
is_active _ = false

abbrev pub is_terminal : RunStatus → Bool
is_terminal RunStatus.completed = true
is_terminal RunStatus.failed = true
is_terminal RunStatus.cancelled = true
is_terminal _ = false

-- The chain of tests on the status of an item.
abbrev pub count_status : RunItemStatus → Stats → Stats
count_status RunItemStatus.running s = record s { running = s.running + 1 }
count_status RunItemStatus.settling s = record s { running = s.running + 1 }
count_status RunItemStatus.pending s = record s { waiting = s.waiting + 1 }
count_status RunItemStatus.submitted s = record s { waiting = s.waiting + 1 }
count_status RunItemStatus.queued s = record s { waiting = s.waiting + 1 }
count_status RunItemStatus.completed s = record s { completed = s.completed + 1 }
count_status RunItemStatus.failed s = record s { failed = s.failed + 1 }
count_status RunItemStatus.dep_failed s = record s { failed = s.failed + 1 }

unfoldable pub count_items : List RunItem → Stats → Stats
count_items [] s = s
count_items (item ∷ items) s = count_items items (count_status item.status s)

unfoldable pub count_runs : List Run → Stats → Stats
unfolding count_items status
count_runs [] s = s
count_runs (run ∷ runs) s = count_runs runs (
    if is_active (status run)
    then count_items run.items (record s { active_runs = s.active_runs + 1 })
    else s)

-- `_compute_stats`
unfoldable pub compute_stats : List Run → Stats
unfolding count_runs
compute_stats runs = count_runs runs empty_stats

unfoldable pub subscribe : Hub → Hub
subscribe hub = record hub {
  subscribers = record { maxsize = 100; messages = [] } ∷ hub.subscribers;
}

-- `queue.put_nowait(msg)`: a queue that has its size refuses, unless its size is 0, and the message is
-- dropped for it.
abbrev pub offer : Message → Queue → Queue
offer m queue =
    if eqb queue.maxsize 0 || ltb (length queue.messages) queue.maxsize
    then record queue { messages = queue.messages ++ m ∷ [] }
    else queue

unfoldable pub broadcast : Message → Hub → Hub
broadcast m hub = record hub { subscribers = map (offer m) hub.subscribers }

unfoldable pub emit : Notification → Hub → Hub
unfolding broadcast
emit n hub = broadcast (notify n) hub

unfoldable pub update_stats : List Run → Hub → Hub
unfolding compute_stats broadcast
update_stats runs hub =
    let s = compute_stats runs in broadcast (progress s) (record hub { stats = s })

abbrev is_failed : RunItemStatus → Bool
is_failed RunItemStatus.failed = true
is_failed _ = false

-- `f"{run.id}:{item.task.id}"`
abbrev pub failure_key : Run → RunItem → String
failure_key run item = run.id <> (":" <> item.task.id)

-- `set.add`
abbrev pub add_key : String → List String → List String
add_key key keys = if elem key keys then keys else key ∷ keys

unfoldable pub prime_items : Run → List RunItem → List String → List String
prime_items run [] keys = keys
prime_items run (item ∷ items) keys =
    prime_items run items
      (if is_failed item.status then add_key (failure_key run item) keys else keys)

unfoldable pub prime_runs : List Run → Hub → Hub
unfolding prime_items put status
prime_runs [] hub = hub
prime_runs (run ∷ runs) hub = prime_runs runs (record hub {
  run_status = put hub.run_status run.id (status run);
  notified_failures = prime_items run run.items hub.notified_failures;
})

unfoldable pub prime : List Run → Hub → Hub
unfolding prime_runs update_stats
prime runs hub = update_stats runs (prime_runs runs hub)

abbrev plural : ℕ → String
plural n = if eqb n 1 then "" else "s"

-- `run_scheduled`
unfoldable pub run_scheduled : Run → Hub → Hub
unfolding put status emit starts_with decimal
run_scheduled run hub =
    emit
      (record {
        kind = "scheduled";
        title = "Run scheduled: " <> run.workflow_name;
        body = decimal (length run.items) <> (" task" <> (plural (length run.items) <> " queued"));
        level = "info";
        run_id = some run.id;
        tag = some ("run-" <> run.id);
      })
      (record hub {
        run_status = put hub.run_status run.id (status run);
        notified_failures = keep (λ k. not (starts_with k (run.id <> ":"))) hub.notified_failures;
      })

abbrev error_part : Option String → String
error_part none = ""
error_part (some e) = " — " <> e

abbrev pub task_failed : Run → RunItem → Notification
task_failed run item = record {
  kind = "task_failed";
  title = "Task failed: " <> item.task.name;
  body = run.workflow_name <> error_part (truthy item.error);
  level = "error";
  run_id = some run.id;
  tag = some ("task-" <> (run.id <> ("-" <> item.task.id)));
}

-- The body of the loop over the items of a run.
unfoldable pub scan_item : Run → RunItem → Hub → Hub
unfolding emit
scan_item run item hub =
    if is_failed item.status && not (elem (failure_key run item) hub.notified_failures)
    then emit (task_failed run item)
        (record hub { notified_failures = failure_key run item ∷ hub.notified_failures })
    else hub

unfoldable pub scan_items : Run → List RunItem → Hub → Hub
unfolding scan_item
scan_items run [] hub = hub
scan_items run (item ∷ items) hub = scan_items run items (scan_item run item hub)

-- `_emit_run_done`, by the status of the run.
abbrev pub done_title : RunStatus → String
done_title RunStatus.completed = "Run completed: "
done_title RunStatus.cancelled = "Run cancelled: "
done_title _ = "Run finished with failures: "

abbrev pub done_level : RunStatus → String
done_level RunStatus.completed = "success"
done_level RunStatus.cancelled = "info"
done_level _ = "error"

abbrev pub done_body : RunStatus → ℕ → ℕ → String
done_body RunStatus.completed done bad = decimal done <> (" task" <> (plural done <> " done"))
done_body RunStatus.cancelled done bad = decimal done <> (" done · " <> (decimal bad <> " not run"))
done_body _ done bad = decimal done <> (" done · " <> (decimal bad <> " failed"))

unfoldable pub run_done : Run → Notification
unfolding status completed_count failed_count dep_failed_count
run_done run = record {
  kind = "run_done";
  title = done_title (status run) <> run.workflow_name;
  body =
      done_body (status run) (completed_count run.items)
        (failed_count run.items + dep_failed_count run.items);
  level = done_level (status run);
  run_id = some run.id;
  tag = some ("run-" <> run.id);
}

abbrev pub same_status : RunStatus → RunStatus → Bool
same_status RunStatus.pending RunStatus.pending = true
same_status RunStatus.running RunStatus.running = true
same_status RunStatus.completed RunStatus.completed = true
same_status RunStatus.failed RunStatus.failed = true
same_status RunStatus.cancelled RunStatus.cancelled = true
same_status _ _ = false

abbrev pub is_same : Option RunStatus → RunStatus → Bool
is_same none cur = false
is_same (some prev) cur = same_status prev cur

abbrev pub was_active : Option RunStatus → Bool
was_active none = false
was_active (some prev) = is_active prev

-- What follows the loop over the items: a change of the run's status.
unfoldable pub scan_status : Run → Hub → Hub
unfolding get put status emit run_done
scan_status run hub =
    let prev = get hub.run_status run.id in
    let cur = status run in
    let noted = record hub { run_status = put hub.run_status run.id cur } in
    if is_same prev cur
    then hub
    else if is_terminal cur && was_active prev
    then emit (run_done run) noted
    else noted

unfoldable pub scan : List Run → Hub → Hub
unfolding scan_items scan_status
scan [] hub = hub
scan (run ∷ runs) hub = scan runs (scan_status run (scan_items run run.items hub))
