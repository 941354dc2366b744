-- ===== src/Manager/Observe/Lifecycle.antt =====
-- The lifecycle of an item under the reports of the scheduler's queue.
use scripthut.Common.{
  ℕ, String, ◌≡◌, refl, ◌⊎◌, inl, inr, Bool, true, false, Option, none, some, List, [], ◌∷◌,
  Pointwise, is_some, Bool-cases,
}
use scripthut.Common.Dict.{Dict, get}
use scripthut.Model.{RunItem, RunItemStatus, is_finished}
use scripthut.Manager.Observe.{
  JobState, in_queue, is_running, observe_state, observe_job, observe_item, observe_items,
  observe_missing, observe_running, observe_pending, observe_completed, observe_failed,
}

-- The scheduler states that mean that the job failed.
abbrev pub is_bad : JobState → Bool
is_bad JobState.cancelled = true
is_bad JobState.failed = true
is_bad JobState.timeout = true
is_bad JobState.node_fail = true
is_bad JobState.preempted = true
is_bad JobState.boot_fail = true
is_bad JobState.deadline = true
is_bad JobState.out_of_memory = true
is_bad _ = false

-- What the report may do to a status, with the evidence that each step rests on. There is no step
-- to COMPLETED, and none to FAILED without a report of the scheduler.
pub data Move : Option JobState → RunItemStatus → RunItemStatus → Type 0 where
  stay : {o : Option JobState} {s : RunItemStatus} → Move o s s
  ack :
      {o : Option JobState} {s : RunItemStatus}
      → o ≡ some JobState.pending
      → in_queue s ≡ false
      → Move o s RunItemStatus.queued
  start :
      {o : Option JobState} {s : RunItemStatus}
      → (o ≡ some JobState.running) ⊎ (o ≡ some JobState.completing)
      → Move o s RunItemStatus.running
  leave :
      {o : Option JobState} {s : RunItemStatus}
      → o ≡ none
      → in_queue s ≡ true
      → Move o s RunItemStatus.settling
  finish :
      {o : Option JobState} {s : RunItemStatus}
      → o ≡ some JobState.completed
      → Move o s RunItemStatus.settling
  fail :
      {o : Option JobState} {s : RunItemStatus} {j : JobState}
      → o ≡ some j
      → is_bad j ≡ true
      → Move o s RunItemStatus.failed

observe_missing-Move : (now : ℕ) (i : RunItem) → Move none i.status (observe_missing now i).0.status
unfolding observe_missing
observe_missing-Move now i = elim (Bool-cases (in_queue i.status)) [
  | inl q ↦ rw q (leave refl q)
  | inr q ↦ rw q stay
]

observe_pending-Move :
    (reason : Option String) (i : RunItem)
    → Move (some JobState.pending) i.status (observe_pending reason i).0.status
unfolding observe_pending
observe_pending-Move reason i = elim (Bool-cases (in_queue i.status)) [
  | inl q ↦ rw q stay
  | inr q ↦ rw q (ack refl q)
]

observe_running-Move :
    (o : JobState) (now : ℕ) (i : RunItem)
    → (some o ≡ some JobState.running) ⊎ (some o ≡ some JobState.completing)
    → Move (some o) i.status (observe_running now i).0.status
unfolding observe_running
observe_running-Move o now i e = elim (Bool-cases (is_running i.status)) [
  | inl q ↦ rw q stay
  | inr q ↦ rw q (start e)
]

observe_state-Move :
    (now : ℕ) (reason : Option String) (o : Option JobState) (i : RunItem)
    → Move o i.status (observe_state now reason o i).0.status
unfolding observe_state observe_completed observe_failed
observe_state-Move now reason none i = observe_missing-Move now i
observe_state-Move now reason (some JobState.running) i =
    observe_running-Move JobState.running now i (inl refl)
observe_state-Move now reason (some JobState.completing) i =
    observe_running-Move JobState.completing now i (inr refl)
observe_state-Move now reason (some JobState.pending) i = observe_pending-Move reason i
observe_state-Move now reason (some JobState.completed) i = finish refl
observe_state-Move now reason (some JobState.suspended) i = stay
observe_state-Move now reason (some JobState.unknown) i = stay
observe_state-Move now reason (some state) i = fail refl refl

-- What the queue says of a job.
abbrev pub report : Dict JobState → Option String → Option JobState
report jobs none = none
report jobs (some job_id) = get jobs job_id

-- A finished item is left alone, as is one without a job. Any other takes a step of `Move` on the
-- report of the queue.
abbrev pub Observed : Dict JobState → RunItem → RunItem → Type 0
Observed jobs a b =
    ((is_finished a.status ≡ false) ⊎ (b ≡ a))
    × ((is_some a.job_id ≡ true) ⊎ (b ≡ a))
    × Move (report jobs a.job_id) a.status b.status

observe_job-Observed :
    (now : ℕ) (jobs : Dict JobState) (reasons : Dict String) (o : Option String) (i : RunItem)
    → ((is_finished i.status ≡ false) ⊎ ((observe_job now jobs reasons o i).0 ≡ i))
      × ((is_some o ≡ true) ⊎ ((observe_job now jobs reasons o i).0 ≡ i))
      × Move (report jobs o) i.status (observe_job now jobs reasons o i).0.status
unfolding observe_job
observe_job-Observed now jobs reasons none i = (inr refl, inr refl, stay)
observe_job-Observed now jobs reasons (some job_id) i = elim (Bool-cases (is_finished i.status)) [
  | inl f ↦ rw (f, observe_job) (inr refl, inr refl, stay)
  | inr f ↦
      rw (f, observe_job)
        (inl refl, inl refl, observe_state-Move now (get reasons job_id) (get jobs job_id) i)
]

pub observe_items-Observed :
    (now : ℕ) (jobs : Dict JobState) (reasons : Dict String) (items : List RunItem)
    → Pointwise (Observed jobs) items (observe_items now jobs reasons items).0
unfolding observe_items observe_item
observe_items-Observed now jobs reasons [] = tt
observe_items-Observed now jobs reasons (i ∷ items) = (
  observe_job-Observed now jobs reasons i.job_id i,
  observe_items-Observed now jobs reasons items,
)
