-- ===== src/Manager/Control/Cancelling.antt =====
-- `cancel_run` of src/scripthut/runs/manager.py.
use scripthut.Common.{
  ℕ, ap, String, ◌≡◌, refl, sym, ◌∙◌, inl, inr, Option, none, some, List, [], ◌∷◌, map, Pointwise,
  Bool-cases, truthy, or_else, if◌then◌else◌,
}
use scripthut.Model.{RunItem, RunItemStatus, Run, is_pending}
use scripthut.Manager.World.{World}
use scripthut.Manager.Control.{
  CancelCall, is_cancellable, cancel_pending, cancel_started, call_for, refusal, add_call,
  cancel_items, cancel_run,
}

-- The item has failed as cancelled, is taken to have started at `started`, and is otherwise as before.
pub record IsCancelled (now : ℕ) (started : Option ℕ) (a b : RunItem) : Type 0 where
  pub status_is : b.status ≡ RunItemStatus.failed
  pub error_is : b.error ≡ some "Cancelled"
  pub finished_is : b.finished_at ≡ some now
  pub started_is : b.started_at ≡ started
  pub kept :
      record b {
        status = a.status;
        error = a.error;
        finished_at = a.finished_at;
        started_at = a.started_at;
      }
      ≡ a

-- What becomes of an item with each status.
abbrev pub Fate : ℕ → RunItemStatus → RunItem → RunItem → Type 0
Fate now RunItemStatus.pending a b = IsCancelled now a.started_at a b
Fate now RunItemStatus.submitted a b = IsCancelled now (or_else a.started_at a.submitted_at) a b
Fate now RunItemStatus.queued a b = IsCancelled now (or_else a.started_at a.submitted_at) a b
Fate now RunItemStatus.running a b = IsCancelled now (or_else a.started_at a.submitted_at) a b
Fate now RunItemStatus.settling a b = b ≡ a
Fate now RunItemStatus.completed a b = b ≡ a
Fate now RunItemStatus.failed a b = b ≡ a
Fate now RunItemStatus.dep_failed a b = b ≡ a

abbrev pub Cancelled : ℕ → RunItem → RunItem → Type 0
Cancelled now a b = Fate now a.status a b

-- The job that an item with the status has at its scheduler.
abbrev job_at : RunItemStatus → Option String → Option String
job_at RunItemStatus.submitted job_id = truthy job_id
job_at RunItemStatus.queued job_id = truthy job_id
job_at RunItemStatus.running job_id = truthy job_id
job_at _ job_id = none

abbrev with_job : Option String → List String → List String
with_job none jobs = jobs
with_job (some job) jobs = job ∷ jobs

abbrev pub jobs_of : List RunItem → List String
jobs_of [] = []
jobs_of (i ∷ items) = with_job (job_at i.status i.job_id) (jobs_of items)

-- How jobs are cancelled on a backend.
abbrev pub calls_for : World → String → List String → List CancelCall
calls_for w name jobs =
    if w.has_job_backend name
    then map CancelCall.cancel_job jobs
    else (if w.has_ssh name then map CancelCall.scancel jobs else [])

cancel_pending-IsCancelled :
    (now : ℕ) (i : RunItem) → IsCancelled now i.started_at i (cancel_pending now i)
unfolding cancel_pending
cancel_pending-IsCancelled now i = record {
  status_is = refl;
  error_is = refl;
  finished_is = refl;
  started_is = refl;
  kept = refl;
}

cancel_started-IsCancelled :
    (now : ℕ) (i : RunItem)
    → IsCancelled now (or_else i.started_at i.submitted_at) i (cancel_started now i)
unfolding cancel_started
cancel_started-IsCancelled now i = record {
  status_is = refl;
  error_is = refl;
  finished_is = refl;
  started_is = refl;
  kept = refl;
}

module _ (w : World) (answer : CancelCall → Option String) (name : String) where
  add_call-calls_for :
      (job : Option String) (jobs : List String)
      → add_call w answer (call_for w answer name job) (calls_for w name jobs)
        ≡ calls_for w name (with_job job jobs)
  add_call-calls_for none jobs = refl
  add_call-calls_for (some job) jobs = elim (Bool-cases (w.has_job_backend name)) [
    | inl own ↦ rw (own, add_call) refl
    | inr none_own ↦ elim (Bool-cases (w.has_ssh name)) [
      | inl shell ↦ rw (none_own, shell, add_call) refl
      | inr none_there ↦ rw (none_own, none_there, add_call) refl
    ]
  ]

  calls_for_nothing : [] ≡ calls_for w name []
  calls_for_nothing = elim (Bool-cases (w.has_job_backend name)) [
    | inl own ↦ rw own refl
    | inr none_own ↦ elim (Bool-cases (w.has_ssh name)) [
      | inl shell ↦ rw (none_own, shell) refl
      | inr none_there ↦ rw (none_own, none_there) refl
    ]
  ]

  -- What the loop gives, against the items.
  abbrev Cancels : List RunItem → List RunItem × List CancelCall × Option String → Type 0
  Cancels items out =
      out.2 ≡ none
      → Pointwise (Cancelled w.now) items out.0 × (out.1 ≡ calls_for w name (jobs_of items))

  cancel_items-Cancels : (items : List RunItem) → Cancels items (cancel_items w answer name items)
  unfolding cancel_items
  cancel_items-Cancels [] h = (tt, calls_for_nothing)
  cancel_items-Cancels (i ∷ items) h =
      each (cancel_items w answer name items) (cancel_items-Cancels items) i.status h
    where
      at : RunItemStatus → RunItem
      at s = record i { status = s }

      job : Option String
      job = truthy i.job_id

      begun :
          (rest : List RunItem × List CancelCall × Option String)
          → Cancels items rest
          → (s : RunItemStatus) → Cancelled w.now (at s) (cancel_started w.now (at s))
          → job_at s i.job_id ≡ job
          → (o : Option String)
          → Cancels (at s ∷ items) (elim o [
            | some message ↦
                (at s ∷ items, add_call w answer (call_for w answer name job) [], some message)
            | none ↦ (
              cancel_started w.now (at s) ∷ rest.0,
              add_call w answer (call_for w answer name job) rest.1,
              rest.2,
            )
          ])
      begun rest ih s fate known none h =
          let (marked, called) = ih h in
          (
            (fate, marked),
            ap (add_call w answer (call_for w answer name job)) called
                ∙ add_call-calls_for job (jobs_of items)
                ∙ ap (λ o. calls_for w name (with_job o (jobs_of items))) (sym known),
          )
      begun rest ih s fate known (some message) h = cc h

      each :
          (rest : List RunItem × List CancelCall × Option String)
          → Cancels items rest
          → (s : RunItemStatus)
          → Cancels (at s ∷ items) (
              let call = call_for w answer name job in
              if is_pending s
              then (cancel_pending w.now (at s) ∷ rest.0, rest.1, rest.2)
              else if is_cancellable s
              then (elim (refusal w answer call) [
                | some message ↦ (at s ∷ items, add_call w answer call [], some message)
                | none ↦
                    (cancel_started w.now (at s) ∷ rest.0, add_call w answer call rest.1, rest.2)
              ])
              else (at s ∷ rest.0, rest.1, rest.2))
      each rest ih RunItemStatus.pending h =
          let (marked, called) = ih h in
          ((cancel_pending-IsCancelled w.now (at RunItemStatus.pending), marked), called)
      each rest ih RunItemStatus.submitted h =
          begun rest ih RunItemStatus.submitted
            (cancel_started-IsCancelled w.now (at RunItemStatus.submitted)) refl
            (refusal w answer (call_for w answer name job)) h
      each rest ih RunItemStatus.queued h =
          begun rest ih RunItemStatus.queued
            (cancel_started-IsCancelled w.now (at RunItemStatus.queued)) refl
            (refusal w answer (call_for w answer name job)) h
      each rest ih RunItemStatus.running h =
          begun rest ih RunItemStatus.running
            (cancel_started-IsCancelled w.now (at RunItemStatus.running)) refl
            (refusal w answer (call_for w answer name job)) h
      each rest ih RunItemStatus.settling h =
          let (marked, called) = ih h in ((refl, marked), called)
      each rest ih RunItemStatus.completed h =
          let (marked, called) = ih h in ((refl, marked), called)
      each rest ih RunItemStatus.failed h = let (marked, called) = ih h in ((refl, marked), called)
      each rest ih RunItemStatus.dep_failed h =
          let (marked, called) = ih h in ((refl, marked), called)

-- If no call to a scheduler raises, every pending, submitted, queued and running item of the run ends
-- FAILED with the error "Cancelled" and the time of the call, one that was not pending with its
-- submission for its start where it has none, and nothing else of it changes; every settling or
-- finished item stays as it is. The calls are one for each text that a submitted, queued or running
-- item has for its job, in order, by the backend or else by the shell, and none where there is neither.
pub cancel_run-Cancelled :
    (w : World) (answer : CancelCall → Option String) (run : Run)
    → (cancel_run w answer run).2 ≡ none
    → Pointwise (Cancelled w.now) run.items (cancel_run w answer run).0.items
      × ((cancel_run w answer run).1 ≡ calls_for w run.backend_name (jobs_of run.items))
unfolding cancel_run
cancel_run-Cancelled w answer run h = cancel_items-Cancels w answer run.backend_name run.items h
