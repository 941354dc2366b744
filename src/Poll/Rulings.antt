-- ===== src/Poll/Rulings.antt =====
-- The steps of a status under a record of the accounting, in `poll_backend` (src/scripthut/main.py).
use scripthut.Common.{
  String, ◌≡◌, refl, sym, ap, ◌∙◌, inl, inr, Bool, true, ◌&&◌, ◌||◌, Option, none, some, Bool-cases,
  Option-cases, subst, truthy, or_else, ◌==◌, eq_iff, arith,
}
use scripthut.Common.Dict.{get}
use scripthut.Model.{RunItem, RunItemStatus, is_completed, holds_slot}
use scripthut.Poll.{
  Poll, JobStats, is_submitted, is_settling, note_stats, correct_failure, resolve_completed,
  resolve_failed, resolve_waiting, resolve_state, resolve_stated, resolve_item, resolve_finished,
  resolve_legacy, is_marker,
}

-- The item waits for a verdict: it is SUBMITTED or SETTLING.
abbrev pub is_waiting : RunItemStatus → Bool
is_waiting t = is_submitted t || is_settling t

-- The steps of a status under a record. COMPLETED is reached from SETTLING or SUBMITTED on the state
-- COMPLETED only, FAILED from these and from COMPLETED on a state that the backend calls a failure,
-- and a FAILED item is restored on the state COMPLETED.
pub data Ruling (p : Poll) (s : JobStats) : RunItemStatus → RunItemStatus → Type 0 where
  stand : {t : RunItemStatus} → Ruling p s t t
  confirm :
      {t : RunItemStatus}
      → is_waiting t ≡ true
      → truthy s.state ≡ some "COMPLETED"
      → Ruling p s t RunItemStatus.completed
  condemn :
      {t : RunItemStatus} {final reason : String}
      → (is_waiting t || is_completed t) ≡ true
      → truthy s.state ≡ some final
      → get p.failure_states final ≡ some reason
      → Ruling p s t RunItemStatus.failed
  restore :
      truthy s.state ≡ some "COMPLETED" → Ruling p s RunItemStatus.failed RunItemStatus.completed

module _ (p : Poll) (s : JobStats) (final : String) (given : truthy s.state ≡ some final) where
  is_final : (other : String) → (final == other) ≡ true → truthy s.state ≡ some other
  is_final other e = given ∙ ap some ((eq_iff final other).0 e)

  resolve_waiting-Ruling :
      (t : RunItemStatus) (item : RunItem)
      → is_waiting t ≡ true
      → item.status ≡ t
      → Ruling p s t (resolve_waiting p s final item).0.status
  unfolding resolve_waiting resolve_completed resolve_failed
  resolve_waiting-Ruling t item w e = elim (Bool-cases (final == "COMPLETED")) [
    | inl c ↦ rw (c, resolve_waiting) (confirm w (is_final "COMPLETED" c))
    | inr n ↦ elim (Option-cases (get p.failure_states final)) [
      | inl good ↦ rw (n, good, resolve_waiting) (subst (Ruling p s t) (sym e) stand)
      | inr (reason, bad) ↦ rw (n, bad, resolve_waiting) (condemn (ground (arith, w)) given bad)
    ]
  ]

  resolve_finished-Ruling :
      (item : RunItem)
      → item.status ≡ RunItemStatus.completed
      → Ruling p s RunItemStatus.completed (resolve_finished p final item).0.status
  unfolding correct_failure
  resolve_finished-Ruling item e = elim (Option-cases (get p.failure_states final)) [
    | inl good ↦
        rw (good, resolve_finished) (subst (Ruling p s RunItemStatus.completed) (sym e) stand)
    | inr (reason, bad) ↦ rw (bad, resolve_finished) (condemn refl given bad)
  ]

  resolve_legacy-Ruling :
      (item : RunItem)
      → item.status ≡ RunItemStatus.failed
      → Ruling p s RunItemStatus.failed (resolve_legacy final item).0.status
  resolve_legacy-Ruling item e =
      elim (Bool-cases ((final == "COMPLETED") && is_marker item.error)) [
        | inl both ↦
            rw (both, resolve_legacy) (restore (is_final "COMPLETED" (ground (arith, both))))
        | inr no_marker ↦
            rw (no_marker, resolve_legacy) (subst (Ruling p s RunItemStatus.failed) (sym e) stand)
      ]

  resolve_state-Ruling :
      (t : RunItemStatus) (item : RunItem)
      → item.status ≡ t
      → Ruling p s t (resolve_state p s final t item).0.status
  unfolding resolve_state
  resolve_state-Ruling RunItemStatus.completed item e = resolve_finished-Ruling item e
  resolve_state-Ruling RunItemStatus.settling item e =
      resolve_waiting-Ruling RunItemStatus.settling item refl e
  resolve_state-Ruling RunItemStatus.submitted item e =
      resolve_waiting-Ruling RunItemStatus.submitted item refl e
  resolve_state-Ruling RunItemStatus.failed item e = resolve_legacy-Ruling item e
  resolve_state-Ruling t item e = subst (Ruling p s t) (sym e) stand

resolve_stated-Ruling :
    (p : Poll) (s : JobStats) (o : Option String) (item : RunItem)
    → truthy s.state ≡ o
    → Ruling p s item.status (resolve_stated p s o item).0.status
resolve_stated-Ruling p s none item e = stand
resolve_stated-Ruling p s (some final) item e =
    resolve_state-Ruling p s final e item.status item refl

-- The parts of an item that no record changes.
resolve_state-keeps :
    (p : Poll) (s : JobStats) (final : String) (t : RunItemStatus) (item : RunItem)
    → ((resolve_state p s final t item).0.task ≡ item.task)
      × ((resolve_state p s final t item).0.job_id ≡ item.job_id)
      × ((resolve_state p s final t item).0.exit_code ≡ item.exit_code)
unfolding resolve_state resolve_waiting resolve_completed resolve_failed correct_failure
resolve_state-keeps p s final RunItemStatus.completed item = ground arith
resolve_state-keeps p s final RunItemStatus.settling item = ground arith
resolve_state-keeps p s final RunItemStatus.submitted item = ground arith
resolve_state-keeps p s final RunItemStatus.failed item = ground arith
resolve_state-keeps p s final t item = (refl, refl, refl)

resolve_stated-keeps :
    (p : Poll) (s : JobStats) (o : Option String) (item : RunItem)
    → ((resolve_stated p s o item).0.task ≡ item.task)
      × ((resolve_stated p s o item).0.job_id ≡ item.job_id)
      × ((resolve_stated p s o item).0.exit_code ≡ item.exit_code)
resolve_stated-keeps p s none item = (refl, refl, refl)
resolve_stated-keeps p s (some final) item = resolve_state-keeps p s final item.status item

-- A record of the accounting moves the status of its item only by a step of `Ruling`, on the state in
-- the record and the backend's reading of it. The item keeps its task and its job, and has the exit
-- code of the record if there is one, and else its own.
pub resolve_item-Ruling :
    (p : Poll) (s : JobStats) (item : RunItem)
    → Ruling p s item.status (resolve_item p s item).0.status
      × ((resolve_item p s item).0.task ≡ item.task)
      × ((resolve_item p s item).0.job_id ≡ item.job_id)
      × ((resolve_item p s item).0.exit_code ≡ or_else s.exit_code item.exit_code)
unfolding resolve_item note_stats
resolve_item-Ruling p s item =
    let noted = note_stats p s item in
    let (same_task, same_job, same_exit) = resolve_stated-keeps p s (truthy s.state) noted in
    (resolve_stated-Ruling p s (truthy s.state) noted refl, same_task, same_job, same_exit)

-- No ruling gives an item a slot.
pub Ruling-slot :
    (p : Poll) (s : JobStats) {t u : RunItemStatus}
    → Ruling p s t u
    → holds_slot u ≡ true
    → holds_slot t ≡ true
Ruling-slot p s stand h = h
Ruling-slot p s (confirm w e) h = cc h
Ruling-slot p s (condemn w e f) h = cc h
Ruling-slot p s (restore e) h = cc h
