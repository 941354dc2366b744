-- ===== src/Manager/Control/Ending.antt =====
-- The status of a run after `cancel_run` (src/scripthut/runs/manager.py).
use scripthut.Common.{
  ℕ, String, ◌≡◌, refl, ap, ◌∙◌, inl, inr, Bool, true, false, Option, none, List, [], ◌∷◌, arith,
  Pointwise, Bool-cases, All, all, any,
}
use scripthut.Model.{RunItem, RunItemStatus, Run, is_finished, is_failure, is_completed}
use scripthut.Model.Status.{status, status_of, reports_failed}
use scripthut.Manager.World.{World}
use scripthut.Manager.Slots.{is_active}
use scripthut.Manager.Control.{CancelCall, cancel_run}
use scripthut.Manager.Control.Cancelling.{Fate, Cancelled, cancel_run-Cancelled}

abbrev pub settles : RunItemStatus → Bool
settles RunItemStatus.settling = true
settles _ = false

finished_or_completed :
    (s : RunItemStatus) → is_finished s ≡ true → is_failure s ≡ false → is_completed s ≡ true
finished_or_completed RunItemStatus.pending h k = cc h
finished_or_completed RunItemStatus.submitted h k = cc h
finished_or_completed RunItemStatus.queued h k = cc h
finished_or_completed RunItemStatus.running h k = cc h
finished_or_completed RunItemStatus.settling h k = cc h
finished_or_completed RunItemStatus.completed h k = refl
finished_or_completed RunItemStatus.failed h k = cc k
finished_or_completed RunItemStatus.dep_failed h k = cc k

all_completed :
    (items : List RunItem)
    → all (λ i. is_finished i.status) items ≡ true
    → any (λ i. is_failure i.status) items ≡ false
    → all (λ i. is_completed i.status) items ≡ true
all_completed [] h k = refl
all_completed (i ∷ items) h k =
    ground (arith, h, k, finished_or_completed i.status, all_completed items)

-- A run whose items have all finished is over.
finished-over :
    (items : List RunItem)
    → all (λ i. is_finished i.status) items ≡ true
    → is_active (status_of items) ≡ false
unfolding status_of
finished-over [] h = refl
finished-over (i ∷ items) h = elim (Bool-cases (any (λ j. is_failure j.status) (i ∷ items))) [
  | inl broken ↦ rw (reports_failed, broken, h) refl
  | inr sound ↦ rw (reports_failed, sound, all_completed (i ∷ items) h sound) refl
]

finished-Cancelled :
    (now : ℕ) (a b : RunItem)
    → settles a.status ≡ false
    → Cancelled now a b
    → is_finished b.status ≡ true
finished-Cancelled now a b h c = each a.status h c refl
  where
    each :
        (s : RunItemStatus)
        → settles s ≡ false
        → Fate now s a b
        → a.status ≡ s
        → is_finished b.status ≡ true
    each RunItemStatus.pending h c e = ap is_finished c.status_is
    each RunItemStatus.submitted h c e = ap is_finished c.status_is
    each RunItemStatus.queued h c e = ap is_finished c.status_is
    each RunItemStatus.running h c e = ap is_finished c.status_is
    each RunItemStatus.settling h c e = cc h
    each RunItemStatus.completed h c e =
        ap (λ (x : RunItem). is_finished x.status) c ∙ ap is_finished e
    each RunItemStatus.failed h c e =
        ap (λ (x : RunItem). is_finished x.status) c ∙ ap is_finished e
    each RunItemStatus.dep_failed h c e =
        ap (λ (x : RunItem). is_finished x.status) c ∙ ap is_finished e

all_finished :
    (now : ℕ) (items final : List RunItem)
    → All (λ i. settles i.status ≡ false) items
    → Pointwise (Cancelled now) items final
    → all (λ i. is_finished i.status) final ≡ true
all_finished now [] [] h c = refl
all_finished now [] (b ∷ final) h c = absurd c
all_finished now (a ∷ items) [] h c = absurd c
all_finished now (a ∷ items) (b ∷ final) h c =
    ground (arith, finished-Cancelled now a b h.0 c.0, all_finished now items final h.1 c.1)

-- A run none of whose items is SETTLING is neither PENDING nor RUNNING once it has been cancelled and no
-- call to a scheduler has raised.
pub cancel_run-ends :
    (w : World) (answer : CancelCall → Option String) (run : Run)
    → (cancel_run w answer run).2 ≡ none
    → All (λ i. settles i.status ≡ false) run.items
    → is_active (status (cancel_run w answer run).0) ≡ false
unfolding status
cancel_run-ends w answer run h none_settles = finished-over (cancel_run w answer run).0.items (
    all_finished w.now run.items (cancel_run w answer run).0.items none_settles
      (cancel_run-Cancelled w answer run h).0)
