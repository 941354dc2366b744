-- ===== src/Activity/Cells.antt =====
-- `build_activity_grid` of src/scripthut/runs/activity.py: the cells of the grid.
use native.Mathlib.Nat.{add-mul}
use scripthut.Common.{
  ℕ, zero, suc, ◌+◌, ◌-◌, ◌*◌, String, ◌≡◌, refl, sym, ap, ◌∙◌, inl, inr, Option, none, some, List,
  [], ◌∷◌, map, if◌then◌else◌, is_some, eqb, arith, Bool-cases, length,
}
use scripthut.Usage.{UsageRecord}
use scripthut.Activity.{
  ActivityDay, Tally, day_length, slices, iter_day_slices, sort_values, shaded, active_values,
  assign_with, assign_levels, empty_days, find_day, note_run, charge_day, cpus_or_one,
  charge_slices, end_of, charge_records, count_runs, grid_days,
}
use scripthut.Activity.Slices.{time_in, overlap, time_in-slices}

-- The processor time that the records have on a day.
abbrev pub work_on : (ℕ → ℕ) → ℕ → ℕ → List UsageRecord → ℕ
work_on local now day [] = 0
work_on local now day (r ∷ records) =
    overlap day_length (local r.started_at) (local r.started_at + (end_of now r - r.started_at)) day
      * cpus_or_one r
    + work_on local now day records

-- The cells stand for these days, in order, and have the hours that a function says.
abbrev pub HasHours : (ℕ → ℕ) → List ℕ → List ActivityDay → Type 0
HasHours f [] [] = Unit
HasHours f [] (d ∷ cells) = ⊥
HasHours f (day ∷ days) [] = ⊥
HasHours f (day ∷ days) (d ∷ cells) = (d.day ≡ day) × (d.cpu_hours ≡ f day) × HasHours f days cells

-- The days of a window.
abbrev pub window : ℕ → ℕ → List ℕ
window first zero = []
window first (suc n) = first ∷ window (first + 1) n

HasHours-map :
    (f g : ℕ → ℕ) (step : ActivityDay → ActivityDay) (days : List ℕ) (cells : List ActivityDay)
    → ((d : ActivityDay)
        → d.cpu_hours ≡ f d.day
        → ((step d).day ≡ d.day) × ((step d).cpu_hours ≡ g d.day))
    → HasHours f days cells
    → HasHours g days (map step cells)
HasHours-map f g step [] [] h a = tt
HasHours-map f g step [] (d ∷ cells) h a = absurd a
HasHours-map f g step (day ∷ days) [] h a = absurd a
HasHours-map f g step (day ∷ days) (d ∷ cells) h (a, b, c) =
    let (p, q) = h d (b ∙ ap f (sym a)) in (p ∙ a, q ∙ ap g a, HasHours-map f g step days cells h c)

HasHours-congr :
    (f g : ℕ → ℕ) (days : List ℕ) (cells : List ActivityDay)
    → ((day : ℕ) → f day ≡ g day)
    → HasHours f days cells
    → HasHours g days cells
HasHours-congr f g [] [] h a = tt
HasHours-congr f g [] (d ∷ cells) h a = absurd a
HasHours-congr f g (day ∷ days) [] h a = absurd a
HasHours-congr f g (day ∷ days) (d ∷ cells) h (a, b, c) =
    (a, b ∙ h day, HasHours-congr f g days cells h c)

-- With the amount of a slice, where its day has a cell.
abbrev more : (ℕ → ℕ) → ℕ → ℕ → ℕ → ℕ
more f day amount x = f x + (if eqb x day then amount else 0)

HasHours-charge_day :
    (f : ℕ → ℕ) (day amount : ℕ) (days : List ℕ) (cells : List ActivityDay)
    → HasHours f days cells
    → HasHours (more f day amount) days (charge_day day amount cells)
HasHours-charge_day f day amount days cells h =
    HasHours-map f (more f day amount) _ days cells
      (λ d e. elim (Bool-cases (eqb d.day day)) [
        | inl x ↦ rw (x, e) (refl, refl)
        | inr x ↦ rw (x, e) (refl, omega arith)
      ])
      h

HasHours-missing :
    (f : ℕ → ℕ) (day amount : ℕ) (days : List ℕ) (cells : List ActivityDay)
    → find_day day cells ≡ none
    → HasHours f days cells
    → HasHours (more f day amount) days cells
HasHours-missing f day amount [] [] e h = tt
HasHours-missing f day amount [] (d ∷ cells) e h = absurd h
HasHours-missing f day amount (x ∷ days) [] e h = absurd h
HasHours-missing f day amount (x ∷ days) (d ∷ cells) e (a, b, c) =
    elim (Bool-cases (eqb d.day day)) [
      | inl p ↦ cc (rw (find_day, p) at e)
      | inr p ↦ (
        a,
        b ∙ rw (sym a, p) (omega arith),
        HasHours-missing f day amount days cells (rw (find_day, p) at e) c,
      )
    ]

HasHours-charge_slices :
    (r : UsageRecord) (parts : List (ℕ × ℕ)) (t : Tally) (f : ℕ → ℕ) (days : List ℕ)
    → HasHours f days t.buckets
    → HasHours
        (λ day. f day + time_in day parts * cpus_or_one r)
        days
        (charge_slices r parts t).buckets
unfolding charge_slices
HasHours-charge_slices r [] t f days h = HasHours-congr f _ days t.buckets (λ day. omega arith) h
HasHours-charge_slices r ((day, length) ∷ parts) t f days h = HasHours-congr _ _ days _ share (
    HasHours-charge_slices r parts next (more f day (length * cpus_or_one r)) days
      (slice (find_day day t.buckets) refl))
  where
    charged : Tally
    charged = record {
      buckets = charge_day day (length * cpus_or_one r) t.buckets;
      run_ids = note_run day r.run_id t.run_ids;
    }

    next : Tally
    next = if is_some (find_day day t.buckets) then charged else t

    slice :
        (o : Option ActivityDay)
        → find_day day t.buckets ≡ o
        → HasHours
            (more f day (length * cpus_or_one r))
            days
            (if is_some o then charged else t).buckets
    slice none e = HasHours-missing f day (length * cpus_or_one r) days t.buckets e h
    slice (some d) e = HasHours-charge_day f day (length * cpus_or_one r) days t.buckets h

    share :
        (x : ℕ)
        → more f day (length * cpus_or_one r) x + time_in x parts * cpus_or_one r
          ≡ f x + time_in x ((day, length) ∷ parts) * cpus_or_one r
    share x = elim (Bool-cases (eqb x day)) [
      | inl e ↦ rw (e) (omega (arith, add-mul length (time_in x parts) (cpus_or_one r)))
      | inr e ↦ rw (e) (omega (arith, add-mul 0 (time_in x parts) (cpus_or_one r)))
    ]

HasHours-charge_records :
    (local : ℕ → ℕ) (now : ℕ) (records : List UsageRecord) (t : Tally) (f : ℕ → ℕ) (days : List ℕ)
    → HasHours f days t.buckets
    → HasHours
        (λ day. f day + work_on local now day records)
        days
        (charge_records local now records t).buckets
unfolding charge_records iter_day_slices
HasHours-charge_records local now [] t f days h =
    HasHours-congr f _ days t.buckets (λ day. omega arith) h
HasHours-charge_records local now (r ∷ records) t f days h =
    HasHours-congr _ _ days _
      (λ day.
        rw (time_in-slices day_length local r.started_at (end_of now r) day (omega arith))
          (omega arith))
      (HasHours-charge_records local now records _ _ days
        (HasHours-charge_slices r (slices day_length local r.started_at (end_of now r)) t f days h))

HasHours-count_runs :
    (f : ℕ → ℕ) (run_ids : List (ℕ × List String)) (days : List ℕ) (cells : List ActivityDay)
    → HasHours f days cells
    → HasHours f days (count_runs run_ids cells)
HasHours-count_runs f [] days cells h = h
HasHours-count_runs f ((day, ids) ∷ run_ids) days cells h = HasHours-count_runs f run_ids days _ (
    HasHours-map f f _ days cells
      (λ d e. elim (Bool-cases (eqb d.day day)) [
        | inl x ↦ rw (x) (refl, e)
        | inr x ↦ rw (x) (refl, e)
      ])
      h)

HasHours-assign_with :
    (f : ℕ → ℕ) (values days : List ℕ) (cells : List ActivityDay)
    → HasHours f days cells
    → HasHours f days (assign_with values cells)
HasHours-assign_with f [] days cells h = h
HasHours-assign_with f (v ∷ values) days cells h =
    HasHours-map f f (shaded (v ∷ values)) days cells (λ d e. (refl, e)) h

HasHours-empty_days : (first n : ℕ) → HasHours (λ day. 0) (window first n) (empty_days first n)
HasHours-empty_days first zero = tt
HasHours-empty_days first (suc n) = (refl, refl, HasHours-empty_days (first + 1) n)

-- The grid has a cell for each day of the window, in order, and each has the time that the records
-- have in common with its day, times their processors.
pub grid_days-HasHours :
    (local : ℕ → ℕ) (records : List UsageRecord) (today now window_days : ℕ)
    → HasHours
        (λ day. work_on local now day records)
        (window (today - (window_days - 1)) window_days)
        (grid_days local records today now window_days)
unfolding grid_days assign_levels
grid_days-HasHours local records today now window_days =
    let first = today - (window_days - 1) in
    let start : Tally = record { buckets = empty_days first window_days; run_ids = [] } in
    let t = charge_records local now records start in
    HasHours-assign_with (λ day. work_on local now day records)
      (sort_values (active_values (count_runs t.run_ids t.buckets))) (window first window_days)
      (count_runs t.run_ids t.buckets)
      (HasHours-count_runs (λ day. work_on local now day records) t.run_ids
        (window first window_days) t.buckets
        (HasHours-congr (λ day. 0 + work_on local now day records)
          (λ day. work_on local now day records) (window first window_days) t.buckets
          (λ day. omega arith)
          (HasHours-charge_records local now records start (λ day. 0) (window first window_days)
            (HasHours-empty_days first window_days))))
