-- ===== src/Activity/Hourly/Overlaps.antt =====
-- The hours of the chart of src/scripthut/runs/activity.py as hours of the clock, where the clock is
-- always the same time ahead.
use scripthut.Common.{
  ℕ, zero, suc, ◌+◌, ◌-◌, ◌*◌, ◌/◌, ◌<◌, ◌≡◌, refl, ◌∙◌, inl, inr, Bool, false, ◌&&◌, Option, List,
  [], ◌∷◌, if◌then◌else◌, ◌==◌, ltb, leb, eqb, arith, All, Bool-cases,
}
use native.Mathlib.Nat.{add-mul}
use scripthut.Usage.{UsageRecord}
use scripthut.Activity.{hour_length, slices, iter_hour_slices, cpus_or_one, end_of}
use scripthut.Activity.Slices.{time_in, overlap, time_in-slices}
use scripthut.Activity.Hourly.{source_of, is_hour, first_place, place_of, hourly_buckets}
use scripthut.Activity.Hourly.Totals.{
  part, slices_at, records_at, total_at, total_at-hourly_buckets,
}

-- The processor time that the records have in an hour of the clock.
abbrev pub work_in : (ℕ → ℕ) → ℕ → ℕ → List UsageRecord → ℕ
work_in local now hour [] = 0
work_in local now hour (r ∷ records) =
    overlap hour_length (local r.started_at) (local r.started_at + (end_of now r - r.started_at))
        hour
      * cpus_or_one r
    + work_in local now hour records

-- What of an amount falls to place `i`, where a test finds its place among `n` from `k` on.
first_place-at :
    (index : UsageRecord → ℕ → Option ℕ) (test : ℕ → Bool) (x base : ℕ)
    → ((j : ℕ) → test j ≡ eqb x (base + j))
    → (n k amount i : ℕ)
    → part index (first_place test n k) amount i
      ≡ (if (leb k i && ltb i (k + n)) && eqb x (base + i) then amount else 0)
first_place-at index test x base same zero k amount i = ground arith
first_place-at index test x base same (suc n) k amount i = elim (Bool-cases (test k)) [
  | inl e ↦ rw (first_place, e) (ground (arith, same k, e))
  | inr e ↦
      rw (first_place, e)
        (first_place-at index test x base same n (k + 1) amount i ∙ ground (arith, same k, e))
]

module _ (local : ℕ → ℕ) (offset : ℕ) (ahead : (t : ℕ) → local t ≡ t + offset)
    (now window_hours i hour : ℕ) (inside : i < window_hours)
    (known : hour + window_hours ≡ local now / hour_length + i + 1) where
  is_hour-same :
      (started h j : ℕ)
      → is_hour local now window_hours started h j
        ≡ eqb (h + window_hours) (local now / hour_length + 1 + j)
  is_hour-same started h j =
      scaled (local now / hour_length) (local now) (local started) (ahead now) (ahead started)
    where
      scaled :
          (c n s : ℕ)
          → n ≡ now + offset
          → s ≡ started + offset
          → eqb
              (h * hour_length + started + n + window_hours * hour_length)
              ((c + j + 1) * hour_length + now + s)
            ≡ eqb (h + window_hours) (c + 1 + j)
      scaled c n s p q = ground (arith, p, q)

  place_of-part :
      (r : UsageRecord) (h amount : ℕ)
      → part (place_of local now window_hours) (place_of local now window_hours r h) amount i
        ≡ (if eqb hour h then amount else 0)
  unfolding place_of
  place_of-part r h amount =
      first_place-at (place_of local now window_hours)
        (is_hour local now window_hours r.started_at h) (h + window_hours)
        (local now / hour_length + 1) (λ j. is_hour-same r.started_at h j) window_hours 0 amount i
      ∙ ground (arith, inside, known)

  slices_at-time_in :
      (r : UsageRecord) (parts : List (ℕ × ℕ))
      → slices_at (place_of local now window_hours) r parts i ≡ time_in hour parts * cpus_or_one r
  slices_at-time_in r [] = omega arith
  slices_at-time_in r ((h, length) ∷ parts) = elim (Bool-cases (eqb hour h)) [
    | inl e ↦
        rw (place_of-part r h (length * cpus_or_one r), e)
          (omega
            (arith, slices_at-time_in r parts, add-mul length (time_in hour parts) (cpus_or_one r)))
    | inr e ↦
        rw (place_of-part r h (length * cpus_or_one r), e)
          (omega (arith, slices_at-time_in r parts))
  ]

  records_at-work_in :
      (records : List UsageRecord)
      → records_at (place_of local now window_hours) local now records i
        ≡ work_in local now hour records
  unfolding iter_hour_slices
  records_at-work_in [] = refl
  records_at-work_in (r ∷ records) =
      let here = slices_at-time_in r (slices hour_length local r.started_at (end_of now r)) in
      let shared =
        time_in-slices hour_length local r.started_at (end_of now r) hour (omega arith) in
      rw (here, shared, records_at-work_in records) refl

-- On a clock that is always the same time ahead, and where no source is called "Other", the place `i`
-- of a window that ends with the current hour has in total the processor time that the records have in
-- common with the hour of the clock that stands there, also after the smaller sources are folded.
pub total_at-work_in :
    (local : ℕ → ℕ) (offset : ℕ) (records : List UsageRecord) (now window_hours i hour : ℕ)
    → ((t : ℕ) → local t ≡ t + offset)
    → All (λ r. (source_of r == "Other") ≡ false) records
    → i < window_hours
    → hour + window_hours ≡ local now / hour_length + i + 1
    → total_at (hourly_buckets local records now window_hours) i ≡ work_in local now hour records
total_at-work_in local offset records now window_hours i hour ahead n inside known =
    total_at-hourly_buckets local records now window_hours i n inside
    ∙ records_at-work_in local offset ahead now window_hours i hour inside known records
