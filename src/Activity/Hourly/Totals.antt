-- ===== src/Activity/Hourly/Totals.antt =====
-- The totals of the hours of `build_hourly_usage`, src/scripthut/runs/activity.py.
use scripthut.Common.{
  ℕ, zero, suc, ◌+◌, ◌*◌, ◌<◌, String, ◌≡◌, refl, ap, ◌∙◌, inl, inr, false, Option, none, some,
  List, [], ◌∷◌, map, if◌then◌else◌, ◌==◌, eqb, arith, All, Bool-cases, length, get_elem?,
}
use scripthut.Common.Dict.{Dict, get, put, get-put}
use scripthut.Usage.{UsageRecord}
use scripthut.Activity.{iter_hour_slices, cpus_or_one, end_of}
use scripthut.Activity.Hourly.{
  Chart, amount, add_hours, add_at, source_of, total, pop, roll, fold_bucket, charge_hour,
  charge_hour_slices, charge_chart, empty_hours, place_of, hourly_buckets, folded_sources,
}

-- The total of the hour at a place.
abbrev pub total_at : List (Dict ℕ) → ℕ → ℕ
unfolding total
total_at buckets i = elim (get_elem? buckets i) [ none ↦ 0 | some b ↦ total b ]

total-put_new : (d : Dict ℕ) (k : String) (v : ℕ) → get d k ≡ none → total (put d k v) ≡ total d + v
unfolding total put get
total-put_new [] k v e = omega arith
total-put_new ((j, w) ∷ d) k v e = elim (Bool-cases (j == k)) [
  | inl x ↦ cc (rw (x) at e)
  | inr x ↦ rw (x) (omega (arith, total-put_new d k v (rw (x) at e)))
]

total-add_hours : (d : Dict ℕ) (k : String) (v : ℕ) → total (add_hours d k v) ≡ total d + v
unfolding total add_hours amount put get
total-add_hours [] k v = omega arith
total-add_hours ((j, w) ∷ d) k v = elim (Bool-cases (j == k)) [
  | inl x ↦ ground (arith, x)
  | inr x ↦ ground (arith, x, total-add_hours d k v)
]

total-pop : (d : Dict ℕ) (k : String) → (pop d k).0 + total (pop d k).1 ≡ total d
unfolding total pop
total-pop [] k = omega arith
total-pop ((j, v) ∷ d) k = elim (Bool-cases (j == k)) [
  | inl x ↦ rw (x) refl
  | inr x ↦ rw (x) (omega (arith, total-pop d k))
]

get-pop : (d : Dict ℕ) (k j : String) → get d j ≡ none → get (pop d k).1 j ≡ none
unfolding get pop
get-pop [] k j e = refl
get-pop ((i, v) ∷ d) k j e = elim (Bool-cases (i == j)) [
  | inl x ↦ cc (rw (x) at e)
  | inr x ↦ elim (Bool-cases (i == k)) [
    | inl y ↦ rw (y) (rw (x) at e)
    | inr y ↦ rw (y, x) (get-pop d k j (rw (x) at e))
  ]
]

total-roll :
    (folded : List String) (d : Dict ℕ)
    → get d "Other" ≡ none
    → ((roll folded d).0 + total (roll folded d).1 ≡ total d)
      × (get (roll folded d).1 "Other" ≡ none)
unfolding roll
total-roll [] d e = (omega arith, e)
total-roll (s ∷ folded) d e =
    let (a, b) = total-roll folded (pop d s).1 (get-pop d s "Other" e) in
    (omega (arith, a, total-pop d s), b)

total-fold_bucket :
    (folded : List String) (d : Dict ℕ)
    → get d "Other" ≡ none
    → total (fold_bucket folded d) ≡ total d
unfolding fold_bucket
total-fold_bucket folded d e =
    let (a, b) = total-roll folded d e in
    elim (Bool-cases (eqb (roll folded d).0 0)) [
      | inl x ↦ rw (x) (ground (arith, a, x))
      | inr x ↦
          rw (x) (omega (arith, a, total-put_new (roll folded d).1 "Other" (roll folded d).0 b))
    ]

abbrev NoOther : List (Dict ℕ) → Type 0
NoOther buckets = All (λ b. get b "Other" ≡ none) buckets

total_at-fold :
    (folded : List String) (buckets : List (Dict ℕ)) (i : ℕ)
    → NoOther buckets
    → total_at (map (fold_bucket folded) buckets) i ≡ total_at buckets i
unfolding total_at total
total_at-fold folded [] i h = refl
total_at-fold folded (b ∷ buckets) zero h = total-fold_bucket folded b h.0
total_at-fold folded (b ∷ buckets) (suc i) h = total_at-fold folded buckets i h.1

total_at-add_at :
    (buckets : List (Dict ℕ)) (j : ℕ) (source : String) (hours i : ℕ)
    → i < length buckets
    → total_at (add_at buckets j source hours) i
      ≡ total_at buckets i + (if eqb j i then hours else 0)
unfolding total_at total
total_at-add_at [] j source hours i h = absurd (omega (arith, h))
total_at-add_at (b ∷ buckets) zero source hours zero h = total-add_hours b source hours
total_at-add_at (b ∷ buckets) zero source hours (suc i) h = ground arith
total_at-add_at (b ∷ buckets) (suc j) source hours zero h = ground arith
total_at-add_at (b ∷ buckets) (suc j) source hours (suc i) h =
    ground (arith, total_at-add_at buckets j source hours i (omega (arith, h)))

add_at-NoOther :
    (buckets : List (Dict ℕ)) (j : ℕ) (source : String) (hours : ℕ)
    → (source == "Other") ≡ false
    → NoOther buckets
    → NoOther (add_at buckets j source hours)
unfolding add_hours put
add_at-NoOther [] j source hours n h = tt
add_at-NoOther (b ∷ buckets) zero source hours n h =
    (get-put b source "Other" (amount b source + hours) ∙ rw (n) h.0, h.1)
add_at-NoOther (b ∷ buckets) (suc j) source hours n h =
    (h.0, add_at-NoOther buckets j source hours n h.1)

length-add_at :
    (buckets : List (Dict ℕ)) (j : ℕ) (source : String) (hours : ℕ)
    → length (add_at buckets j source hours) ≡ length buckets
length-add_at [] j source hours = refl
length-add_at (b ∷ buckets) zero source hours = refl
length-add_at (b ∷ buckets) (suc j) source hours = ap suc (length-add_at buckets j source hours)

module _ (index : UsageRecord → ℕ → Option ℕ) where
  -- The amount of a slice, where its hour has this place.
  abbrev pub part : Option ℕ → ℕ → ℕ → ℕ
  part none hours i = 0
  part (some j) hours i = if eqb j i then hours else 0

  -- The processor time of the slices, and of the records, in the hour at a place.
  abbrev pub slices_at : UsageRecord → List (ℕ × ℕ) → ℕ → ℕ
  slices_at r [] i = 0
  slices_at r ((hour, length) ∷ slices) i =
      part (index r hour) (length * cpus_or_one r) i + slices_at r slices i

  abbrev pub records_at : (ℕ → ℕ) → ℕ → List UsageRecord → ℕ → ℕ
  records_at local now [] i = 0
  records_at local now (r ∷ records) i =
      slices_at r (iter_hour_slices local r.started_at (end_of now r)) i
      + records_at local now records i

  -- What a chart has become, with so much more in the hour at each place.
  record Charged (c : Chart) (more : ℕ → ℕ) (out : Chart) : Type 0 where
    hours :
        (i : ℕ) → i < length c.per_hour → total_at out.per_hour i ≡ total_at c.per_hour i + more i
    as_many : length out.per_hour ≡ length c.per_hour
    other : NoOther c.per_hour → NoOther out.per_hour

  unchanged-Charged : (c : Chart) → Charged c (λ i. 0) c
  unchanged-Charged c = record { hours = λ i h. omega arith; as_many = refl; other = λ h. h }

  then-Charged :
      (c d e : Chart) (f g : ℕ → ℕ) → Charged c f d → Charged d g e → Charged c (λ i. f i + g i) e
  then-Charged c d e f g x y = record {
    hours = λ i h. omega (arith, x.hours i h, y.hours i (rw x.as_many h));
    as_many = y.as_many ∙ x.as_many;
    other = λ h. y.other (x.other h);
  }

  charge_hour-Charged :
      (r : UsageRecord) (hours : ℕ) (c : Chart) (o : Option ℕ)
      → (source_of r == "Other") ≡ false
      → Charged c (part o hours) (charge_hour index r hours c o)
  charge_hour-Charged r hours c none n = unchanged-Charged c
  charge_hour-Charged r hours c (some j) n = record {
    hours = λ i h. total_at-add_at c.per_hour j (source_of r) hours i h;
    as_many = length-add_at c.per_hour j (source_of r) hours;
    other = λ h. add_at-NoOther c.per_hour j (source_of r) hours n h;
  }

  charge_hour_slices-Charged :
      (r : UsageRecord) (slices : List (ℕ × ℕ)) (c : Chart)
      → (source_of r == "Other") ≡ false
      → Charged c (slices_at r slices) (charge_hour_slices index r slices c)
  unfolding charge_hour_slices
  charge_hour_slices-Charged r [] c n = unchanged-Charged c
  charge_hour_slices-Charged r ((hour, length) ∷ slices) c n =
      then-Charged c _ _ _ _ (charge_hour-Charged r (length * cpus_or_one r) c (index r hour) n)
        (charge_hour_slices-Charged r slices _ n)

  charge_chart-Charged :
      (local : ℕ → ℕ) (now : ℕ) (records : List UsageRecord) (c : Chart)
      → All (λ r. (source_of r == "Other") ≡ false) records
      → Charged c (records_at local now records) (charge_chart index local now records c)
  unfolding charge_chart
  charge_chart-Charged local now [] c n = unchanged-Charged c
  charge_chart-Charged local now (r ∷ records) c n =
      then-Charged c _ _ _ _
        (charge_hour_slices-Charged r (iter_hour_slices local r.started_at (end_of now r)) c n.0)
        (charge_chart-Charged local now records _ n.1)

length-empty_hours : (n : ℕ) → length (empty_hours n) ≡ n
length-empty_hours zero = refl
length-empty_hours (suc n) = ap suc (length-empty_hours n)

empty_hours-NoOther : (n : ℕ) → NoOther (empty_hours n)
unfolding get
empty_hours-NoOther zero = tt
empty_hours-NoOther (suc n) = (refl, empty_hours-NoOther n)

total_at-empty_hours : (n i : ℕ) → total_at (empty_hours n) i ≡ 0
unfolding total_at total
total_at-empty_hours zero i = refl
total_at-empty_hours (suc n) zero = refl
total_at-empty_hours (suc n) (suc i) = total_at-empty_hours n i

-- Where no source is called "Other", each hour of the window has in total the processor time of the
-- records in that hour, also after the sources past the fifth have been folded.
pub total_at-hourly_buckets :
    (local : ℕ → ℕ) (records : List UsageRecord) (now window_hours i : ℕ)
    → All (λ r. (source_of r == "Other") ≡ false) records
    → i < window_hours
    → total_at (hourly_buckets local records now window_hours) i
      ≡ records_at (place_of local now window_hours) local now records i
unfolding hourly_buckets
total_at-hourly_buckets local records now window_hours i n h =
    let index = place_of local now window_hours in
    let begin : Chart = record { per_hour = empty_hours window_hours; totals = [] } in
    let c = charge_chart index local now records begin in
    let charged = charge_chart-Charged index local now records begin n in
    total_at-fold (folded_sources c.totals) c.per_hour i
      (charged.other (empty_hours-NoOther window_hours))
    ∙ omega (
      arith,
      charged.hours i (rw (length-empty_hours window_hours) h),
      total_at-empty_hours window_hours i,
    )
