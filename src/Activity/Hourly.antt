-- ===== src/Activity/Hourly.antt =====
-- The chart of the last hours, `build_hourly_usage` of src/scripthut/runs/activity.py, without colours
-- and heights. An aware datetime stands for an instant, whatever its clock.
pub mod Totals
pub mod Overlaps
use scripthut.Common.{
  ℕ, zero, suc, ◌+◌, ◌*◌, ◌/◌, String, Bool, true, false, Option, none, some, List, [], ◌∷◌, ◌++◌,
  map, keep, if◌then◌else◌, ◌==◌, ltb, leb, eqb, take, truthy,
}
use scripthut.Common.Dict.{Dict, get, put}
use scripthut.Usage.{UsageRecord}
use scripthut.Activity.{hour_length, iter_hour_slices, cpus_or_one, end_of}

-- The variables of the loop over the records.
pub record Chart : Type 0 where
  pub per_hour : List (Dict ℕ)
  pub totals : Dict ℕ

-- `d.get(k, 0.0)`
unfoldable pub amount : Dict ℕ → String → ℕ
unfolding get
amount d k = elim (get d k) [ none ↦ 0 | some v ↦ v ]

-- `d[source] = d.get(source, 0.0) + hours`
abbrev pub add_hours : Dict ℕ → String → ℕ → Dict ℕ
unfolding put
add_hours d source hours = put d source (amount d source + hours)

-- `per_hour[i][source] = ...`
abbrev pub add_at : List (Dict ℕ) → ℕ → String → ℕ → List (Dict ℕ)
add_at [] i source hours = []
add_at (b ∷ buckets) zero source hours = add_hours b source hours ∷ buckets
add_at (b ∷ buckets) (suc i) source hours = b ∷ add_at buckets i source hours

-- `rec.source_name or _NO_SOURCE`
abbrev pub source_of : UsageRecord → String
source_of r = elim (truthy r.source_name) [ none ↦ "(no source)" | some s ↦ s ]

-- `sum(b.values())`
unfoldable pub total : Dict ℕ → ℕ
total [] = 0
total ((k, v) ∷ d) = v + total d

unfoldable pub pop : Dict ℕ → String → ℕ × Dict ℕ
pop [] k = (0, [])
pop ((j, v) ∷ d) k = let (w, rest) = pop d k in if j == k then (v, d) else (w, (j, v) ∷ rest)

-- `sum(bucket.pop(s, 0.0) for s in folded)`, and the bucket behind it.
unfoldable pub roll : List String → Dict ℕ → ℕ × Dict ℕ
unfolding pop
roll [] d = (0, d)
roll (s ∷ folded) d =
    let (v, rest) = pop d s in let (rolled, rest') = roll folded rest in (v + rolled, rest')

unfoldable pub fold_bucket : List String → Dict ℕ → Dict ℕ
unfolding roll put
fold_bucket folded b =
    let (rolled, rest) = roll folded b in if eqb rolled 0 then rest else put rest "Other" rolled

unfoldable pub insert_source : String × ℕ → Dict ℕ → Dict ℕ
insert_source (s, v) [] = (s, v) ∷ []
insert_source (s, v) ((t, w) ∷ ranked) =
    let rest = insert_source (s, v) ranked in
    if leb w v then (s, v) ∷ (t, w) ∷ ranked else (t, w) ∷ rest

-- `sorted(totals, key=..., reverse=True)`, with the totals
unfoldable pub rank : Dict ℕ → Dict ℕ
unfolding insert_source
rank [] = []
rank ((s, v) ∷ totals) = insert_source (s, v) (rank totals)

abbrev pub skip : ℕ → Dict ℕ → Dict ℕ
skip zero d = d
skip (suc n) [] = []
skip (suc n) (x ∷ d) = skip n d

-- `ranked[MAX_SOURCE_SERIES:]`
unfoldable pub folded_sources : Dict ℕ → List String
unfolding rank
folded_sources totals = map (λ x. x.0) (skip 5 (rank totals))

-- `shown`, before and after the folding
unfoldable pub shown_sources : Dict ℕ → List String
unfolding rank
shown_sources totals =
    map (λ x. x.0) (take 5 (rank totals))
    ++ elim (folded_sources totals) [ [] ↦ [] | ◌∷◌ s folded ↦ "Other" ∷ [] ]

unfoldable pub sum_of : Dict ℕ → List String → ℕ
sum_of totals [] = 0
sum_of totals (s ∷ folded) = amount totals s + sum_of totals folded

-- `totals` with "Other", and without the sources that are folded.
unfoldable pub fold_totals : Dict ℕ → List String → Dict ℕ
unfolding put roll
fold_totals totals [] = totals
fold_totals totals (s ∷ folded) =
    (roll (s ∷ folded) (put totals "Other" (sum_of totals (s ∷ folded)))).1

-- `{name: totals[name] for name in shown}`; `none` is a KeyError.
unfoldable pub totals_of : Dict ℕ → List String → Option (Dict ℕ)
unfolding get
totals_of totals [] = some []
totals_of totals (s ∷ shown) = elim (totals_of totals shown) [
  | none ↦ none
  | some rest ↦ elim (get totals s) [ none ↦ none | some v ↦ some ((s, v) ∷ rest) ]
]

unfoldable pub hourly_totals : Dict ℕ → Option (Dict ℕ)
unfolding rank
hourly_totals totals = totals_of (fold_totals totals (folded_sources totals)) (shown_sources totals)

abbrev pub empty_hours : ℕ → List (Dict ℕ)
empty_hours zero = []
empty_hours (suc n) = [] ∷ empty_hours n

-- Whether the hour `hour` on the clock of the start `started` is the instant of `starts[i]`: each clock
-- is `local t - t` ahead at its time `t`, and what would be subtracted stands on the other side.
abbrev pub is_hour : (ℕ → ℕ) → ℕ → ℕ → ℕ → ℕ → ℕ → Bool
is_hour local now window_hours started hour i =
    eqb (hour * hour_length + started + local now + window_hours * hour_length)
      ((local now / hour_length + i + 1) * hour_length + now + local started)

abbrev pub first_place : (ℕ → Bool) → ℕ → ℕ → Option ℕ
first_place test zero i = none
first_place test (suc n) i =
    let later = first_place test n (i + 1) in if test i then some i else later

-- `index.get(hour_start)`
unfoldable pub place_of : (ℕ → ℕ) → ℕ → ℕ → UsageRecord → ℕ → Option ℕ
place_of local now window_hours r hour =
    first_place (is_hour local now window_hours r.started_at hour) window_hours 0

-- `index` is `index.get`, for the hours on the clock of a record's start.
module _ (index : UsageRecord → ℕ → Option ℕ) where
  abbrev pub charge_hour : UsageRecord → ℕ → Chart → Option ℕ → Chart
  charge_hour r hours c none = c
  charge_hour r hours c (some i) = record {
    per_hour = add_at c.per_hour i (source_of r) hours;
    totals = add_hours c.totals (source_of r) hours;
  }

  unfoldable pub charge_hour_slices : UsageRecord → List (ℕ × ℕ) → Chart → Chart
  charge_hour_slices r [] c = c
  charge_hour_slices r ((hour, length) ∷ slices) c =
      charge_hour_slices r slices (charge_hour r (length * cpus_or_one r) c (index r hour))

  unfoldable pub charge_chart : (ℕ → ℕ) → ℕ → List UsageRecord → Chart → Chart
  unfolding charge_hour_slices iter_hour_slices
  charge_chart local now [] c = c
  charge_chart local now (r ∷ records) c =
      charge_chart local now records
        (charge_hour_slices r (iter_hour_slices local r.started_at (end_of now r)) c)

-- `per_hour` after the sources past the fifth are folded into "Other".
unfoldable pub hourly_buckets : (ℕ → ℕ) → List UsageRecord → ℕ → ℕ → List (Dict ℕ)
unfolding charge_chart fold_bucket rank place_of
hourly_buckets local records now window_hours =
    let c =
      charge_chart (place_of local now window_hours) local now records
        (record { per_hour = empty_hours window_hours; totals = [] }) in
    map (fold_bucket (folded_sources c.totals)) c.per_hour
