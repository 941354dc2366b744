-- ===== src/Activity/Slices.antt =====
-- `_iter_day_slices` and `_iter_hour_slices` of src/scripthut/runs/activity.py, against the overlap of
-- an interval with a day or an hour.
use native.Mathlib.Nat.{mul-le-mul_right, add-mul, div-add-mod', mod-lt}
use scripthut.Common.{
  min, max, ℕ, zero, suc, ◌+◌, ◌-◌, ◌*◌, ◌/◌, ◌≤◌, ◌<◌, ◌≡◌, sym, inl, inr, true, false, List, [],
  ◌∷◌, if◌then◌else◌, ltb, leb, eqb, arith, Bool-cases,
}
use scripthut.Activity.{iter_slices, slices}

-- The time of the slices in a cell.
abbrev pub time_in : ℕ → List (ℕ × ℕ) → ℕ
time_in cell [] = 0
time_in cell ((c, length) ∷ rest) = (if eqb cell c then length else 0) + time_in cell rest

-- The time that an interval and a cell have in common.
abbrev pub overlap : ℕ → ℕ → ℕ → ℕ → ℕ
overlap width cursor end cell = min end ((cell + 1) * width) - max cursor (cell * width)

-- The cell of a time.
in_cell :
    (width cursor : ℕ)
    → 0 < width
    → (cursor / width * width ≤ cursor) × (cursor < (cursor / width + 1) * width)
in_cell width cursor h =
    omega (arith, div-add-mod' cursor width, mod-lt cursor h, add-mul (cursor / width) 1 width)

-- The first slice and the overlap behind it.
overlap-step :
    (width q cursor end cell : ℕ)
    → q * width ≤ cursor
    → cursor < (q + 1) * width
    → cursor < end
    → (if eqb cell q then min ((q + 1) * width) end - cursor else 0)
        + overlap width (min ((q + 1) * width) end) end cell
      ≡ overlap width cursor end cell
overlap-step width q cursor end cell a b c = elim (Bool-cases (eqb cell q)) [
  | inl e ↦ let same : q ≡ cell = ground (arith, e) in rw (e, sym same) (omega arith)
  | inr e ↦ elim (Bool-cases (ltb q cell)) [
    | inl x ↦ rw (e) (omega (arith, mul-le-mul_right width (after q cell x), a, b, c))
    | inr x ↦ rw (e) (omega (arith, mul-le-mul_right width (before q cell e x), a, b, c))
  ]
]
  where
    after : (q cell : ℕ) → ltb q cell ≡ true → q + 1 ≤ cell
    after q cell x = ground (arith, x)

    before : (q cell : ℕ) → eqb cell q ≡ false → ltb q cell ≡ false → cell + 1 ≤ q
    before q cell e x = ground (arith, e, x)

-- On fuel for the time that is left.
time_in-iter_slices :
    (width fuel cursor end cell : ℕ)
    → 0 < width
    → end ≤ cursor + fuel
    → time_in cell (iter_slices width fuel cursor end) ≡ overlap width cursor end cell
unfolding iter_slices
time_in-iter_slices width zero cursor end cell h f = omega (arith, f)
time_in-iter_slices width (suc fuel) cursor end cell h f = elim (Bool-cases (ltb cursor end)) [
  | inr e ↦ rw (e) (ground (arith, e))
  | inl e ↦
      let (a, b) = in_cell width cursor h in
      let c : cursor < end = ground (arith, e) in
      let moves : leb (min ((cursor / width + 1) * width) end) cursor ≡ false =
        ground (arith, b, c) in
      let enough : end ≤ min ((cursor / width + 1) * width) end + fuel = omega (arith, b, f) in
      rw
        (
          e,
          moves,
          time_in-iter_slices width fuel (min ((cursor / width + 1) * width) end) end cell h enough,
        )
        (overlap-step width (cursor / width) cursor end cell a b c)
]

-- For any length of the cells but 0, the slices of an interval put into each cell exactly the time
-- that the two have in common.
pub time_in-slices :
    (width : ℕ) (local : ℕ → ℕ) (start end cell : ℕ)
    → 0 < width
    → time_in cell (slices width local start end)
      ≡ overlap width (local start) (local start + (end - start)) cell
unfolding slices
time_in-slices width local start end cell h =
    time_in-iter_slices width (end - start) (local start) (local start + (end - start)) cell h
      (omega arith)
