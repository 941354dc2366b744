-- ===== src/Activity/Levels.antt =====
-- `_assign_levels` of src/scripthut/runs/activity.py: the shades of the cells.
use scripthut.Common.{
  ℕ, zero, suc, ◌-◌, ◌*◌, ◌/◌, ◌≤◌, ◌<◌, ◌≡◌, refl, sym, ap, ◌∙◌, inl, inr, List, [], ◌∷◌, map,
  keep, ltb, leb, arith, All, Bool-cases, length,
}
use scripthut.Activity.{
  ActivityDay, at, sort_values, insert_value, level_of, shade, shaded, active_values, assign_with,
  assign_levels,
}

-- How the cells of a grid are shaded.
pub record Shaded (cells : List ActivityDay) : Type 0 where
  pub idle : All (λ d. d.cpu_hours ≡ 0 → d.level ≡ 0) cells
  pub busy : All (λ d. 0 < d.cpu_hours → (1 ≤ d.level) × (d.level ≤ 4)) cells
  pub ordered : All (λ a. All (λ b. a.cpu_hours ≤ b.cpu_hours → a.level ≤ b.level) cells) cells
  pub darkest :
      All (λ a. 0 < a.cpu_hours → All (λ b. b.cpu_hours ≤ a.cpu_hours) cells → a.level ≡ 4) cells

All-each :
    (P : ActivityDay → Type 0) (cells : List ActivityDay) → ((d : ActivityDay) → P d) → All P cells
All-each P [] h = tt
All-each P (d ∷ cells) h = (h d, All-each P cells h)

All-map :
    (P : ActivityDay → Type 0) (step : ActivityDay → ActivityDay) (cells : List ActivityDay)
    → ((d : ActivityDay) → P (step d))
    → All P (map step cells)
All-map P step [] h = tt
All-map P step (d ∷ cells) h = (h d, All-map P step cells h)

All-weaken :
    (P Q : ActivityDay → Type 0) (cells : List ActivityDay)
    → ((d : ActivityDay) → P d → Q d)
    → All P cells
    → All Q cells
All-weaken P Q [] f h = tt
All-weaken P Q (d ∷ cells) f h = (f d h.0, All-weaken P Q cells f h.1)

level_of-bounds :
    (low middle high top c : ℕ)
    → 0 < c
    → (1 ≤ level_of low middle high top c) × (level_of low middle high top c ≤ 4)
level_of-bounds low middle high top c h = ground (arith, h)

level_of-ordered :
    (low middle high top c d : ℕ)
    → c ≤ d
    → level_of low middle high top c ≤ level_of low middle high top d
level_of-ordered low middle high top c d h = ground (arith, h)

level_of-top : (low middle high top c : ℕ) → 0 < c → top ≤ c → level_of low middle high top c ≡ 4
level_of-top low middle high top c h t = ground (arith, h, t)

-- The values are not above a bound.
at-bound : (values : List ℕ) (i c : ℕ) → All (λ v. v ≤ c) values → at values i ≤ c
at-bound [] i c h = omega arith
at-bound (v ∷ values) zero c h = h.0
at-bound (v ∷ values) (suc i) c h = at-bound values i c h.1

insert_value-bound :
    (a : ℕ) (values : List ℕ) (c : ℕ)
    → a ≤ c
    → All (λ v. v ≤ c) values
    → All (λ v. v ≤ c) (insert_value a values)
unfolding insert_value
insert_value-bound a [] c h k = (h, tt)
insert_value-bound a (b ∷ values) c h k = elim (Bool-cases (leb a b)) [
  | inl e ↦ rw (e) (h, (k.0, k.1))
  | inr e ↦ rw (e) (k.0, insert_value-bound a values c h k.1)
]

sort_values-bound :
    (values : List ℕ) (c : ℕ) → All (λ v. v ≤ c) values → All (λ v. v ≤ c) (sort_values values)
unfolding sort_values
sort_values-bound [] c h = tt
sort_values-bound (a ∷ values) c h =
    insert_value-bound a (sort_values values) c h.0 (sort_values-bound values c h.1)

active_values-bound :
    (cells : List ActivityDay) (c : ℕ)
    → All (λ d. d.cpu_hours ≤ c) cells
    → All (λ v. v ≤ c) (active_values cells)
active_values-bound [] c h = tt
active_values-bound (d ∷ cells) c h = elim (Bool-cases (ltb 0 d.cpu_hours)) [
  | inl e ↦ rw (keep, e) (h.0, active_values-bound cells c h.1)
  | inr e ↦ rw (keep, e) (active_values-bound cells c h.1)
]

insert_value-not_empty : (a : ℕ) (values : List ℕ) → (insert_value a values ≡ []) → ⊥
unfolding insert_value
insert_value-not_empty a [] e = cc e
insert_value-not_empty a (b ∷ values) e = elim (Bool-cases (leb a b)) [
  | inl x ↦ cc (rw (x) at e)
  | inr x ↦ cc (rw (x) at e)
]

All-idle :
    (cells : List ActivityDay)
    → sort_values (active_values cells) ≡ []
    → All (λ d. d.cpu_hours ≡ 0) cells
unfolding sort_values
All-idle [] e = tt
All-idle (d ∷ cells) e = elim (Bool-cases (ltb 0 d.cpu_hours)) [
  | inl x ↦
      absurd
        (insert_value-not_empty d.cpu_hours (sort_values (active_values cells)) (rw (keep, x) at e))
  | inr x ↦ (ground (arith, x), All-idle cells (rw (keep, x) at e))
]

-- Cells that all have no hours and no shade.
idle-Shaded :
    (cells : List ActivityDay)
    → All (λ d. d.level ≡ 0) cells
    → All (λ d. d.cpu_hours ≡ 0) cells
    → Shaded cells
idle-Shaded cells levels hours = record {
  idle = All-weaken (λ d. d.level ≡ 0) _ cells (λ d e h. e) levels;
  busy = All-weaken (λ d. d.cpu_hours ≡ 0) _ cells (λ d e h. absurd (omega (arith, e, h))) hours;
  ordered =
      All-weaken (λ d. d.level ≡ 0) _ cells
        (λ a e.
          All-each (λ b. a.cpu_hours ≤ b.cpu_hours → a.level ≤ b.level) cells
            (λ b h. omega (arith, e)))
        levels;
  darkest =
      All-weaken (λ d. d.cpu_hours ≡ 0) _ cells (λ d e h k. absurd (omega (arith, e, h))) hours;
}

shade-darkest :
    (cells : List ActivityDay) (c : ℕ)
    → 0 < c
    → All (λ d. d.cpu_hours ≤ c) cells
    → shade (sort_values (active_values cells)) c ≡ 4
shade-darkest cells c h all =
    let values = sort_values (active_values cells) in
    let last = length values - 1 in
    level_of-top (at values (last / 4)) (at values (last / 2)) (at values (last * 3 / 4))
      (at values last) c h
      (at-bound values last c
        (sort_values-bound (active_values cells) c (active_values-bound cells c all)))

-- Fresh cells are shaded so that those without hours have the level 0 and all others one from 1 to
-- 4, that more hours never give a lighter shade, and that the busiest cells have the level 4.
pub assign_levels-Shaded :
    (cells : List ActivityDay) → All (λ d. d.level ≡ 0) cells → Shaded (assign_levels cells)
unfolding assign_levels
assign_levels-Shaded cells fresh = assigned (sort_values (active_values cells)) refl
  where
    values : List ℕ
    values = sort_values (active_values cells)

    unshaded :
        (xs : List ActivityDay) (c : ℕ) (vs : List ℕ)
        → All (λ b. b.cpu_hours ≤ c) (map (shaded vs) xs)
        → All (λ b. b.cpu_hours ≤ c) xs
    unshaded [] c vs h = tt
    unshaded (x ∷ xs) c vs h = (h.0, unshaded xs c vs h.1)

    assigned : (vs : List ℕ) → values ≡ vs → Shaded (assign_with vs cells)
    assigned [] e = idle-Shaded cells fresh (All-idle cells e)
    assigned (v ∷ vs) e = record {
      idle = All-map _ (shaded (v ∷ vs)) cells (λ d h. ap (shade (v ∷ vs)) h);
      busy = All-map _ (shaded (v ∷ vs)) cells (λ d h. level_of-bounds _ _ _ _ d.cpu_hours h);
      ordered = All-map _ (shaded (v ∷ vs)) cells (λ a.
          All-map _ (shaded (v ∷ vs)) cells
            (λ b h. level_of-ordered _ _ _ _ a.cpu_hours b.cpu_hours h));
      darkest = All-map _ (shaded (v ∷ vs)) cells (λ a h k.
          ap (λ xs. shade xs a.cpu_hours) (sym e)
          ∙ shade-darkest cells a.cpu_hours h (unshaded cells a.cpu_hours (v ∷ vs) k));
    }
