-- ===== src/Manager/Validate/Colors.antt =====
-- The colours of the search of `_validate_dependencies` (src/scripthut/runs/manager.py).
use scripthut.Common.{
  ℕ, ◌+◌, ◌≤◌, String, ◌≡◌, refl, sym, ap, subst, ◌∙◌, inl, inr, true, false, some, List, [], ◌∷◌,
  ◌++◌, ◌==◌, elem, arith, eq_iff, eq_refl, Bool-cases, is_some,
}
use scripthut.Common.Dict.{Dict, get, put, get-put}
use scripthut.Manager.Validate.{Graph, Color, white, gray, black}
use scripthut.Manager.Validate.Walks.{Depends, Grounded, grounded}

abbrev weight : Color → ℕ
weight white = 1
weight gray = 0
weight black = 0

unfoldable pub white_count : Dict Color → ℕ
white_count [] = 0
white_count ((k, c) ∷ d) = weight c + white_count d

-- A white task that is coloured leaves one white task fewer, and no colour but white adds one.
pub white_count-put_white :
    (d : Dict Color) (k : String) (c : Color)
    → get d k ≡ some white
    → weight c ≡ 0
    → white_count (put d k c) + 1 ≡ white_count d
unfolding white_count get put
white_count-put_white [] k c h z = cc h
white_count-put_white ((j, b) ∷ d) k c h z = elim (Bool-cases (j == k)) [
  | inl here ↦ ground (arith, here, z, h)
  | inr later ↦
      rw (later, put, white_count)
        (omega (arith, white_count-put_white d k c (rw (later, get) at h) z))
]

pub white_count-put_le :
    (d : Dict Color) (k : String) (c : Color)
    → weight c ≡ 0
    → white_count (put d k c) ≤ white_count d
unfolding white_count put
white_count-put_le [] k c z = omega (arith, z)
white_count-put_le ((j, b) ∷ d) k c z = ground (arith, z, white_count-put_le d k c z)

pub get-put_self : (d : Dict Color) (k : String) (c : Color) → get (put d k c) k ≡ some c
get-put_self d k c = rw (get-put d k k c, eq_refl k) refl

pub get-put_other :
    (d : Dict Color) (k j : String) (c : Color) → (k == j) ≡ false → get (put d k c) j ≡ get d j
get-put_other d k j c h = rw (get-put d k j c, h) refl

-- The black tasks are grounded, and the tasks with a colour are those of the graph.
pub record IsSound (graph : Graph) (d : Dict Color) : Type 0 where
  pub settled : (a : String) → get d a ≡ some black → Grounded graph a
  pub known : (a : String) → is_some (get d a) ≡ is_some (get graph a)

-- The search has gone on from `d` to `e`.
pub record Onward (d e : Dict Color) : Type 0 where
  pub black_stays : (a : String) → get d a ≡ some black → get e a ≡ some black
  pub gray_stays : (a : String) → get e a ≡ some gray → get d a ≡ some gray
  pub no_whiter : white_count e ≤ white_count d

pub Onward-refl : (d : Dict Color) → Onward d d
Onward-refl d = record { black_stays = λ a h. h; gray_stays = λ a h. h; no_whiter = omega arith }

pub Onward-trans : (d e f : Dict Color) → Onward d e → Onward e f → Onward d f
Onward-trans d e f p q = record {
  black_stays = λ a h. q.black_stays a (p.black_stays a h);
  gray_stays = λ a h. p.gray_stays a (q.gray_stays a h);
  no_whiter = omega (arith, p.no_whiter, q.no_whiter);
}

-- Every gray task is on the path.
abbrev pub OnPath : List String → Dict Color → Type 0
OnPath path d = (a : String) → get d a ≡ some gray → elem a path ≡ true

module _ (graph : Graph) (d : Dict Color) (node : String) where
  known-put :
      (c : Color) (a : String)
      → is_some (get d node) ≡ true
      → is_some (get (put d node c) a) ≡ is_some (get d a)
  known-put c a h = elim (Bool-cases (node == a)) [
    | inl same ↦ ground (arith, get-put d node a c, same, h, eq_iff node a)
    | inr differs ↦ ap is_some (get-put_other d node a c differs)
  ]

  -- The search enters a white task.
  pub IsSound-gray : IsSound graph d → get d node ≡ some white → IsSound graph (put d node gray)
  IsSound-gray s h = record {
    settled = λ a e. elim (Bool-cases (node == a)) [
      | inl same ↦ absurd (white_not_black a same e)
      | inr differs ↦ s.settled a (sym (get-put_other d node a gray differs) ∙ e)
    ];
    known = λ a. known-put gray a (ap is_some h) ∙ s.known a;
  }
    where
      white_not_black : (a : String) → (node == a) ≡ true → ¬ (get (put d node gray) a ≡ some black)
      white_not_black a same e = cc (rw (get-put d node a gray, same) at e)

  -- The search leaves it, when each of its dependencies is black.
  pub IsSound-black :
      IsSound graph d
      → is_some (get d node) ≡ true
      → ((b : String) → Depends graph node b → get d b ≡ some black)
      → IsSound graph (put d node black)
  IsSound-black s h below = record {
    settled = λ a e. elim (Bool-cases (node == a)) [
      | inl same ↦
          subst (Grounded graph) ((eq_iff node a).0 same)
            (grounded (λ b dep. s.settled b (below b dep)))
      | inr differs ↦ s.settled a (sym (get-put_other d node a black differs) ∙ e)
    ];
    known = λ a. known-put black a h ∙ s.known a;
  }

pub OnPath-gray :
    (path : List String) (d : Dict Color) (node : String)
    → OnPath path d
    → OnPath (path ++ node ∷ []) (put d node gray)
OnPath-gray path d node h a e = elim (Bool-cases (node == a)) [
  | inl same ↦ last_elem path a same
  | inr differs ↦ widen path a (h a (sym (get-put_other d node a gray differs) ∙ e))
]
  where
    last_elem :
        (path : List String) (a : String) → (node == a) ≡ true → elem a (path ++ node ∷ []) ≡ true
    last_elem [] a same = ground (arith, same, eq_iff node a, eq_iff a node)
    last_elem (x ∷ path) a same = ground (arith, last_elem path a same)

    widen :
        (path : List String) (a : String) → elem a path ≡ true → elem a (path ++ node ∷ []) ≡ true
    widen [] a e = cc e
    widen (x ∷ path) a e = ground (arith, e, widen path a)

-- The search has been in `node` and left it again.
pub Onward-node :
    (d e : Dict Color) (node : String)
    → get d node ≡ some white
    → Onward (put d node gray) e
    → Onward d (put e node black)
Onward-node d e node h o = record {
  black_stays = λ a b. elim (Bool-cases (node == a)) [
    | inl same ↦ rw (get-put e node a black, same) refl
    | inr differs ↦
        get-put_other e node a black differs
        ∙ o.black_stays a (get-put_other d node a gray differs ∙ b)
  ];
  gray_stays = λ a b. elim (Bool-cases (node == a)) [
    | inl same ↦ cc (rw (get-put e node a black, same) at b)
    | inr differs ↦
        sym (get-put_other d node a gray differs)
        ∙ o.gray_stays a (sym (get-put_other e node a black differs) ∙ b)
  ];
  no_whiter = omega (
    arith,
    o.no_whiter,
    white_count-put_le e node black refl,
    white_count-put_le d node gray refl,
  );
}
