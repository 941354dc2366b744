-- ===== src/Manager/Validate/Descent.antt =====
-- The search itself, `dfs` in `_validate_dependencies` (src/scripthut/runs/manager.py).
use scripthut.Common.{
  ℕ, zero, suc, ◌<◌, String, ◌≡◌, refl, sym, ap, subst, ◌∙◌, inl, inr, true, false, Option, none,
  some, List, [], ◌∷◌, ◌++◌, ◌==◌, elem, arith, eq_iff, eq_refl, Bool-cases, Option-cases, is_some,
  All,
}
use scripthut.Common.Dict.{Dict, get, put}
use scripthut.Manager.Validate.{
  Graph, Color, white, gray, black, circular, Search, done, raised, visit_dep, visit_deps, blacken,
  dfs,
}
use scripthut.Manager.Validate.Walks.{Depends, IsWalk, IsCycle, IsWalk-snoc, from_first-IsCycle}
use scripthut.Manager.Validate.Colors.{
  white_count, white_count-put_white, IsSound, IsSound-gray, IsSound-black, Onward, Onward-refl,
  Onward-trans, Onward-node, OnPath, OnPath-gray, get-put_self,
}

-- Each dependency is a task.
abbrev pub IsClosed : Graph → Type 0
IsClosed graph = (a b : String) → Depends graph a b → is_some (get graph b) ≡ true

-- A dependency of the node is in its list.
in_deps :
    (graph : Graph) (node b : String) (deps : List String)
    → get graph node ≡ some deps
    → Depends graph node b
    → elem b deps ≡ true
in_deps graph node b deps e (deps', e', h) =
    subst (λ o. elim o [ none ↦ elem b [] ≡ true | some ds ↦ elem b ds ≡ true ]) (sym e' ∙ e) h

black_of :
    (d : Dict Color) (deps : List String) (b : String)
    → All (λ a. get d a ≡ some black) deps
    → elem b deps ≡ true
    → get d b ≡ some black
black_of d [] b h m = cc m
black_of d (a ∷ deps) b h m = elim (Bool-cases (b == a)) [
  | inl same ↦ ap (get d) ((eq_iff b a).0 same) ∙ h.0
  | inr differs ↦ black_of d deps b h.1 (rw differs at m)
]

-- How a search from the colours `d` ends: with the nodes black, or with a cycle.
abbrev pub Ends : Graph → Dict Color → List String → Search → Type 0
Ends graph d nodes (done e) = IsSound graph e × Onward d e × All (λ a. get e a ≡ some black) nodes
Ends graph d nodes (raised (circular path)) = IsCycle graph path
Ends graph d nodes (raised r) = ⊥

module _ (graph : Graph) (closed : IsClosed graph) where
  -- What a search from a dependency of `node` is asked for.
  abbrev Searches : ℕ → List String → String → (String → Dict Color → Search) → Type 0
  Searches fuel path node go =
      (dep : String) (d : Dict Color)
      → Depends graph node dep
      → white_count d < fuel
      → IsSound graph d
      → OnPath (path ++ node ∷ []) d
      → get d dep ≡ some white
      → Ends graph d (dep ∷ []) (go dep d)

  module _ (fuel : ℕ) (path : List String) (node : String) (go : String → Dict Color → Search)
      (searches : Searches fuel path node go) (walk : IsWalk graph (path ++ node ∷ [])) where
    visit_dep-Ends :
        (dep : String) (d : Dict Color) (o : Option Color)
        → get d dep ≡ o
        → Depends graph node dep
        → white_count d < fuel
        → IsSound graph d
        → OnPath (path ++ node ∷ []) d
        → Ends graph d (dep ∷ []) (visit_dep go (path ++ node ∷ []) d dep o)
    visit_dep-Ends dep d none e dep_on enough s on =
        absurd (no_none (closed node dep dep_on) (s.known dep) e)
      where
        no_none :
            is_some (get graph dep) ≡ true
            → is_some (get d dep) ≡ is_some (get graph dep)
            → ¬ (get d dep ≡ none)
        no_none a b e = cc (sym (ap is_some e) ∙ (b ∙ a))
    visit_dep-Ends dep d (some white) e dep_on enough s on = searches dep d dep_on enough s on e
    visit_dep-Ends dep d (some gray) e dep_on enough s on =
        from_first-IsCycle graph path node dep walk dep_on (on dep e)
    visit_dep-Ends dep d (some black) e dep_on enough s on = (s, Onward-refl d, (e, tt))

    visit_deps-Ends :
        (deps : List String) (d : Dict Color)
        → ((b : String) → elem b deps ≡ true → Depends graph node b)
        → white_count d < fuel
        → IsSound graph d
        → OnPath (path ++ node ∷ []) d
        → Ends graph d deps (visit_deps go (path ++ node ∷ []) deps d)
    unfolding visit_deps
    visit_deps-Ends [] d below enough s on = (s, Onward-refl d, tt)
    visit_deps-Ends (dep ∷ deps) d below enough s on =
        go_on (visit_dep go (path ++ node ∷ []) d dep (get d dep))
          (visit_dep-Ends dep d (get d dep) refl (below dep (rw (eq_refl dep) refl)) enough s on)
          (λ e. visit_deps-Ends deps e (λ b h. below b (ground (arith, h))))
      where
        after :
            (e : Dict Color)
            → Onward d e
            → get e dep ≡ some black
            → (r : Search) → Ends graph e deps r
            → Ends graph d (dep ∷ deps) r
        after e onward black_dep (raised (circular c)) h = h
        after e onward black_dep (raised x) h = absurd h
        after e onward black_dep (done f) (sound, onward', blacks) =
            (sound, Onward-trans d e f onward onward', (onward'.black_stays dep black_dep, blacks))

        go_on :
            (r : Search)
            → Ends graph d (dep ∷ []) r
            → ((e : Dict Color)
                → white_count e < fuel
                → IsSound graph e
                → OnPath (path ++ node ∷ []) e
                → Ends graph e deps (visit_deps go (path ++ node ∷ []) deps e))
            → Ends graph d
                (dep ∷ deps)
                (elim r [ raised x ↦ raised x | done e ↦ visit_deps go (path ++ node ∷ []) deps e ])
        go_on (raised (circular c)) h later = h
        go_on (raised x) h later = absurd h
        go_on (done e) (sound, onward, (black_dep, _)) later =
            after e onward black_dep (visit_deps go (path ++ node ∷ []) deps e) (
              later e (omega (arith, enough, onward.no_whiter)) sound
                (λ a g. on a (onward.gray_stays a g)))

  -- A search with fuel for each white task and one more, from a white task at the end of a path that
  -- holds every gray one, ends with that task black, or with a cycle.
  pub dfs-Ends :
      (fuel : ℕ) (path : List String) (node : String) (d : Dict Color)
      → white_count d < fuel
      → IsSound graph d
      → OnPath path d
      → IsWalk graph (path ++ node ∷ [])
      → get d node ≡ some white
      → Ends graph d (node ∷ []) (dfs graph fuel path node d)
  unfolding dfs
  dfs-Ends zero path node d enough s on walk fresh = absurd (omega (arith, enough))
  dfs-Ends (suc fuel) path node d enough s on walk fresh = elim (Option-cases (get graph node)) [
    | inl e ↦ absurd (no_task (sym (ap is_some e) ∙ (sym (s.known node) ∙ ap is_some fresh)))
    | inr (deps, e) ↦
        let inner = put d node gray in
        rw (e, dfs)
          (leave deps e
            (visit_deps (λ dep c. dfs graph fuel (path ++ node ∷ []) dep c) (path ++ node ∷ []) deps
              inner)
            (visit_deps-Ends fuel path node (λ dep c. dfs graph fuel (path ++ node ∷ []) dep c)
              (λ dep c dep_on more s' on' white_dep.
                dfs-Ends fuel (path ++ node ∷ []) dep c more s' on'
                  (IsWalk-snoc graph path node dep walk dep_on) white_dep)
              walk deps inner (λ b h. (deps, e, h))
              (omega (arith, enough, white_count-put_white d node gray fresh refl))
              (IsSound-gray graph d node s fresh) (OnPath-gray path d node on)))
  ]
    where
      no_task : ¬ (false ≡ true)
      no_task e = cc e

      leave :
          (deps : List String)
          → get graph node ≡ some deps
          → (r : Search) → Ends graph (put d node gray) deps r
          → Ends graph d (node ∷ []) (blacken node r)
      leave deps e (raised (circular c)) h = h
      leave deps e (raised x) h = absurd h
      leave deps e (done c) (sound, onward, blacks) = (
        IsSound-black graph c node sound (sound.known node ∙ ap is_some e)
            (λ b dep. black_of c deps b blacks (in_deps graph node b deps e dep)),
        Onward-node d c node fresh onward,
        (get-put_self c node black, tt),
      )
