-- ===== src/Common/Lists.antt =====
-- Lists measured by native numbers, Boolean quantifiers, and predicates by recursion.
use Prim.Native.Nat.{ℕ, zero, suc, ◌+◌, ◌≤◌, ◌<◌}
use Prim.Native.String.{String}
use mathlib.Core.Path.{◌≡◌, refl, subst}
use mathlib.Core.Option.{Option, none, some}
use mathlib.Core.Bool.{Bool, true, false, ◌&&◌, ◌||◌}
use mathlib.Core.List.{List, [], ◌∷◌, ◌++◌, map}
use native.Mathlib.Omega.{arith}
use text.Mathlib.Text.{◌==◌}
use scripthut.Common.Tests.{if◌then◌else◌}

module _ {ℓ} {A : Type ℓ} where
  abbrev pub length : List A → ℕ
  length [] = 0
  length (x ∷ xs) = suc (length xs)

  abbrev pub get_elem? : List A → ℕ → Option A
  get_elem? [] i = none
  get_elem? (x ∷ xs) zero = some x
  get_elem? (x ∷ xs) (suc i) = get_elem? xs i

  abbrev pub set : List A → ℕ → A → List A
  set [] i v = []
  set (x ∷ xs) zero v = v ∷ xs
  set (x ∷ xs) (suc i) v = x ∷ set xs i v

  abbrev pub take : ℕ → List A → List A
  take zero xs = []
  take (suc n) [] = []
  take (suc n) (x ∷ xs) = x ∷ take n xs

  -- `any(p(x) for x in xs)`
  abbrev pub any : (A → Bool) → List A → Bool
  any p [] = false
  any p (x ∷ xs) = p x || any p xs

  -- `all(p(x) for x in xs)`
  abbrev pub all : (A → Bool) → List A → Bool
  all p [] = true
  all p (x ∷ xs) = p x && all p xs

  -- `[x for x in xs if p(x)]`
  abbrev pub keep : (A → Bool) → List A → List A
  keep p [] = []
  keep p (x ∷ xs) = let rest = keep p xs in if p x then x ∷ rest else rest

  -- `sum(1 for x in xs if p(x))`
  abbrev pub count : (A → Bool) → List A → ℕ
  count p [] = 0
  count p (x ∷ xs) = (if p x then 1 else 0) + count p xs

  -- `P` holds of each element.
  abbrev pub All {κ} : (A → Type κ) → List A → Type κ
  All P [] = Unit
  All P (x ∷ xs) = P x × All P xs

  pub keep-All : (p : A → Bool) (xs : List A) → All (λ x. p x ≡ true) (keep p xs)
  keep-All p [] = tt
  keep-All p (x ∷ xs) = ground (arith, keep-All p xs)

  pub length-append : (xs ys : List A) → length (xs ++ ys) ≡ length xs + length ys
  length-append [] ys = omega arith
  length-append (x ∷ xs) ys = omega (arith, length-append xs ys)

  pub count-append : (p : A → Bool) (xs ys : List A) → count p (xs ++ ys) ≡ count p xs + count p ys
  count-append p [] ys = omega arith
  count-append p (x ∷ xs) ys = omega (arith, count-append p xs ys)

  pub count-le-length : (p : A → Bool) (xs : List A) → count p xs ≤ length xs
  count-le-length p [] = omega arith
  count-le-length p (x ∷ xs) = ground (arith, count-le-length p xs)

  pub length-take-le : (n : ℕ) (xs : List A) → length (take n xs) ≤ n
  length-take-le zero xs = omega arith
  length-take-le (suc n) [] = omega arith
  length-take-le (suc n) (x ∷ xs) = omega (arith, length-take-le n xs)

  pub All-take {κ} : (P : A → Type κ) (n : ℕ) (xs : List A) → All P xs → All P (take n xs)
  All-take P zero xs h = tt
  All-take P (suc n) [] h = tt
  All-take P (suc n) (x ∷ xs) h = (h.0, All-take P n xs h.1)

  pub All-append {κ} : (P : A → Type κ) (xs ys : List A) → All P xs → All P ys → All P (xs ++ ys)
  All-append P [] ys h k = k
  All-append P (x ∷ xs) ys h k = (h.0, All-append P xs ys h.1 k)

  pub All-left {κ} : (P : A → Type κ) (xs ys : List A) → All P (xs ++ ys) → All P xs
  All-left P [] ys h = tt
  All-left P (x ∷ xs) ys h = (h.0, All-left P xs ys h.1)

  pub All-right {κ} : (P : A → Type κ) (xs ys : List A) → All P (xs ++ ys) → All P ys
  All-right P [] ys h = h
  All-right P (x ∷ xs) ys h = All-right P xs ys h.1

  pub length-set : (xs : List A) (k : ℕ) (v : A) → length (set xs k v) ≡ length xs
  length-set [] k v = refl
  length-set (x ∷ xs) zero v = refl
  length-set (x ∷ xs) (suc k) v = omega (arith, length-set xs k v)

  pub get_elem?-some_lt : (xs : List A) (k : ℕ) (b : A) → get_elem? xs k ≡ some b → k < length xs
  get_elem?-some_lt [] k b e = cc e
  get_elem?-some_lt (x ∷ xs) zero b e = omega arith
  get_elem?-some_lt (x ∷ xs) (suc k) b e = omega (arith, get_elem?-some_lt xs k b e)

  pub get_elem?-none_ge : (xs : List A) (k : ℕ) → get_elem? xs k ≡ none → length xs ≤ k
  get_elem?-none_ge [] k e = omega arith
  get_elem?-none_ge (x ∷ xs) zero e = cc e
  get_elem?-none_ge (x ∷ xs) (suc k) e = omega (arith, get_elem?-none_ge xs k e)

  -- What holds at each place holds of each element.
  pub All-places {κ} :
      (P : A → Type κ) (xs : List A) → ((j : ℕ) (x : A) → get_elem? xs j ≡ some x → P x) → All P xs
  All-places P [] h = tt
  All-places P (x ∷ xs) h = (h 0 x refl, All-places P xs (λ j. h (suc j)))

  -- What is stored is read back, and the places before it are as they were.
  pub get_elem?-set_self :
      (xs : List A) (k : ℕ) (b v : A) → get_elem? xs k ≡ some b → get_elem? (set xs k v) k ≡ some v
  get_elem?-set_self [] k b v e = cc e
  get_elem?-set_self (x ∷ xs) zero b v e = refl
  get_elem?-set_self (x ∷ xs) (suc k) b v e = get_elem?-set_self xs k b v e

  pub get_elem?-set_before :
      (xs : List A) (k j : ℕ) (v : A) → j < k → get_elem? (set xs k v) j ≡ get_elem? xs j
  get_elem?-set_before [] k j v h = refl
  get_elem?-set_before (x ∷ xs) zero j v h = absurd (omega (arith, h))
  get_elem?-set_before (x ∷ xs) (suc k) zero v h = refl
  get_elem?-set_before (x ∷ xs) (suc k) (suc j) v h =
      get_elem?-set_before xs k j v (omega (arith, h))

  pub count-set-le :
      (p : A → Bool) (xs : List A) (k : ℕ) (v : A) → count p (set xs k v) ≤ count p xs + 1
  count-set-le p [] k v = omega arith
  count-set-le p (x ∷ xs) zero v = ground arith
  count-set-le p (x ∷ xs) (suc k) v = ground (arith, count-set-le p xs k v)

  pub count-set-same :
      (p : A → Bool) (xs : List A) (k : ℕ) (b v : A)
      → get_elem? xs k ≡ some b
      → p v ≡ p b
      → count p (set xs k v) ≡ count p xs
  count-set-same p [] k b v e h = refl
  count-set-same p (x ∷ xs) zero b v e h = ground arith
  count-set-same p (x ∷ xs) (suc k) b v e h = ground (arith, count-set-same p xs k b v e h)

  pub count-set-no_more :
      (p : A → Bool) (xs : List A) (k : ℕ) (b v : A)
      → get_elem? xs k ≡ some b
      → (p v ≡ true → p b ≡ true)
      → count p (set xs k v) ≤ count p xs
  count-set-no_more p [] k b v e h = omega arith
  count-set-no_more p (x ∷ xs) zero b v e h = ground arith
  count-set-no_more p (x ∷ xs) (suc k) b v e h = ground (arith, count-set-no_more p xs k b v e h)

  pub count-map-le :
      (p : A → Bool) (f : A → A)
      → ((x : A) → p (f x) ≡ true → p x ≡ true)
      → (xs : List A) → count p (map f xs) ≤ count p xs
  count-map-le p f h [] = omega arith
  count-map-le p f h (x ∷ xs) = ground (arith, h x, count-map-le p f h xs)

  pub All-set {κ} :
      (P : A → Type κ) (xs : List A) (k : ℕ) (v : A) → P v → All P xs → All P (set xs k v)
  All-set P [] k v p h = tt
  All-set P (x ∷ xs) zero v p h = (p, h.1)
  All-set P (x ∷ xs) (suc k) v p h = (h.0, All-set P xs k v p h.1)

  pub All-at {κ} :
      (P : A → Type κ) (xs : List A) (k : ℕ) (b : A) → get_elem? xs k ≡ some b → All P xs → P b
  All-at P [] k b e h = cc e
  All-at P (x ∷ xs) zero b e h = subst (λ o. elim o [ none ↦ P b | some y ↦ P y ]) e h.0
  All-at P (x ∷ xs) (suc k) b e h = All-at P xs k b e h.1

-- Two lists of one length, related element by element.
abbrev pub Pointwise {ℓ} : {A : Type ℓ} → (A → A → Type 0) → List A → List A → Type 0
Pointwise R [] [] = Unit
Pointwise R [] (y ∷ ys) = ⊥
Pointwise R (x ∷ xs) [] = ⊥
Pointwise R (x ∷ xs) (y ∷ ys) = R x y × Pointwise R xs ys

module _ {ℓ} {A : Type ℓ} (R : A → A → Type 0) where
  pub Pointwise-refl : ((x : A) → R x x) → (xs : List A) → Pointwise R xs xs
  Pointwise-refl r [] = tt
  Pointwise-refl r (x ∷ xs) = (r x, Pointwise-refl r xs)

  pub Pointwise-trans :
      ((x y z : A) → R x y → R y z → R x z)
      → (xs ys zs : List A) → Pointwise R xs ys
      → Pointwise R ys zs
      → Pointwise R xs zs
  Pointwise-trans t [] [] zs h k = k
  Pointwise-trans t [] (y ∷ ys) zs h k = elim h [ ]
  Pointwise-trans t (x ∷ xs) [] zs h k = elim h [ ]
  Pointwise-trans t (x ∷ xs) (y ∷ ys) [] h k = k
  Pointwise-trans t (x ∷ xs) (y ∷ ys) (z ∷ zs) h k =
      (t x y z h.0 k.0, Pointwise-trans t xs ys zs h.1 k.1)

  -- One element in the middle is exchanged.
  pub Pointwise-middle :
      ((x : A) → R x x)
      → (xs : List A) (y z : A) (ys : List A) → R y z
      → Pointwise R (xs ++ y ∷ ys) (xs ++ z ∷ ys)
  Pointwise-middle r [] y z ys h = (h, Pointwise-refl r ys)
  Pointwise-middle r (x ∷ xs) y z ys h = (r x, Pointwise-middle r xs y z ys h)

  -- What holds of related elements holds all along.
  pub All-Pointwise {μ ν} :
      (P : A → Type μ) (Q : A → Type ν)
      → ((x y : A) → R x y → P x → Q y)
      → (xs ys : List A) → Pointwise R xs ys
      → All P xs
      → All Q ys
  All-Pointwise P Q f [] [] h p = tt
  All-Pointwise P Q f [] (y ∷ ys) h p = elim h [ ]
  All-Pointwise P Q f (x ∷ xs) [] h p = elim h [ ]
  All-Pointwise P Q f (x ∷ xs) (y ∷ ys) h p = (f x y h.0 p.0, All-Pointwise P Q f xs ys h.1 p.1)

-- `x in xs`, on texts.
abbrev pub elem : String → List String → Bool
elem x [] = false
elem x (y ∷ ys) = (x == y) || elem x ys

-- No text occurs twice.
abbrev pub IsDistinct : List String → Type 0
IsDistinct [] = Unit
IsDistinct (x ∷ xs) = (elem x xs ≡ false) × IsDistinct xs
