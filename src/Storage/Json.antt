-- ===== src/Storage/Json.antt =====
-- JSON values, and how the code reads them. Python checks no types here: a value of a type that the
-- dataclass does not declare is `none` in the model, as an exception is.
use scripthut.Common.{
  inl, inr, Bool-cases, truthy, ℕ, zero, suc, String, ◌≡◌, refl, ap, ◌∙◌, Bool, true, false, not,
  Option, none, some, List, [], ◌∷◌, map, if◌then◌else◌, ◌==◌,
}
use scripthut.Common.Dict.{Dict}

mutual
  pub data Json : Type 0 where
    null : Json
    bool : Bool → Json
    num : ℕ → Json
    float : ℕ → Json
    str : String → Json
    array : Items → Json
    object : Fields → Json

  pub data Items : Type 0 where
    no_items : Items
    item : Json → Items → Items

  pub data Fields : Type 0 where
    no_fields : Fields
    field : String → Json → Fields → Fields

-- Options chain as calls that may raise.
infixl 1 ◌>>=◌
unfoldable pub ◌>>=◌ {ℓ κ} : {A : Type ℓ} {B : Type κ} → Option A → (A → Option B) → Option B
none >>= f = none
some a >>= f = f a

pub bind_some {ℓ κ} :
    {A : Type ℓ} {B : Type κ} {o : Option A} {a : A} {r : Option B} (f : A → Option B)
    → o ≡ some a
    → f a ≡ r
    → (o >>= f) ≡ r
unfolding ◌>>=◌
bind_some f h k = ap (λ x. x >>= f) h ∙ k

-- `data.get(key)`
abbrev pub lookup : Fields → String → Option Json
lookup no_fields key = none
lookup (field k v fields) key = if k == key then some v else lookup fields key

abbrev pub to_object : Json → Option Fields
to_object (object fields) = some fields
to_object _ = none

abbrev pub to_text : Json → Option String
to_text (str s) = some s
to_text _ = none

abbrev pub to_num : Json → Option ℕ
to_num (num n) = some n
to_num _ = none

-- `bool(value)`
abbrev pub truth : Json → Bool
truth null = false
truth (bool b) = b
truth (num zero) = false
truth (num (suc n)) = true
truth (float zero) = false
truth (float (suc n)) = true
truth (str s) = not (s == "")
truth (array no_items) = false
truth (array (item v more)) = true
truth (object no_fields) = false
truth (object (field k v more)) = true

abbrev pub to_bool : Json → Option Bool
to_bool (bool b) = some b
to_bool _ = none

abbrev pub to_float : Json → Option ℕ
to_float (float n) = some n
to_float _ = none

abbrev pub to_items : Json → Option Items
to_items (array items) = some items
to_items _ = none

-- `data[key]`
abbrev pub required {ℓ} : {A : Type ℓ} → (Json → Option A) → Fields → String → Option A
required read fields key = elim (lookup fields key) [ none ↦ none | some v ↦ read v ]

-- `data.get(key, default)`
abbrev pub default {ℓ} : {A : Type ℓ} → (Json → Option A) → A → Option Json → Option A
default read d none = some d
default read d (some v) = read v

-- A value that may be `None`.
abbrev pub nullable {ℓ} : {A : Type ℓ} → (Json → Option A) → Json → Option (Option A)
nullable read null = some none
nullable read v = elim (read v) [ none ↦ none | some a ↦ some (some a) ]

-- `data.get(key)`, for a value that may be missing or `None`
abbrev pub optional {ℓ} : {A : Type ℓ} → (Json → Option A) → Option Json → Option (Option A)
optional read none = some none
optional read (some v) = nullable read v

-- `first or second`, for texts that may be missing or `None`
abbrev pub first_of : Option Json → Option Json → Option (Option String)
first_of first second = elim (optional to_text first) [
  | none ↦ none
  | some found ↦ elim (truthy found) [ none ↦ optional to_text second | some s ↦ some (some s) ]
]

-- `[read(v) for v in items]`
abbrev pub each {ℓ} : {A : Type ℓ} → (Json → Option A) → Items → Option (List A)
each read no_items = some []
each read (item v items) = elim (read v) [
  | none ↦ none
  | some a ↦ elim (each read items) [ none ↦ none | some rest ↦ some (a ∷ rest) ]
]

-- `{key: read(v) for key, v in fields.items()}`
abbrev pub each_field {ℓ} : {A : Type ℓ} → (Json → Option A) → Fields → Option (Dict A)
each_field read no_fields = some []
each_field read (field key v fields) = elim (read v) [
  | none ↦ none
  | some a ↦ elim (each_field read fields) [ none ↦ none | some rest ↦ some ((key, a) ∷ rest) ]
]

abbrev pub write_option {ℓ} : {A : Type ℓ} → (A → Json) → Option A → Json
write_option write none = null
write_option write (some a) = write a

abbrev pub write_list {ℓ} : {A : Type ℓ} → (A → Json) → List A → Items
write_list write [] = no_items
write_list write (a ∷ rest) = item (write a) (write_list write rest)

abbrev pub write_dict {ℓ} : {A : Type ℓ} → (A → Json) → Dict A → Fields
write_dict write [] = no_fields
write_dict write ((key, a) ∷ rest) = field key (write a) (write_dict write rest)

-- `kept a` is what is left of `a`, written and read.
pub each-write_list-map {ℓ} :
    {A : Type ℓ} (read : Json → Option A) (write : A → Json) (kept : A → A)
    → ((a : A) → read (write a) ≡ some (kept a))
    → (xs : List A) → each read (write_list write xs) ≡ some (map kept xs)
each-write_list-map read write kept back [] = refl
each-write_list-map read write kept back (a ∷ xs) =
    rw (back a, each-write_list-map read write kept back xs) refl

module _ {ℓ} {A : Type ℓ} (read : Json → Option A) (write : A → Json)
    (back : (a : A) → read (write a) ≡ some a) where
  pub each-write_list : (xs : List A) → each read (write_list write xs) ≡ some xs
  each-write_list [] = refl
  each-write_list (a ∷ xs) = rw (back a, each-write_list xs) refl

  pub each_field-write_dict : (d : Dict A) → each_field read (write_dict write d) ≡ some d
  each_field-write_dict [] = refl
  each_field-write_dict ((key, a) ∷ d) = rw (back a, each_field-write_dict d) refl

pub nullable-text : (o : Option String) → nullable to_text (write_option str o) ≡ some o
nullable-text none = refl
nullable-text (some s) = refl

pub nullable-num : (o : Option ℕ) → nullable to_num (write_option num o) ≡ some o
nullable-num none = refl
nullable-num (some n) = refl

pub nullable-float : (o : Option ℕ) → nullable to_float (write_option float o) ≡ some o
nullable-float none = refl
nullable-float (some n) = refl

-- Lists of texts, and dictionaries of texts.
pub each-texts : (xs : List String) → each to_text (write_list str xs) ≡ some xs
each-texts = each-write_list to_text str (λ s. refl)

abbrev pub to_text_dict : Json → Option (Dict String)
to_text_dict v = to_object v >>= each_field to_text

abbrev pub write_text_dict : Dict String → Json
write_text_dict d = object (write_dict str d)

pub nullable-text_dict :
    (o : Option (Dict String)) → nullable to_text_dict (write_option write_text_dict o) ≡ some o
unfolding ◌>>=◌
nullable-text_dict none = refl
nullable-text_dict (some d) = rw (each_field-write_dict to_text str (λ s. refl) d, nullable) refl

pub first_of-text :
    (o : Option String) → first_of (some (write_option str o)) none ≡ some (truthy o)
first_of-text none = refl
first_of-text (some s) = elim (Bool-cases (s == "")) [
  | inl e ↦ rw (first_of, e) refl
  | inr e ↦ rw (first_of, e) refl
]
