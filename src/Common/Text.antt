-- ===== src/Common/Text.antt =====
-- Python's methods on texts, as far as the program uses them.
use Prim.Native.Nat.{ℕ, zero, suc}
use Prim.Native.Char.{Char, code}
use Prim.Native.String.{String, ◌++◌ as ◌<>◌}
use mathlib.Core.Bool.{Bool, true, false, ◌&&◌, ◌||◌}
use mathlib.Core.Option.{Option, none, some}
use mathlib.Core.List.{List, [], ◌∷◌}
use text.Mathlib.Text.{◌==◌}
use scripthut.Common.Tests.{leb, ltb, eqb, if◌then◌else◌}

-- The rest of a text behind a prefix, if it has that prefix.
unfoldable pub drop_prefix : String → String → Option String
drop_prefix String.[] s = some s
drop_prefix (String.◌∷◌ c p) String.[] = none
drop_prefix (String.◌∷◌ c p) (String.◌∷◌ d s) =
    let rest = drop_prefix p s in if eqb (code c) (code d) then rest else none

-- `s.startswith(p)`
unfoldable pub starts_with : String → String → Bool
unfolding drop_prefix
starts_with s p = elim (drop_prefix p s) [ none ↦ false | some rest ↦ true ]

abbrev push : Char → List String → List String
push c [] = String.◌∷◌ c String.[] ∷ []
push c (part ∷ parts) = String.◌∷◌ c part ∷ parts

-- `s.split(c)`, for a separator of one character
unfoldable pub split : ℕ → String → List String
split sep String.[] = String.[] ∷ []
split sep (String.◌∷◌ c s) =
    let parts = split sep s in if eqb (code c) sep then String.[] ∷ parts else push c parts

-- `c.join(parts)`
abbrev pub join : String → List String → String
join sep [] = ""
join sep (p ∷ []) = p
join sep (p ∷ q ∷ ps) = p <> (sep <> join sep (q ∷ ps))

-- `s.rstrip(...)`, for the characters of a test
unfoldable pub rstrip : (ℕ → Bool) → String → String
rstrip test String.[] = String.[]
rstrip test (String.◌∷◌ c s) =
    let rest = rstrip test s in
    if (rest == "") && test (code c) then String.[] else String.◌∷◌ c rest

unfoldable pub lstrip : (ℕ → Bool) → String → String
lstrip test String.[] = String.[]
lstrip test (String.◌∷◌ c s) =
    let rest = lstrip test s in if test (code c) then rest else String.◌∷◌ c s

-- The characters that `str.strip` takes off.
abbrev pub is_space : ℕ → Bool
is_space n =
    (leb 9 n && leb n 13)
    || ((leb 28 n && leb n 32)
        || (eqb n 133
            || (eqb n 160
                || (eqb n 5760
                    || ((leb 8192 n && leb n 8202)
                        || (eqb n 8232
                            || (eqb n 8233 || (eqb n 8239 || (eqb n 8287 || eqb n 12288)))))))))

-- `s.strip()`
unfoldable pub strip : String → String
unfolding lstrip rstrip
strip s = lstrip is_space (rstrip is_space s)

-- `s[:n]`
unfoldable pub take_text : ℕ → String → String
take_text zero s = String.[]
take_text (suc n) String.[] = String.[]
take_text (suc n) (String.◌∷◌ c s) = String.◌∷◌ c (take_text n s)

-- `a <= b`, by code points
unfoldable pub text_leb : String → String → Bool
text_leb String.[] b = true
text_leb (String.◌∷◌ c a) String.[] = false
text_leb (String.◌∷◌ c a) (String.◌∷◌ d b) =
    ltb (code c) (code d) || (eqb (code c) (code d) && text_leb a b)

unfoldable pub insert_text : String → List String → List String
unfolding text_leb
insert_text a [] = a ∷ []
insert_text a (b ∷ texts) =
    let rest = insert_text a texts in if text_leb a b then a ∷ b ∷ texts else b ∷ rest

-- `sorted(texts)`
unfoldable pub sort_texts : List String → List String
unfolding insert_text
sort_texts [] = []
sort_texts (a ∷ texts) = insert_text a (sort_texts texts)

abbrev pub last_text : List String → String
last_text [] = ""
last_text (a ∷ []) = a
last_text (a ∷ b ∷ texts) = last_text (b ∷ texts)

-- `[0-9a-f]`
abbrev pub is_hex : ℕ → Bool
is_hex n = (leb 48 n && leb n 57) || (leb 97 n && leb n 102)

-- `[0-9a-f]{n}$`: `$` also matches before a newline at the end.
unfoldable pub matches_hex : ℕ → String → Bool
matches_hex zero s = (s == "") || (s == "\n")
matches_hex (suc n) String.[] = false
matches_hex (suc n) (String.◌∷◌ c s) = is_hex (code c) && matches_hex n s
