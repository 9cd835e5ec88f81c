-- ===== src/Prelude/Text.antt =====
-- Texts as lists of code points, for the code that looks inside a text.
use Prim.Native.Nat.{ℕ, zero, suc, ◌+◌, ◌-◌, ◌*◌, ◌/◌, ◌%◌, ◌^◌}
use Prim.Native.Char.{code}
use Prim.Native.String.{String, ◌++◌}
use mathlib.Core.Bool.{Bool, true, false, ◌&&◌, ◌||◌}
use mathlib.Core.Option.{Option, none, some}
use mathlib.Core.List.{List, [], ◌∷◌}
use hibernator.Prelude.Tests.{ltb, leb, eqb, if◌then◌else◌}
use hibernator.Prelude.Lists.{get_elem?}
use hibernator.Prelude.Int.{ℤ, pos, sub_ℕ}

abbrev pub codes : String → List ℕ
codes String.[] = []
codes (String.◌∷◌ first rest) = code first ∷ codes rest

-- `unicode.ToLower` and `unicode.ToUpper` as far as ASCII letters go: on those, and on the two
-- letters outside ASCII whose lower case, and the two whose upper case, is an ASCII letter.
abbrev pub to_lower : ℕ → ℕ
to_lower c =
    if leb 65 c && leb c 90
    then c + 32
    else if eqb c 0x130
    then 105
    else if eqb c 0x212A
    then 107
    else c

-- `strings.HasPrefix` and `strings.Contains`.
unfoldable pub has_prefix : List ℕ → List ℕ → Bool
has_prefix s [] = true
has_prefix [] (p ∷ ps) = false
has_prefix (c ∷ s) (p ∷ ps) = eqb c p && has_prefix s ps

unfoldable pub contains : List ℕ → List ℕ → Bool
unfolding has_prefix
contains [] p = has_prefix [] p
contains (c ∷ s) p = has_prefix (c ∷ s) p || contains s p

abbrev strip : String → String → Option String
strip s String.[] = some s
strip String.[] (String.◌∷◌ d p) = none
strip (String.◌∷◌ c s) (String.◌∷◌ d p) = if eqb (code c) (code d) then strip s p else none

-- `strings.TrimPrefix`.
unfoldable pub trim_prefix : String → String → String
trim_prefix s p = elim (strip s p) [ none ↦ s | some rest ↦ rest ]

-- `a + b` on texts.
abbrev pub join : String → String → String
join a b = a ++ b

-- `unicode.ToUpper`, likewise.
abbrev pub to_upper : ℕ → ℕ
to_upper c =
    if leb 97 c && leb c 122
    then c - 32
    else if eqb c 0x131
    then 73
    else if eqb c 0x17F
    then 83
    else c

-- The lower-case representative of a letter that `strings.EqualFold` takes for an ASCII letter;
-- exact where one of the two texts is ASCII.
abbrev pub fold_case : ℕ → ℕ
fold_case c =
    if leb 65 c && leb c 90
    then c + 32
    else if eqb c 0x212A
    then 107
    else if eqb c 0x17F
    then 115
    else c

-- Equality of the images of two texts under a map of letters.
unfoldable pub equal_by : (ℕ → ℕ) → List ℕ → List ℕ → Bool
equal_by f [] [] = true
equal_by f (c ∷ cs) (d ∷ ds) = eqb (f c) (f d) && equal_by f cs ds
equal_by f _ _ = false

-- `strings.EqualFold`.
abbrev pub equal_fold : String → String → Bool
equal_fold s t = equal_by fold_case (codes s) (codes t)

-- `strings.Split` at a letter.
abbrev put_first : ℕ → List (List ℕ) → List (List ℕ)
put_first c [] = (c ∷ []) ∷ []
put_first c (part ∷ parts) = (c ∷ part) ∷ parts

unfoldable pub split : ℕ → List ℕ → List (List ℕ)
split separator [] = [] ∷ []
split separator (c ∷ cs) =
    let rest = split separator cs in if eqb c separator then [] ∷ rest else put_first c rest

-- `strconv.Atoi`: an optional sign, at least one digit, and no overflow of 64 bits.
unfoldable pub digits_from : ℕ → List ℕ → Option ℕ
digits_from n [] = some n
digits_from n (c ∷ cs) =
    let rest = digits_from (n * 10 + (c - 48)) cs in if leb 48 c && leb c 57 then rest else none

unfoldable pub digits : List ℕ → Option ℕ
unfolding digits_from
digits [] = none
digits (c ∷ cs) = digits_from 0 (c ∷ cs)

abbrev plus_sign : Option ℕ → Option ℤ
plus_sign none = none
plus_sign (some n) = if ltb n (2 ^ 63) then some (pos n) else none

abbrev minus_sign : Option ℕ → Option ℤ
minus_sign none = none
minus_sign (some n) = if leb n (2 ^ 63) then some (sub_ℕ 0 n) else none

unfoldable pub atoi : List ℕ → Option ℤ
unfolding digits
atoi [] = none
atoi (c ∷ cs) =
    if eqb c 43
    then plus_sign (digits cs)
    else if eqb c 45
    then minus_sign (digits cs)
    else plus_sign (digits (c ∷ cs))

-- `%d` of a number below 100, and `strings.Join` with a comma.
abbrev numerals : List String
numerals = "0" ∷ "1" ∷ "2" ∷ "3" ∷ "4" ∷ "5" ∷ "6" ∷ "7" ∷ "8" ∷ "9" ∷ []

abbrev digit : ℕ → String
digit n = elim (get_elem? numerals n) [ some text ↦ text | none ↦ "" ]

unfoldable pub show_small : ℕ → String
show_small n = if ltb n 10 then digit n else digit (n / 10) ++ digit (n % 10)

unfoldable pub join_comma : List String → String
join_comma [] = ""
join_comma (s ∷ []) = s
join_comma (s ∷ t ∷ rest) = s ++ "," ++ join_comma (t ∷ rest)

-- `%d` of a number of at most twenty digits.
unfoldable pub show_digits : ℕ → ℕ → String
show_digits zero n = ""
show_digits (suc places) n =
    let rest = show_digits places (n / 10) in if ltb n 10 then digit n else rest ++ digit (n % 10)

abbrev pub show : ℕ → String
show n = show_digits 20 n
