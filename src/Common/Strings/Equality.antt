-- ===== src/Common/Strings/Equality.antt =====
-- Texts: literals, equality, prefixes, substrings, splitting, lower case and decimal numerals.
use Prim.Native.Char.{code}
use Prim.Native.String.{String}
use Prim.Native.Nat.{ℕ, zero, suc, ◌+◌, ◌/◌, ◌%◌}
use mathlib.Core.Path.{◌≡◌, refl}
use mathlib.Core.Logic.{◌↔◌}
use mathlib.Core.Bool.{Bool, true, false, ◌&&◌, ◌||◌}
use mathlib.Core.List.{List, [], ◌∷◌, ◌++◌}
use mathlib.Core.Option.{Option, none, some}
use native.Mathlib.Omega.{arith}
use etcd_infra.Common.Tests.{leb, ◌==◌, if◌then◌else◌}
use etcd_infra.Common.Lists.{is_empty}

abbrev pub Text : Type 0
Text = List ℕ

abbrev pub codes : String → Text
codes String.[] = []
codes (String.◌∷◌ c s) = code c ∷ codes s

unfoldable pub text_eq : Text → Text → Bool
text_eq [] [] = true
text_eq [] (d ∷ t) = false
text_eq (c ∷ s) [] = false
text_eq (c ∷ s) (d ∷ t) = (c == d) && text_eq s t

pub text_eq_iff : (s t : Text) → (text_eq s t ≡ true) ↔ (s ≡ t)
unfolding text_eq
text_eq_iff [] [] = ground arith
text_eq_iff [] (d ∷ t) = ground arith
text_eq_iff (c ∷ s) [] = ground arith
text_eq_iff (c ∷ s) (d ∷ t) = ground (arith, text_eq_iff s t)

pub text_eq_refl : (s : Text) → text_eq s s ≡ true
text_eq_refl s = (text_eq_iff s s).1 refl

-- strings.HasPrefix
unfoldable pub has_prefix : Text → Text → Bool
has_prefix s [] = true
has_prefix [] (p ∷ ps) = false
has_prefix (c ∷ s) (p ∷ ps) = (c == p) && has_prefix s ps

-- strings.Contains
unfoldable pub contains : Text → Text → Bool
unfolding has_prefix
contains [] sub = has_prefix [] sub
contains (c ∷ s) sub = has_prefix (c ∷ s) sub || contains s sub

-- strings.TrimPrefix, for a prefix of one character
unfoldable pub trim_prefix : Text → ℕ → Text
trim_prefix [] p = []
trim_prefix (c ∷ s) p = if c == p then s else c ∷ s

abbrev pub cons_part : ℕ → List Text → List Text
cons_part c [] = (c ∷ []) ∷ []
cons_part c (p ∷ ps) = (c ∷ p) ∷ ps

-- strings.Split by a separator of one character
unfoldable pub split : Text → ℕ → List Text
split [] sep = [] ∷ []
split (c ∷ s) sep = let rest = split s sep in if c == sep then [] ∷ rest else cons_part c rest

-- strings.Join
unfoldable pub join : List Text → Text → Text
join [] sep = []
join (s ∷ []) sep = s
join (s ∷ t ∷ ts) sep = s ++ (sep ++ join (t ∷ ts) sep)

-- strings.Cut by a separator of one character: what stands before it, and `none` without it
unfoldable pub cut_before : Text → ℕ → Option Text
cut_before [] sep = none
cut_before (c ∷ s) sep =
    let rest = cut_before s sep in
    if c == sep then some [] else elim rest [ none ↦ none | some p ↦ some (c ∷ p) ]

-- strings.ToLower on ASCII letters, and on the two other characters whose lower case is ASCII (the
-- dotted capital I and the Kelvin sign); no other character becomes ASCII.
unfoldable pub lower_char : ℕ → ℕ
lower_char c =
    if leb b'A' c && leb c b'Z'
    then c + 32
    else if c == 0x130
    then b'i'
    else if c == 0x212A
    then b'k'
    else c

unfoldable pub to_lower : Text → Text
unfolding lower_char
to_lower [] = []
to_lower (c ∷ s) = lower_char c ∷ to_lower s

digits_onto : ℕ → ℕ → Text → Text
digits_onto zero n acc = acc
digits_onto (suc fuel) n acc =
    let acc' = (n % 10 + 48) ∷ acc in
    let rest = digits_onto fuel (n / 10) acc' in if n / 10 == 0 then acc' else rest

-- strconv.Itoa on a number that is not negative; the fuel exceeds the number of digits.
unfoldable pub itoa : ℕ → Text
unfolding digits_onto
itoa n = digits_onto (suc n) n []

digits_onto-is_empty :
    (fuel n : ℕ) (acc : Text) → is_empty acc ≡ false → is_empty (digits_onto fuel n acc) ≡ false
unfolding digits_onto
digits_onto-is_empty zero n acc h = h
digits_onto-is_empty (suc fuel) n acc h =
    ground (arith, digits_onto-is_empty fuel (n / 10) ((n % 10 + 48) ∷ acc) refl)

pub itoa-is_empty : (n : ℕ) → is_empty (itoa n) ≡ false
unfolding itoa digits_onto
itoa-is_empty n = ground (arith, digits_onto-is_empty n (n / 10) ((n % 10 + 48) ∷ []) refl)

itoa_test : itoa 2379 ≡ codes "2379"
unfolding itoa
itoa_test = refl

contains_test : contains (codes "GET_WITH_FROM_KEY") (codes "FROM_KEY") ≡ true
unfolding contains
contains_test = refl

split_test : split (codes "a,,b") b',' ≡ codes "a" ∷ [] ∷ codes "b" ∷ []
unfolding split
split_test = refl
