-- ===== src/Common/Strings/Trim.antt =====
-- strings.TrimSpace, which removes the characters that `unicode.IsSpace` accepts at both ends.
use Prim.Native.Nat.{ℕ}
use mathlib.Core.Path.{◌≡◌, refl, ap}
use mathlib.Core.Bool.{Bool, true, false, ◌&&◌, ◌||◌}
use mathlib.Core.List.{[], ◌∷◌}
use native.Mathlib.Omega.{arith}
use etcd_infra.Common.Tests.{leb, ◌==◌, if◌then◌else◌}
use etcd_infra.Common.Strings.Equality.{Text, codes}

-- unicode.IsSpace: the Latin-1 spaces, and those of the White_Space property above them
unfoldable pub is_space : ℕ → Bool
is_space c =
    (leb 9 c && leb c 13)
    || (c == 32)
    || (c == 0x85)
    || (c == 0xA0)
    || (c == 0x1680)
    || (leb 0x2000 c && leb c 0x200A)
    || (c == 0x2028)
    || (c == 0x2029)
    || (c == 0x202F)
    || (c == 0x205F)
    || (c == 0x3000)

unfoldable pub trim_left : Text → Text
trim_left [] = []
trim_left (c ∷ s) = let rest = trim_left s in if is_space c then rest else c ∷ s

abbrev trim_onto : ℕ → Text → Text
trim_onto c [] = if is_space c then [] else c ∷ []
trim_onto c (d ∷ s) = c ∷ d ∷ s

unfoldable pub trim_right : Text → Text
trim_right [] = []
trim_right (c ∷ s) = trim_onto c (trim_right s)

unfoldable pub trim_space : Text → Text
unfolding is_space trim_left trim_right
trim_space s = trim_right (trim_left s)

trim_onto_idem : (c : ℕ) (s : Text) → trim_right s ≡ s → trim_right (trim_onto c s) ≡ trim_onto c s
unfolding trim_right
trim_onto_idem c [] h = ground arith
trim_onto_idem c (d ∷ s) h = ap (trim_onto c) h

trim_right_idem : (s : Text) → trim_right (trim_right s) ≡ trim_right s
unfolding trim_right
trim_right_idem [] = refl
trim_right_idem (c ∷ s) = trim_onto_idem c (trim_right s) (trim_right_idem s)

-- A text whose first character, if it has one, is no space.
abbrev starts_solid : Text → Bool
starts_solid [] = true
starts_solid (c ∷ s) = if is_space c then false else true

trim_left-solid : (s : Text) → starts_solid (trim_left s) ≡ true
unfolding trim_left
trim_left-solid [] = refl
trim_left-solid (c ∷ s) = ground (arith, trim_left-solid s)

trim_left_of_solid : (s : Text) → starts_solid s ≡ true → trim_left s ≡ s
unfolding trim_left
trim_left_of_solid [] h = refl
trim_left_of_solid (c ∷ s) h = ground arith

trim_onto-solid :
    (c : ℕ) (s t : Text) → starts_solid (c ∷ s) ≡ true → starts_solid (trim_onto c t) ≡ true
trim_onto-solid c s [] h = ground arith
trim_onto-solid c s (d ∷ t) h = h

trim_right-solid : (s : Text) → starts_solid s ≡ true → starts_solid (trim_right s) ≡ true
unfolding trim_right
trim_right-solid [] h = refl
trim_right-solid (c ∷ s) h = trim_onto-solid c s (trim_right s) h

pub trim_space_idem : (s : Text) → trim_space (trim_space s) ≡ trim_space s
trim_space_idem s =
    let solid = trim_right-solid (trim_left s) (trim_left-solid s) in
    unfold trim_space in
    rw (trim_left_of_solid (trim_right (trim_left s)) solid) (trim_right_idem (trim_left s))

trim_test : trim_space (codes "  a b ") ≡ codes "a b"
unfolding trim_space
trim_test = refl
