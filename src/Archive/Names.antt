-- ===== src/Archive/Names.antt =====
-- extract_safety.go: the elements of a name that passes.
use mathlib.Core.List.{reverse, reverse-append}
use etcd_infra.Common.{
  ◌≡◌, refl, sym, subst, ap, ◌∙◌, ◌⊎◌, inl, inr, Bool, true, false, ◌||◌, List, [], ◌∷◌, ◌++◌,
  if◌then◌else◌, is_empty, All, Text, codes, text_eq, has_prefix, trim_space,
}
use etcd_infra.Archive.{contains_nul, empty_name, absolute_path, path_traversal, checked_name}
use etcd_infra.Archive.Paths.{dot, dotdot, is_abs, elements, render, clean}
use etcd_infra.Archive.Paths.Parts.{IsSafe}
use etcd_infra.Archive.Paths.Cleaned.{AllDots, Stack, path_of, elements-Stack}
use etcd_infra.Archive.Walk.{true-ne-false}

-- The elements of a relative path are all safe, or the first of them leads up.
pub Stack-cases :
    (stack : List Text)
    → Stack false stack
    → All IsSafe stack ⊎ ((init : List Text) × (stack ≡ init ++ dotdot ∷ []))
Stack-cases [] h = inl tt
Stack-cases (s ∷ stack) (inl (safe, h)) = elim (Stack-cases stack h) [
  | inl all ↦ inl (safe, all)
  | inr (init, e) ↦ inr (s ∷ init, ap (◌∷◌ s) e)
]
Stack-cases (s ∷ stack) (inr (r, h)) = inr (bottom s stack h)
  where
    bottom :
        (s : Text) (stack : List Text)
        → AllDots (s ∷ stack)
        → (init : List Text) × (s ∷ stack ≡ init ++ dotdot ∷ [])
    bottom s [] h = ([], ap (λ t. t ∷ []) h.0)
    bottom s (t ∷ stack) h = let (init, e) = bottom t stack h.1 in (s ∷ init, ap (◌∷◌ s) e)

abbrev pub climbs_out : Text → Bool
climbs_out name = text_eq name dotdot || has_prefix name (dotdot ++ codes "/")

render-dotdot : (parts : List Text) → climbs_out (render false (dotdot ∷ parts)) ≡ true
unfolding render text_eq has_prefix
render-dotdot [] = refl
render-dotdot (s ∷ parts) = refl

pub path_of-dotdot : (init : List Text) → climbs_out (path_of false (init ++ dotdot ∷ [])) ≡ true
path_of-dotdot init =
    ap (λ l. climbs_out (render false l)) (reverse-append init (dotdot ∷ []))
    ∙ render-dotdot (reverse init)

pub path_of-IsSafe :
    (stack : List Text)
    → Stack false stack
    → climbs_out (path_of false stack) ≡ false
    → All IsSafe stack
path_of-IsSafe stack h out = elim (Stack-cases stack h) [
  | inl safe ↦ safe
  | inr (init, e) ↦
      absurd (true-ne-false (ap (λ st. climbs_out (path_of false st)) e ∙ path_of-dotdot init) out)
]

-- The tests of the name, one after the other
name_passed :
    (b b' a a' c : Bool) (t : Text) {name : Text}
    → (if b
        then inl empty_name
        else if b'
        then inl path_traversal
        else if a || a'
        then inl absolute_path
        else if c
        then inl path_traversal
        else inr t)
      ≡ inr name
    → (a ≡ false) × (c ≡ false) × (t ≡ name)
name_passed true b' a a' c t h = absurd (cc)
name_passed false true a a' c t h = absurd (cc)
name_passed false false true a' c t h = absurd (cc)
name_passed false false false true c t h = absurd (cc)
name_passed false false false false true t h = absurd (cc)
name_passed false false false false false t h = (refl, refl, cc)

pub clean-relative :
    (path : Text) → is_abs path ≡ false → clean path ≡ path_of false (elements path)
unfolding clean
clean-relative path h = ap (λ r. render r (reverse (elements path))) h

-- The name of an entry, once it has passed
pub checked_name-IsSafe :
    (entry name : Text)
    → checked_name entry ≡ inr name
    → (above : List Text) × All IsSafe above × (name ≡ path_of false above)
unfolding checked_name
checked_name-IsSafe entry name ok =
    let t = trim_space entry in
    let (relative, inside, same) =
      name_passed (is_empty t || text_eq t dot) (contains_nul t) (is_abs t) (is_abs (clean t))
        (climbs_out (clean t)) (clean t) ok in
    let at = clean-relative t relative in
    let stack = subst (λ r. Stack r (elements t)) relative (elements-Stack t) in
    (
      elements t,
      path_of-IsSafe (elements t) stack (subst (λ n. climbs_out n ≡ false) at inside),
      sym same ∙ at,
    )
