-- ===== src/Archive/Paths/Cleaned.antt =====
-- filepath.Clean and Join: the elements of what they return.
use mathlib.Core.List.{reverse, reverse-cons}
use etcd_infra.Common.{
  ◌≡◌, ◌≢◌, refl, sym, subst, ap, ◌∙◌, ◌⊎◌, inl, inr, Bool, true, false, ◌||◌, List, [], ◌∷◌, ◌++◌,
  arith, Bool-cases, ◌==◌, is_empty, All, All-imp, All-reverse, split, Text, text_eq, text_eq_iff,
  text_eq_refl,
}
use etcd_infra.Archive.Paths.{
  dot, dotdot, is_abs, climb, clean_step, clean_onto, elements, render, clean, join_path,
}
use etcd_infra.Archive.Paths.Parts.{NoSlash, IsSafe, split-NoSlash, split-append, split-join}

abbrev pub AllDots : List Text → Type 0
AllDots [] = Unit
AllDots (s ∷ stack) = (s ≡ dotdot) × AllDots stack

-- The elements of a cleaned path, the last one first: safe ones, below them (in a relative path)
-- those that lead up.
abbrev pub Stack : Bool → List Text → Type 0
Stack rooted [] = Unit
Stack rooted (s ∷ stack) =
    (IsSafe s × Stack rooted stack) ⊎ ((rooted ≡ false) × AllDots (s ∷ stack))

pub Stack-of_IsSafe : (rooted : Bool) (stack : List Text) → All IsSafe stack → Stack rooted stack
Stack-of_IsSafe rooted [] h = tt
Stack-of_IsSafe rooted (s ∷ stack) h = inl (h.0, Stack-of_IsSafe rooted stack h.1)

pub Stack-above :
    (rooted : Bool) (above stack : List Text)
    → All IsSafe above
    → Stack rooted stack
    → Stack rooted (above ++ stack)
Stack-above rooted [] stack h g = g
Stack-above rooted (s ∷ above) stack h g = inl (h.0, Stack-above rooted above stack h.1 g)

pub clean_step-safe :
    (rooted : Bool) (stack : List Text) (s : Text)
    → IsSafe s
    → clean_step rooted stack s ≡ s ∷ stack
unfolding clean_step
clean_step-safe rooted stack s h = elim (Bool-cases (text_eq s dot)) [
  | inl e ↦ absurd (h.1 ((text_eq_iff s dot).0 e))
  | inr e ↦ elim (Bool-cases (text_eq s dotdot)) [
    | inl e' ↦ absurd (h.2 ((text_eq_iff s dotdot).0 e'))
    | inr e' ↦ rw (e, e', nonempty s h) refl
  ]
]
  where
    nonempty : (s : Text) → IsSafe s → is_empty s ≡ false
    nonempty [] g = absurd (g.0 refl)
    nonempty (c ∷ s) g = refl

clean_step-dotdot :
    (stack : List Text) → AllDots stack → clean_step false stack dotdot ≡ dotdot ∷ stack
unfolding clean_step
clean_step-dotdot [] h = unfold text_eq in refl
clean_step-dotdot (s ∷ stack) h = rw (h.0, text_eq_refl dotdot) (unfold text_eq in refl)

climb-Stack :
    (rooted : Bool) (stack : List Text) → Stack rooted stack → Stack rooted (climb rooted stack)
climb-Stack true [] h = tt
climb-Stack false [] h = inr (refl, (refl, tt))
climb-Stack rooted (s ∷ stack) (inl (safe, h)) = elim (Bool-cases (text_eq s dotdot)) [
  | inl e ↦ absurd (safe.2 ((text_eq_iff s dotdot).0 e))
  | inr e ↦ rw e h
]
climb-Stack rooted (s ∷ stack) (inr (r, (e, h))) =
    rw (e, text_eq_refl dotdot) (inr (r, (refl, (refl, h))))

pub tests-IsSafe :
    (s : Text)
    → (is_empty s || text_eq s dot) ≡ false
    → text_eq s dotdot ≡ false
    → NoSlash s
    → IsSafe s
tests-IsSafe [] e e' g = absurd (cc)
tests-IsSafe (c ∷ s) e e' g = (
  λ q. cc,
  λ q. cc ((text_eq_iff (c ∷ s) dot).1 q),
  λ q. cc ((text_eq_iff (c ∷ s) dotdot).1 q),
  g,
)

clean_step-Stack :
    (rooted : Bool) (stack : List Text) (s : Text)
    → NoSlash s
    → Stack rooted stack
    → Stack rooted (clean_step rooted stack s)
unfolding clean_step
clean_step-Stack rooted stack s g h = elim (Bool-cases (is_empty s || text_eq s dot)) [
  | inl e ↦ rw e h
  | inr e ↦ elim (Bool-cases (text_eq s dotdot)) [
    | inl e' ↦ rw (e, e') (climb-Stack rooted stack h)
    | inr e' ↦ rw (e, e') (inl (tests-IsSafe s e e' g, h))
  ]
]

pub clean_onto-Stack :
    (rooted : Bool) (parts stack : List Text)
    → All NoSlash parts
    → Stack rooted stack
    → Stack rooted (clean_onto rooted stack parts)
unfolding clean_onto
clean_onto-Stack rooted [] stack g h = h
clean_onto-Stack rooted (s ∷ parts) stack g h =
    clean_onto-Stack rooted parts (clean_step rooted stack s) g.1
      (clean_step-Stack rooted stack s g.0 h)

pub elements-Stack : (path : Text) → Stack (is_abs path) (elements path)
unfolding elements
elements-Stack path = clean_onto-Stack (is_abs path) (split path b'/') [] (split-NoSlash path) tt

pub clean_onto-append :
    (rooted : Bool) (stack xs ys : List Text)
    → clean_onto rooted stack (xs ++ ys) ≡ clean_onto rooted (clean_onto rooted stack xs) ys
unfolding clean_onto
clean_onto-append rooted stack [] ys = refl
clean_onto-append rooted stack (x ∷ xs) ys =
    clean_onto-append rooted (clean_step rooted stack x) xs ys

-- Safe elements all come to stand above the others.
pub clean_onto-safe :
    (rooted : Bool) (stack above : List Text)
    → All IsSafe above
    → clean_onto rooted stack (reverse above) ≡ above ++ stack
clean_onto-safe rooted stack [] h = unfold clean_onto in refl
clean_onto-safe rooted stack (s ∷ above) h =
    ap (clean_onto rooted stack) (reverse-cons s above)
    ∙ clean_onto-append rooted stack (reverse above) (s ∷ [])
    ∙ ap (λ st. clean_onto rooted st (s ∷ [])) (clean_onto-safe rooted stack above h.1)
    ∙ unfold clean_onto in clean_step-safe rooted (above ++ stack) s h.0

dots_reverse : (stack : List Text) → AllDots stack → clean_onto false [] (reverse stack) ≡ stack
dots_reverse [] h = unfold clean_onto in refl
dots_reverse (s ∷ stack) h =
    ap (clean_onto false []) (reverse-cons s stack)
    ∙ clean_onto-append false [] (reverse stack) (s ∷ [])
    ∙ ap (λ st. clean_onto false st (s ∷ [])) (dots_reverse stack h.1)
    ∙ rw (h.0) (unfold clean_onto in clean_step-dotdot stack h.1)

-- Cleaned elements are read back one by one.
pub clean_onto-reverse :
    (rooted : Bool) (stack : List Text)
    → Stack rooted stack
    → clean_onto rooted [] (reverse stack) ≡ stack
clean_onto-reverse rooted [] h = unfold clean_onto in refl
clean_onto-reverse rooted (s ∷ stack) (inl (safe, h)) =
    ap (clean_onto rooted []) (reverse-cons s stack)
    ∙ clean_onto-append rooted [] (reverse stack) (s ∷ [])
    ∙ ap (λ st. clean_onto rooted st (s ∷ [])) (clean_onto-reverse rooted stack h)
    ∙ unfold clean_onto in clean_step-safe rooted stack s safe
clean_onto-reverse rooted (s ∷ stack) (inr (r, h)) = rw r (dots_reverse (s ∷ stack) h)

-- A part that stands in a cleaned path
abbrev pub IsPart : Text → Type 0
IsPart s = (s ≢ []) × NoSlash s

dotdot-IsPart : IsPart dotdot
dotdot-IsPart =
    ((λ q. cc), ((λ q. absurd (omega (arith, q))), ((λ q. absurd (omega (arith, q))), tt)))

AllDots-IsPart : (stack : List Text) → AllDots stack → All IsPart stack
AllDots-IsPart [] h = tt
AllDots-IsPart (s ∷ stack) h = (subst IsPart (sym (h.0)) dotdot-IsPart, AllDots-IsPart stack h.1)

pub Stack-IsPart : (rooted : Bool) (stack : List Text) → Stack rooted stack → All IsPart stack
Stack-IsPart rooted [] h = tt
Stack-IsPart rooted (s ∷ stack) (inl (safe, h)) = ((safe.0, safe.3), Stack-IsPart rooted stack h)
Stack-IsPart rooted (s ∷ stack) (inr (r, h)) = AllDots-IsPart (s ∷ stack) h

-- A relative path of such parts, read after another one, gives these parts.
pub clean_onto-render_any :
    (rooted : Bool) (stack parts : List Text)
    → All IsPart parts
    → clean_onto rooted stack (split (render false parts) b'/') ≡ clean_onto rooted stack parts
unfolding render split
clean_onto-render_any rooted stack [] h = unfold clean_onto clean_step text_eq in refl
clean_onto-render_any rooted stack (s ∷ parts) h =
    ap (clean_onto rooted stack) (split-join s parts (All-imp (s ∷ parts) (λ p g. g.1) h))

pub clean_onto-split-render :
    (rooted : Bool) (stack parts : List Text)
    → All IsPart parts
    → clean_onto rooted stack (split (render rooted parts) b'/') ≡ clean_onto rooted stack parts
unfolding render split
clean_onto-split-render true stack [] h = unfold clean_onto clean_step in refl
clean_onto-split-render true stack (s ∷ parts) h =
    ap (λ l. clean_onto true stack ([] ∷ l))
      (split-join s parts (All-imp (s ∷ parts) (λ p g. g.1) h))
    ∙ unfold clean_onto clean_step in refl
clean_onto-split-render false stack parts h = clean_onto-render_any false stack parts h

pub is_abs-render :
    (rooted : Bool) (parts : List Text) → All IsPart parts → is_abs (render rooted parts) ≡ rooted
unfolding render is_abs
is_abs-render true parts h = refl
is_abs-render false [] h = refl
is_abs-render false ([] ∷ parts) h = absurd (h.0.0 refl)
is_abs-render false ((c ∷ s) ∷ []) h = ground (arith, h.0.1.0)
is_abs-render false ((c ∷ s) ∷ t ∷ parts) h = ground (arith, h.0.1.0)

module _ (rooted : Bool) (stack : List Text) (h : Stack rooted stack) where
  parts-IsPart : All IsPart (reverse stack)
  parts-IsPart = All-reverse IsPart stack (Stack-IsPart rooted stack h)

  pub is_abs-cleaned : is_abs (render rooted (reverse stack)) ≡ rooted
  is_abs-cleaned = is_abs-render rooted (reverse stack) parts-IsPart

  pub elements-cleaned : elements (render rooted (reverse stack)) ≡ stack
  unfolding elements
  elements-cleaned = rw is_abs-cleaned (
      clean_onto-split-render rooted [] (reverse stack) parts-IsPart
      ∙ clean_onto-reverse rooted stack h)

  pub clean-cleaned : clean (render rooted (reverse stack)) ≡ render rooted (reverse stack)
  unfolding clean
  clean-cleaned =
      ap (λ r. render r (reverse (elements (render rooted (reverse stack))))) is_abs-cleaned
      ∙ ap (λ st. render rooted (reverse st)) elements-cleaned

-- The elements of a path with a second path after it
elements-join :
    (a b : Text)
    → is_empty a ≡ false
    → (is_abs (a ++ (b'/' ∷ b)) ≡ is_abs a)
      × (elements (a ++ (b'/' ∷ b)) ≡ clean_onto (is_abs a) (elements a) (split b b'/'))
unfolding elements is_abs
elements-join [] b h = absurd (cc)
elements-join (c ∷ a) b h = (
  refl,
  ap (clean_onto (c == b'/') []) (split-append (c ∷ a) b)
      ∙ clean_onto-append (c == b'/') [] (split (c ∷ a) b'/') (split b b'/'),
)

pub is_empty-render :
    (rooted : Bool) (parts : List Text) → All IsPart parts → is_empty (render rooted parts) ≡ false
unfolding render
is_empty-render true parts h = refl
is_empty-render false [] h = refl
is_empty-render false ([] ∷ parts) h = absurd (h.0.0 refl)
is_empty-render false ((c ∷ s) ∷ []) h = refl
is_empty-render false ((c ∷ s) ∷ t ∷ parts) h = refl

-- The path of these elements, the last one first
abbrev pub path_of : Bool → List Text → Text
path_of rooted stack = render rooted (reverse stack)

pub safe-IsPart : (s : Text) → IsSafe s → IsPart s
safe-IsPart s h = (h.0, h.3)

-- A safe relative path, joined to a cleaned one, comes to stand above it.
pub join_path-safe :
    (rooted : Bool) (stack above : List Text)
    → Stack rooted stack
    → All IsSafe above
    → join_path (path_of rooted stack) (path_of false above) ≡ path_of rooted (above ++ stack)
unfolding join_path clean
join_path-safe rooted stack above h g =
    let parts = All-reverse IsPart stack (Stack-IsPart rooted stack h) in
    let added = All-reverse IsPart above (All-imp above safe-IsPart g) in
    let (root, joined) =
      elements-join (path_of rooted stack) (path_of false above)
        (is_empty-render rooted (reverse stack) parts) in
    ap (λ r. render r (reverse (elements (path_of rooted stack ++ (b'/' ∷ path_of false above)))))
      (root ∙ is_abs-cleaned rooted stack h)
    ∙ ap (path_of rooted) (
        joined
        ∙ ap
            (λ r. clean_onto r (elements (path_of rooted stack)) (split (path_of false above) b'/'))
            (is_abs-cleaned rooted stack h)
        ∙ ap (λ st. clean_onto rooted st (split (path_of false above) b'/'))
            (elements-cleaned rooted stack h)
        ∙ clean_onto-render_any rooted stack (reverse above) added
        ∙ clean_onto-safe rooted stack above g)
