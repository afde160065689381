-- ===== src/Archive/Walk.antt =====
-- extract_safety.go: the walk from the destination down to a target.
use mathlib.Core.List.{reverse, reverse_aux, reverse-append, reverse-cons}
use etcd_infra.Common.{
  ◌≡◌, ◌≢◌, refl, sym, subst, ap, ◌∙◌, inl, inr, Bool, true, false, ◌||◌, List, [], ◌∷◌, ◌++◌,
  Option, none, some, arith, Bool-cases, if◌then◌else◌, is_empty, All, All-reverse, All-imp, split,
  Text, codes, text_eq, text_eq_iff, text_eq_refl, has_prefix,
}
use etcd_infra.Archive.{
  or_else, ArchiveError, symlink, regular_file, directory, other_file, LstatReply, found,
  lstat_failed, not_exist, lstat_error, no_symlink_below, ensure_no_symlink_component,
}
use etcd_infra.Archive.Paths.{
  dot, same_root, rendered, is_abs, elements, render, join_path, rel, rel_parts,
}
use etcd_infra.Archive.Paths.Parts.{IsSafe, NoSlash, split-join, join-append}
use etcd_infra.Archive.Paths.Cleaned.{
  Stack, Stack-above, path_of, elements-cleaned, is_abs-cleaned, join_path-safe,
}

pub true-ne-false : {b : Bool} → b ≡ true → b ≡ false → ⊥
true-ne-false h h' = absurd (cc)

-- The path some parts below another
abbrev pub below : Text → List Text → Text
below path [] = path
below path (p ∷ parts) = below (path ++ (b'/' ∷ p)) parts

-- On the way down, no path is a symlink.
abbrev pub Walked : (Text → LstatReply) → Text → List Text → Type 0
Walked lstat path [] = Unit
Walked lstat path (p ∷ parts) =
    (lstat (path ++ (b'/' ∷ p)) ≢ found symlink) × Walked lstat (path ++ (b'/' ∷ p)) parts

-- The target is the destination, or lies some safe parts below it, and neither the destination nor
-- any path between the two is a symlink.
abbrev pub Confined : (Text → LstatReply) → Text → Text → Type 0
Confined lstat dest target =
    (parts : List Text) × All IsSafe parts
    × (target ≡ below dest parts)
    × (lstat dest ≢ found symlink)
    × Walked lstat dest parts

pub lstat_error-none : (r : LstatReply) → lstat_error r ≡ none → r ≢ found symlink
unfolding lstat_error
lstat_error-none not_exist h q = absurd (cc)
lstat_error-none lstat_failed h q = absurd (cc)
lstat_error-none (found symlink) h q = absurd (cc)
lstat_error-none (found regular_file) h q = absurd (cc)
lstat_error-none (found directory) h q = absurd (cc)
lstat_error-none (found other_file) h q = absurd (cc)

render-append :
    (rooted : Bool) (parts : List Text) (p : Text)
    → is_empty parts ≡ false
    → render rooted (parts ++ p ∷ []) ≡ render rooted parts ++ (b'/' ∷ p)
unfolding render
render-append rooted [] p h = absurd (cc)
render-append true (s ∷ parts) p h = ap (◌∷◌ b'/') (join-append s p parts [])
render-append false (s ∷ parts) p h = join-append s p parts []

is_empty-append : (xs : List Text) (x : Text) → is_empty (xs ++ x ∷ []) ≡ false
is_empty-append [] x = refl
is_empty-append (y ∷ xs) x = refl

pub is_empty-reverse : (s : Text) (stack : List Text) → is_empty (reverse (s ∷ stack)) ≡ false
is_empty-reverse s stack = ap is_empty (reverse-cons s stack) ∙ is_empty-append (reverse stack) s

pub path_of-push :
    (rooted : Bool) (stack : List Text) (p : Text)
    → is_empty stack ≡ false
    → path_of rooted (p ∷ stack) ≡ path_of rooted stack ++ (b'/' ∷ p)
path_of-push rooted [] p h = absurd (cc)
path_of-push rooted (s ∷ stack) p h =
    ap (render rooted) (reverse-cons p (s ∷ stack))
    ∙ render-append rooted (reverse (s ∷ stack)) p (is_empty-reverse s stack)

pub path_of-below :
    (rooted : Bool) (stack parts : List Text)
    → is_empty stack ≡ false
    → path_of rooted (reverse_aux parts stack) ≡ below (path_of rooted stack) parts
path_of-below rooted stack [] h = refl
path_of-below rooted stack (p ∷ parts) h =
    path_of-below rooted (p ∷ stack) parts refl
    ∙ ap (λ path. below path parts) (path_of-push rooted stack p h)

safe_tests : (p : Text) → IsSafe p → (is_empty p || text_eq p dot) ≡ false
safe_tests [] h = absurd (h.0 refl)
safe_tests (c ∷ p) h = elim (Bool-cases (text_eq (c ∷ p) dot)) [
  | inl e ↦ absurd (h.1 ((text_eq_iff (c ∷ p) dot).0 e))
  | inr e ↦ e
]

or_else-none : (e e' : Option ArchiveError) → or_else e e' ≡ none → (e ≡ none) × (e' ≡ none)
or_else-none none e' h = (refl, h)
or_else-none (some e) e' h = absurd (cc)

no_symlink_below-step :
    (lstat : Text → LstatReply) (path p : Text) (parts : List Text)
    → IsSafe p
    → no_symlink_below lstat path (p ∷ parts)
      ≡ or_else
          (lstat_error (lstat (join_path path p)))
          (no_symlink_below lstat (join_path path p) parts)
unfolding no_symlink_below
no_symlink_below-step lstat path p parts h = rw (safe_tests p h) refl

path_of_part : (p : Text) → p ≡ path_of false (p ∷ [])
unfolding render
path_of_part p = refl

-- A part joined to a cleaned path
join_path-part :
    (rooted : Bool) (stack : List Text) (p : Text)
    → is_empty stack ≡ false
    → Stack rooted stack
    → IsSafe p
    → join_path (path_of rooted stack) p ≡ path_of rooted stack ++ (b'/' ∷ p)
join_path-part rooted stack p e h g =
    ap (join_path (path_of rooted stack)) (path_of_part p)
    ∙ join_path-safe rooted stack (p ∷ []) h (g, tt)
    ∙ path_of-push rooted stack p e

-- The walk of ensureNoSymlinkComponent meets the paths between destination and target.
no_symlink_below-Walked :
    (lstat : Text → LstatReply) (rooted : Bool) (parts stack : List Text)
    → is_empty stack ≡ false
    → Stack rooted stack
    → All IsSafe parts
    → no_symlink_below lstat (path_of rooted stack) parts ≡ none
    → Walked lstat (path_of rooted stack) parts
no_symlink_below-Walked lstat rooted [] stack e h g walk = tt
no_symlink_below-Walked lstat rooted (p ∷ parts) stack e h g walk =
    let at = path_of-push rooted stack p e in
    let joined = join_path-part rooted stack p e h g.0 in
    let path = path_of rooted stack in
    let clear =
      or_else-none (lstat_error (lstat (join_path path p)))
        (no_symlink_below lstat (join_path path p) parts)
        (sym (no_symlink_below-step lstat path p parts g.0) ∙ walk) in
    (
      lstat_error-none (lstat (path ++ (b'/' ∷ p)))
          (subst (λ t. lstat_error (lstat t) ≡ none) joined clear.0),
      subst (λ t. Walked lstat t parts) at
          (no_symlink_below-Walked lstat rooted parts (p ∷ stack) refl (inl (g.0, h)) g.1
            (subst (λ t. no_symlink_below lstat t parts ≡ none) (joined ∙ sym at) clear.1)),
    )

rel_parts-append : (xs ys : List Text) → rel_parts xs (xs ++ ys) ≡ some ys
unfolding rel_parts
rel_parts-append [] ys = refl
rel_parts-append (x ∷ xs) ys = rw (text_eq_refl x) (rel_parts-append xs ys)

same_root_refl : (rooted : Bool) → same_root rooted rooted ≡ true
same_root_refl true = refl
same_root_refl false = refl

rel-of :
    (base target : Text) (rooted : Bool) (stack stack' : List Text)
    → is_abs base ≡ rooted
    → is_abs target ≡ rooted
    → elements base ≡ stack
    → elements target ≡ stack'
    → rel base target ≡ rendered (rel_parts (reverse stack) (reverse stack'))
unfolding rel
rel-of base target rooted stack stack' a b c d = rw (a, b, c, d, same_root_refl rooted) refl

-- The relative path of a target that stands above the destination
pub rel-above :
    (rooted : Bool) (stack above : List Text)
    → Stack rooted stack
    → All IsSafe above
    → rel (path_of rooted stack) (path_of rooted (above ++ stack)) ≡ some (path_of false above)
rel-above rooted stack above h g =
    let h' = Stack-above rooted above stack g h in
    rel-of (path_of rooted stack) (path_of rooted (above ++ stack)) rooted stack (above ++ stack)
      (is_abs-cleaned rooted stack h) (is_abs-cleaned rooted (above ++ stack) h')
      (elements-cleaned rooted stack h) (elements-cleaned rooted (above ++ stack) h')
    ∙ ap (λ l. rendered (rel_parts (reverse stack) l)) (reverse-append above stack)
    ∙ ap rendered (rel_parts-append (reverse stack) (reverse above))

-- A path of safe parts is not the dot, and does not begin with a dot for an element.
pub render-dot :
    (t : Text) (ts : List Text)
    → All IsSafe (t ∷ ts)
    → (text_eq (render false (t ∷ ts)) dot ≡ false)
      × (has_prefix (render false (t ∷ ts)) (codes "./") ≡ false)
unfolding render text_eq has_prefix
render-dot [] ts h = absurd (h.0.0 refl)
render-dot (c ∷ []) [] h =
    let n : c ≢ b'.' = λ q. h.0.1 (ap (λ x. x ∷ []) q) in (ground (arith, n), ground (arith, n))
render-dot (c ∷ []) (t ∷ ts) h =
    let n : c ≢ b'.' = λ q. h.0.1 (ap (λ x. x ∷ []) q) in (ground (arith, n), ground (arith, n))
render-dot (c ∷ d ∷ s) [] h = let n : d ≢ b'/' = h.0.3.1.0 in (ground (arith, n), ground (arith, n))
render-dot (c ∷ d ∷ s) (t ∷ ts) h =
    let n : d ≢ b'/' = h.0.3.1.0 in (ground (arith, n), ground (arith, n))

split-render :
    (t : Text) (ts : List Text) → All NoSlash (t ∷ ts) → split (render false (t ∷ ts)) b'/' ≡ t ∷ ts
unfolding render
split-render t ts h = split-join t ts h

walked_parts :
    (lstat : Text → LstatReply) (path : Text) (parts : List Text)
    → All IsSafe parts
    → (if text_eq (render false parts) dot
        then none
        else no_symlink_below lstat path (split (render false parts) b'/'))
      ≡ none
    → no_symlink_below lstat path parts ≡ none
walked_parts lstat path [] g walk = unfold no_symlink_below in refl
walked_parts lstat path (t ∷ ts) g walk =
    let plain = All-imp (t ∷ ts) (λ p h. h.3) g in
    subst (λ l. no_symlink_below lstat path l ≡ none) (split-render t ts plain)
      (rw (render-dot t ts g).0 at walk)

pub ensure_no_symlink_component-of_rel :
    (lstat : Text → LstatReply) (dest target r : Text)
    → rel dest target ≡ some r
    → ensure_no_symlink_component lstat dest target
      ≡ (if text_eq r dot then none else no_symlink_below lstat dest (split r b'/'))
unfolding ensure_no_symlink_component
ensure_no_symlink_component-of_rel lstat dest target r h = rw (h, ensure_no_symlink_component) refl

pub ensure_no_symlink_component-Walked :
    (lstat : Text → LstatReply) (rooted : Bool) (stack above : List Text)
    → is_empty stack ≡ false
    → Stack rooted stack
    → All IsSafe above
    → ensure_no_symlink_component lstat (path_of rooted stack) (path_of rooted (above ++ stack))
      ≡ none
    → Walked lstat (path_of rooted stack) (reverse above)
ensure_no_symlink_component-Walked lstat rooted stack above e h g walk =
    let safe = All-reverse IsSafe above g in
    no_symlink_below-Walked lstat rooted (reverse above) stack e h safe (
      walked_parts lstat (path_of rooted stack) (reverse above) safe (
        sym (
          ensure_no_symlink_component-of_rel lstat (path_of rooted stack)
            (path_of rooted (above ++ stack)) (path_of false above)
            (rel-above rooted stack above h g))
        ∙ walk))
