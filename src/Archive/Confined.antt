-- ===== src/Archive/Confined.antt =====
-- extract_safety.go: where the target of an entry lies.
use mathlib.Core.List.{reverse, reverse-reverse, reverse_aux-eq}
use etcd_infra.Common.{
  ◌≡◌, ◌≢◌, refl, sym, subst, ap, ◌∙◌, ◌⊎◌, inl, inr, Bool, true, false, ◌||◌, List, [], ◌∷◌, ◌++◌,
  Option, none, some, arith, if◌then◌else◌, is_empty, All, All-reverse, All-append, All-imp, Text,
  codes, text_eq, has_prefix,
}
use etcd_infra.Archive.{
  path_traversal, unless_error, is_confined, name_then, ArchiveError, symlink, LstatReply, found,
  ensure_destination_root_safe, ensure_no_symlink_component, checked_name, checked_target,
  secure_extract_path,
}
use etcd_infra.Archive.Paths.{is_abs, elements, render, clean, join_path}
use etcd_infra.Archive.Paths.Parts.{IsSafe}
use etcd_infra.Archive.Paths.Cleaned.{
  Stack, Stack-above, path_of, is_abs-render, safe-IsPart, elements-Stack, clean-cleaned,
  join_path-safe,
}
use etcd_infra.Archive.Walk.{
  below, Confined, true-ne-false, lstat_error-none, path_of-below,
  ensure_no_symlink_component-Walked, render-dot,
}
use etcd_infra.Archive.Names.{checked_name-IsSafe}

root_tests :
    (j : Text) → is_empty j ≡ false → is_abs j ≡ false → is_confined (codes "/") (b'/' ∷ j) ≡ false
unfolding is_abs text_eq has_prefix
root_tests [] e a = absurd (cc)
root_tests (c ∷ j) e a = ground arith

is_empty-safe : (t : Text) (ts : List Text) → IsSafe t → is_empty (render false (t ∷ ts)) ≡ false
unfolding render
is_empty-safe [] ts h = absurd (h.0 refl)
is_empty-safe (c ∷ t) [] h = refl
is_empty-safe (c ∷ t) (t' ∷ ts) h = refl

-- A destination without elements, the root or the working directory, has nothing below it that
-- would pass as confined.
pub is_confined-rootless :
    (rooted : Bool) (parts : List Text)
    → All IsSafe parts
    → is_confined (render rooted []) (render rooted parts) ≡ true
    → parts ≡ []
unfolding render
is_confined-rootless rooted [] g h = refl
is_confined-rootless false (t ∷ ts) g h =
    let (a, b) = render-dot t ts g in
    absurd (true-ne-false h (ap (λ e. e || has_prefix (render false (t ∷ ts)) (codes "./")) a ∙ b))
is_confined-rootless true (t ∷ ts) g h =
    let parts = All-imp (t ∷ ts) safe-IsPart g in
    absurd (
      true-ne-false h (
        root_tests (render false (t ∷ ts)) (is_empty-safe t ts g.0)
          (is_abs-render false (t ∷ ts) parts)))

-- What a passed sequence of checks shows of each
passed :
    {target : Text} (e e' : Option ArchiveError) (b : Bool) (t : Text)
    → unless_error e (if b then unless_error e' (inr t) else inl path_traversal) ≡ inr target
    → (e ≡ none) × (b ≡ true) × (e' ≡ none) × (t ≡ target)
passed (some e) e' b t h = absurd (cc)
passed none e' false t h = absurd (cc)
passed none (some e) true t h = absurd (cc)
passed none none true t h = (refl, refl, refl, cc)

-- The same, and that nothing lies below a destination without elements
abbrev ConfinedInside : (Text → LstatReply) → Text → List Text → Text → Type 0
ConfinedInside lstat dest stack target =
    (c : Confined lstat dest target) × (is_empty stack ≡ true → c.0 ≡ [])

-- What the checks of the target leave, for a name of safe parts
checked_target-Confined :
    (lstat : Text → LstatReply) (rooted : Bool) (stack above : List Text) (target : Text)
    → Stack rooted stack
    → All IsSafe above
    → checked_target lstat (path_of rooted stack) (path_of false above) ≡ inr target
    → ConfinedInside lstat (path_of rooted stack) stack target
checked_target-Confined lstat rooted stack above target h g ok =
    let dest = path_of rooted stack in
    let t = clean (join_path dest (path_of false above)) in
    let (root, confined, walk, same) =
      passed {target = target} (ensure_destination_root_safe lstat dest)
        (ensure_no_symlink_component lstat dest t) (is_confined dest t) t
        (unfold checked_target in ok) in
    let at : t ≡ path_of rooted (above ++ stack) =
      ap clean (join_path-safe rooted stack above h g)
      ∙ clean-cleaned rooted (above ++ stack) (Stack-above rooted above stack g h) in
    finish stack h (unfold ensure_destination_root_safe in lstat_error-none (lstat dest) root)
      (subst (λ u. is_confined dest u ≡ true) at confined)
      (subst (λ u. ensure_no_symlink_component lstat dest u ≡ none) at walk) (sym same ∙ at)
  where
    finish :
        (stack : List Text)
        → Stack rooted stack
        → (lstat (path_of rooted stack) ≢ found symlink)
        → is_confined (path_of rooted stack) (path_of rooted (above ++ stack)) ≡ true
        → ensure_no_symlink_component lstat (path_of rooted stack) (path_of rooted (above ++ stack))
          ≡ none
        → target ≡ path_of rooted (above ++ stack)
        → ConfinedInside lstat (path_of rooted stack) stack target
    finish [] h root confined walk same =
        let safe = All-reverse IsSafe (above ++ []) (All-append IsSafe above [] g tt) in
        let none_left = is_confined-rootless rooted (reverse (above ++ [])) safe confined in
        (([], tt, same ∙ ap (render rooted) none_left, root, tt), λ e. refl)
    finish (s ∷ stack) h root confined walk same = (
      (
        reverse above,
        All-reverse IsSafe above g,
        same
            ∙ ap (path_of rooted) (
                sym (
                  reverse_aux-eq (reverse above) (s ∷ stack)
                  ∙ ap (λ l. l ++ (s ∷ stack)) (reverse-reverse above)))
            ∙ path_of-below rooted (s ∷ stack) (reverse above) refl,
        root,
        ensure_no_symlink_component-Walked lstat rooted (s ∷ stack) above refl h g walk,
      ),
      λ e. absurd (cc),
    )

name_then-inr :
    {t : Text} (r : ArchiveError ⊎ Text) (k : Text → ArchiveError ⊎ Text)
    → name_then r k ≡ inr t
    → (name : Text) × (r ≡ inr name) × (k name ≡ inr t)
name_then-inr (inl e) k h = absurd (cc)
name_then-inr (inr name) k h = (name, refl, h)

secure_extract_path-inside :
    (lstat : Text → LstatReply) (dest entry target : Text)
    → secure_extract_path lstat dest entry ≡ inr target
    → ConfinedInside lstat (clean dest) (elements dest) target
secure_extract_path-inside lstat dest entry target ok =
    let (name, passed_name, passed_target) =
      name_then-inr {t = target} (checked_name entry) (checked_target lstat (clean dest))
        (unfold secure_extract_path in ok) in
    let (above, safe, same) = checked_name-IsSafe entry name passed_name in
    unfold clean in
    checked_target-Confined lstat (is_abs dest) (elements dest) above target (elements-Stack dest)
      safe (subst (λ n. checked_target lstat (clean dest) n ≡ inr target) same passed_target)

-- A target that secure_extract_path returns is the cleaned destination itself or lies below it by
-- parts none of which is empty, `.`, `..` or holds a slash; and, as Lstat answered in the call,
-- neither the destination nor any path from it down to the target was a symlink.
pub secure_extract_path-Confined :
    (lstat : Text → LstatReply) (dest entry target : Text)
    → secure_extract_path lstat dest entry ≡ inr target
    → Confined lstat (clean dest) target
secure_extract_path-Confined lstat dest entry target ok =
    (secure_extract_path-inside lstat dest entry target ok).0

-- Where the cleaned destination has no elements, which leaves the root and the working directory,
-- nothing but the destination itself ever gets a target: every entry that names something in it is
-- refused.
pub secure_extract_path-rootless :
    (lstat : Text → LstatReply) (dest entry target : Text)
    → elements dest ≡ []
    → secure_extract_path lstat dest entry ≡ inr target
    → target ≡ clean dest
secure_extract_path-rootless lstat dest entry target bare ok =
    let (confined, inside) = secure_extract_path-inside lstat dest entry target ok in
    confined.2 ∙ ap (below (clean dest)) (inside (ap is_empty bare))
