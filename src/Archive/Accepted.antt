-- ===== src/Archive/Accepted.antt =====
-- extract_safety.go: which names are accepted, where no symlink and no error stands in the way.
use mathlib.Core.List.{reverse, reverse-reverse, reverse_aux-eq}
use etcd_infra.Common.{
  ℕ, zero, suc, ◌≡◌, ◌≢◌, append-nil, refl, sym, subst, ap, ◌∙◌, inl, inr, ◌⊎◌, Bool, true, false,
  not, ◌&&◌, ◌||◌, List, [], ◌∷◌, ◌++◌, Option, none, arith, Bool-cases, if◌then◌else◌, is_empty,
  All, All-reverse, length, split, Text, codes, text_eq, text_eq_refl, text_eq_iff, has_prefix,
  trim_space, append_assoc,
}
use etcd_infra.Archive.{
  ArchiveError, empty_name, path_traversal, absolute_path, LstatReply, contains_nul, lstat_error,
  ensure_destination_root_safe, no_symlink_below, ensure_no_symlink_component, checked_name,
  checked_target, secure_extract_path, is_confined, name_then,
}
use etcd_infra.Archive.Paths.{
  dot, dotdot, is_abs, climb, clean_step, clean_onto, elements, render, clean, join_path,
}
use etcd_infra.Archive.Paths.Parts.{IsSafe, NoSlash, split-NoSlash}
use etcd_infra.Archive.Paths.Cleaned.{
  Stack, path_of, elements-Stack, clean_step-safe, tests-IsSafe, clean-cleaned, is_abs-cleaned,
  join_path-safe, Stack-above,
}
use etcd_infra.Archive.Walk.{below, path_of-below, rel-above, ensure_no_symlink_component-of_rel}
use etcd_infra.Archive.Names.{climbs_out, path_of-IsSafe, path_of-dotdot, clean-relative}

-- Walking along the parts from a directory that lies so many levels below the start, one never
-- stands above the start.
unfoldable pub stays : ℕ → List Text → Bool
stays depth [] = true
stays depth (s ∷ parts) =
    let here = stays depth parts in
    let down = stays (suc depth) parts in
    let up : Bool = elim depth [ zero ↦ false | suc d ↦ stays d parts ] in
    if is_empty s || text_eq s dot then here else if text_eq s dotdot then up else down

abbrev Escaped : List Text → Type 0
Escaped stack = (init : List Text) × (stack ≡ init ++ dotdot ∷ [])

climb-Escaped : (init : List Text) → Escaped (climb false (init ++ dotdot ∷ []))
climb-Escaped [] = rw (text_eq_refl dotdot) (dotdot ∷ [], refl)
climb-Escaped (s ∷ init) = elim (Bool-cases (text_eq s dotdot)) [
  | inl e ↦ rw e (dotdot ∷ s ∷ init, refl)
  | inr e ↦ rw e (init, refl)
]

clean_step-Escaped :
    (s : Text) (stack : List Text) → Escaped stack → Escaped (clean_step false stack s)
unfolding clean_step
clean_step-Escaped s stack (init, e) = elim (Bool-cases (is_empty s || text_eq s dot)) [
  | inl t ↦ rw t (init, e)
  | inr t ↦ elim (Bool-cases (text_eq s dotdot)) [
    | inl t' ↦ rw (t, t') (subst (λ st. Escaped (climb false st)) (sym e) (climb-Escaped init))
    | inr t' ↦ rw (t, t') (s ∷ init, ap (◌∷◌ s) e)
  ]
]

clean_onto-Escaped :
    (parts stack : List Text) → Escaped stack → Escaped (clean_onto false stack parts)
unfolding clean_onto
clean_onto-Escaped [] stack h = h
clean_onto-Escaped (s ∷ parts) stack h =
    clean_onto-Escaped parts (clean_step false stack s) (clean_step-Escaped s stack h)

-- The elements that a walk ends with: safe ones if it stays, and otherwise a way up.
abbrev Ends : ℕ → List Text → List Text → Type 0
Ends depth parts stack =
    ((stays depth parts ≡ true) × All IsSafe (clean_onto false stack parts))
    ⊎ ((stays depth parts ≡ false) × Escaped (clean_onto false stack parts))

clean_step-skip :
    (rooted : Bool) (stack : List Text) (s : Text)
    → (is_empty s || text_eq s dot) ≡ true
    → clean_step rooted stack s ≡ stack
unfolding clean_step
clean_step-skip rooted stack s e = rw e refl

stays-up :
    (parts stack : List Text) (s : Text)
    → (is_empty s || text_eq s dot) ≡ false
    → text_eq s dotdot ≡ true
    → All IsSafe stack
    → ((st : List Text) → All IsSafe st → Ends (length st) parts st)
    → Ends (length stack) (s ∷ parts) stack
unfolding clean_onto clean_step stays
stays-up parts [] s e e' h ih =
    rw (e, e') (inr (refl, clean_onto-Escaped parts (dotdot ∷ []) ([], refl)))
stays-up parts (t ∷ stack) s e e' h ih = elim (Bool-cases (text_eq t dotdot)) [
  | inl q ↦ absurd (h.0.2 ((text_eq_iff t dotdot).0 q))
  | inr q ↦ rw (e, e', q) (ih stack h.1)
]

clean_onto-stays :
    (parts stack : List Text)
    → All NoSlash parts
    → All IsSafe stack
    → Ends (length stack) parts stack
unfolding clean_onto stays
clean_onto-stays [] stack g h = inl (refl, h)
clean_onto-stays (s ∷ parts) stack g h = elim (Bool-cases (is_empty s || text_eq s dot)) [
  | inl e ↦ rw (e, clean_step-skip false stack s e) (clean_onto-stays parts stack g.1 h)
  | inr e ↦ elim (Bool-cases (text_eq s dotdot)) [
    | inl e' ↦ stays-up parts stack s e e' h (λ st g'. clean_onto-stays parts st g.1 g')
    | inr e' ↦
        let safe = tests-IsSafe s e e' g.0 in
        rw (e, e', clean_step-safe false stack s safe)
          (clean_onto-stays parts (s ∷ stack) g.1 (safe, h))
  ]
]

two_dots : (c d : ℕ) → (c ∷ d ∷ []) ≢ dotdot → c ≡ b'.' → d ≢ b'.'
two_dots c d h p q = h (ap (λ x. x ∷ d ∷ []) p ∙ ap (λ y. b'.' ∷ y ∷ []) q)

elements-relative :
    (path : Text) → is_abs path ≡ false → elements path ≡ clean_onto false [] (split path b'/')
unfolding elements
elements-relative path h = ap (λ r. clean_onto r [] (split path b'/')) h

render-inside : (parts : List Text) → All IsSafe parts → climbs_out (render false parts) ≡ false
unfolding render text_eq has_prefix
render-inside [] h = refl
render-inside ([] ∷ ts) h = absurd (h.0.0 refl)
render-inside ((c ∷ []) ∷ []) h = ground arith
render-inside ((c ∷ []) ∷ t ∷ ts) h = ground arith
render-inside ((c ∷ d ∷ []) ∷ []) h = ground (arith, two_dots c d h.0.2)
render-inside ((c ∷ d ∷ []) ∷ t ∷ ts) h = ground (arith, two_dots c d h.0.2)
render-inside ((c ∷ d ∷ e ∷ s) ∷ []) h = ground (arith, h.0.3.1.1.0)
render-inside ((c ∷ d ∷ e ∷ s) ∷ t ∷ ts) h = ground (arith, h.0.3.1.1.0)

-- A relative name leads out of its directory exactly if a walk along it does.
climbs_out-stays :
    (path : Text) → is_abs path ≡ false → climbs_out (clean path) ≡ not (stays 0 (split path b'/'))
climbs_out-stays path h =
    ap climbs_out (clean-relative path h ∙ ap (path_of false) (elements-relative path h))
    ∙ elim (clean_onto-stays (split path b'/') [] (split-NoSlash path) tt) [
      | inl (e, safe) ↦
          render-inside (reverse (clean_onto false [] (split path b'/')))
            (All-reverse IsSafe _ safe)
          ∙ ap not (sym e)
      | inr (e, (init, at)) ↦
          ap (λ st. climbs_out (path_of false st)) at ∙ path_of-dotdot init ∙ ap not (sym e)
    ]

below-append : (path : Text) (parts : List Text) → (rest : Text) × (below path parts ≡ path ++ rest)
below-append path [] = ([], sym (append-nil path))
below-append path (p ∷ parts) =
    let (rest, e) = below-append (path ++ (b'/' ∷ p)) parts in
    ((b'/' ∷ p) ++ rest, e ∙ append_assoc path (b'/' ∷ p) rest)

has_prefix-append : (s t : Text) → has_prefix (s ++ t) s ≡ true
unfolding has_prefix
has_prefix-append [] [] = refl
has_prefix-append [] (c ∷ t) = refl
has_prefix-append (c ∷ s) t = ground (arith, has_prefix-append s t)

is_confined-below : (dest : Text) (parts : List Text) → is_confined dest (below dest parts) ≡ true
is_confined-below dest [] = rw (text_eq_refl dest) refl
is_confined-below dest (p ∷ parts) =
    let (rest, e) = below-append (dest ++ (b'/' ∷ p)) parts in
    let target = below dest (p ∷ parts) in
    let at : target ≡ (dest ++ codes "/") ++ (p ++ rest) = e ∙ simp append_assoc in
    or_right (text_eq target dest) (
      ap (λ t. has_prefix t (dest ++ codes "/")) at
      ∙ has_prefix-append (dest ++ codes "/") (p ++ rest))
  where
    or_right : (b : Bool) {b' : Bool} → b' ≡ true → (b || b') ≡ true
    or_right b h = ground arith

no_symlink_below-none :
    (lstat : Text → LstatReply)
    → ((path : Text) → lstat_error (lstat path) ≡ none)
    → (parts : List Text) (path : Text) → no_symlink_below lstat path parts ≡ none
unfolding no_symlink_below
no_symlink_below-none lstat clear [] path = refl
no_symlink_below-none lstat clear (p ∷ parts) path =
    elim (Bool-cases (is_empty p || text_eq p dot)) [
      | inl e ↦ rw e (no_symlink_below-none lstat clear parts path)
      | inr e ↦
          rw (e, clear (join_path path p))
            (no_symlink_below-none lstat clear parts (join_path path p))
    ]

none_either : (b : Bool) {e : Option ArchiveError} → e ≡ none → (if b then none else e) ≡ none
none_either true h = refl
none_either false h = h

-- Where nothing is in the way, the target of a safe name passes.
checked_target-inr :
    (lstat : Text → LstatReply) (rooted : Bool) (s : Text) (stack above : List Text)
    → ((path : Text) → lstat_error (lstat path) ≡ none)
    → Stack rooted (s ∷ stack)
    → All IsSafe above
    → checked_target lstat (path_of rooted (s ∷ stack)) (path_of false above)
      ≡ inr (path_of rooted (above ++ s ∷ stack))
unfolding checked_target ensure_destination_root_safe
checked_target-inr lstat rooted s stack above clear h g =
    let dest = path_of rooted (s ∷ stack) in
    let target = path_of rooted (above ++ s ∷ stack) in
    let at : clean (join_path dest (path_of false above)) ≡ target =
      ap clean (join_path-safe rooted (s ∷ stack) above h g)
      ∙ clean-cleaned rooted (above ++ s ∷ stack) (Stack-above rooted above (s ∷ stack) g h) in
    let confined : is_confined dest target ≡ true =
      ap (is_confined dest) (
        ap (path_of rooted) (
          sym (
            reverse_aux-eq (reverse above) (s ∷ stack)
            ∙ ap (λ l. l ++ (s ∷ stack)) (reverse-reverse above)))
        ∙ path_of-below rooted (s ∷ stack) (reverse above) refl)
      ∙ is_confined-below dest (reverse above) in
    let walk : ensure_no_symlink_component lstat dest target ≡ none =
      ensure_no_symlink_component-of_rel lstat dest target (path_of false above)
        (rel-above rooted (s ∷ stack) above h g)
      ∙ none_either (text_eq (path_of false above) dot)
          (no_symlink_below-none lstat clear (split (path_of false above) b'/') dest) in
    rw (clear dest, at, confined, walk) refl

abbrev pub is_inr : ArchiveError ⊎ Text → Bool
is_inr (inl e) = false
is_inr (inr t) = true

-- A name that is to be accepted: it is there, relative, and a walk along it stays inside.
abbrev pub acceptable : Text → Bool
acceptable t =
    not (is_empty t)
    && not (text_eq t dot)
    && not (contains_nul t)
    && not (is_abs t)
    && stays 0 (split t b'/')

name_then-accept :
    (b b' n a c inside : Bool) (t : Text) (k : Text → ArchiveError ⊎ Text)
    → (a ≡ false → c ≡ not inside)
    → (a ≡ false → c ≡ false → is_inr (k t) ≡ true)
    → is_inr (
        name_then
          (if b || b'
            then inl empty_name
            else if n
            then inl path_traversal
            else if a || a
            then inl absolute_path
            else if c
            then inl path_traversal
            else inr t)
          k)
      ≡ (not b && not b' && not n && not a && inside)
name_then-accept true b' n a c inside t k h g = refl
name_then-accept false true n a c inside t k h g = refl
name_then-accept false false true a c inside t k h g = refl
name_then-accept false false false true c inside t k h g = refl
name_then-accept false false false false true true t k h g = absurd (cc (h refl))
name_then-accept false false false false true false t k h g = refl
name_then-accept false false false false false true t k h g = g refl refl
name_then-accept false false false false false false t k h g = absurd (cc (h refl))

is_abs-clean : (path : Text) → is_abs (clean path) ≡ is_abs path
unfolding clean
is_abs-clean path = is_abs-cleaned (is_abs path) (elements path) (elements-Stack path)

target_accepted :
    (lstat : Text → LstatReply) (rooted : Bool) (stack : List Text) (t : Text)
    → ((path : Text) → lstat_error (lstat path) ≡ none)
    → is_empty stack ≡ false
    → Stack rooted stack
    → is_abs t ≡ false
    → climbs_out (clean t) ≡ false
    → is_inr (checked_target lstat (path_of rooted stack) (clean t)) ≡ true
target_accepted lstat rooted [] t clear e h a c = absurd (cc)
target_accepted lstat rooted (s ∷ stack) t clear e h a c =
    let at = clean-relative t a in
    let safe =
      path_of-IsSafe (elements t) (subst (λ r. Stack r (elements t)) a (elements-Stack t))
        (subst (λ n. climbs_out n ≡ false) at c) in
    ap (λ n. is_inr (checked_target lstat (path_of rooted (s ∷ stack)) n)) at
    ∙ ap is_inr (checked_target-inr lstat rooted s stack (elements t) clear h safe)

-- Where Lstat meets no symlink and no error, and the destination is neither the root nor the working
-- directory, an entry gets a target exactly if its trimmed name is not empty or `.`, holds no NUL,
-- is relative, and a walk along its parts never stands above the place where it began.
pub secure_extract_path-accepts :
    (lstat : Text → LstatReply) (dest entry : Text)
    → ((path : Text) → lstat_error (lstat path) ≡ none)
    → is_empty (elements dest) ≡ false
    → is_inr (secure_extract_path lstat dest entry) ≡ acceptable (trim_space entry)
unfolding secure_extract_path checked_name
secure_extract_path-accepts lstat dest entry clear inner =
    let t = trim_space entry in
    let a = is_abs-clean t in
    rw a (
      name_then-accept (is_empty t) (text_eq t dot) (contains_nul t) (is_abs t)
        (climbs_out (clean t)) (stays 0 (split t b'/')) (clean t)
        (checked_target lstat (clean dest)) (climbs_out-stays t)
        (λ r c.
          unfold clean in
          target_accepted lstat (is_abs dest) (elements dest) t clear inner (elements-Stack dest) r
            c))
