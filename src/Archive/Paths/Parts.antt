-- ===== src/Archive/Paths/Parts.antt =====
-- filepath: the parts of a path between its slashes, and what makes a part safe.
use etcd_infra.Common.{
  ◌≡◌, ◌≢◌, refl, sym, ap, ◌∙◌, inl, inr, List, [], ◌∷◌, ◌++◌, arith, Bool-cases, if◌then◌else◌,
  ◌==◌, All, append_assoc, split, join, cons_part, Text,
}
use etcd_infra.Archive.Paths.{dot, dotdot, slash}

abbrev pub NoSlash : Text → Type 0
NoSlash [] = Unit
NoSlash (c ∷ s) = (c ≢ b'/') × NoSlash s

-- A part that names something in the directory it is looked up in.
abbrev pub IsSafe : Text → Type 0
IsSafe s = (s ≢ []) × (s ≢ dot) × (s ≢ dotdot) × NoSlash s

-- The first part of a split, and the others
abbrev Parts : List Text → Type 0
Parts [] = ⊥
Parts (s ∷ ss) = NoSlash s × All NoSlash ss

split-Parts : (s : Text) → Parts (split s b'/')
unfolding split
split-Parts [] = (tt, tt)
split-Parts (c ∷ s) = cons (split s b'/') (split-Parts s)
  where
    cons :
        (parts : List Text)
        → Parts parts
        → Parts (if c == b'/' then [] ∷ parts else cons_part c parts)
    cons [] h = absurd h
    cons (p ∷ ps) h = elim (Bool-cases (c == b'/')) [
      | inl e ↦ rw e (tt, h)
      | inr e ↦ rw e ((λ q. cc, h.0), h.1)
    ]

pub split-NoSlash : (s : Text) → All NoSlash (split s b'/')
split-NoSlash s = nonempty (split s b'/') (split-Parts s)
  where
    nonempty : (parts : List Text) → Parts parts → All NoSlash parts
    nonempty [] h = absurd h
    nonempty (p ∷ ps) h = h

pub split-append : (s t : Text) → split (s ++ (b'/' ∷ t)) b'/' ≡ split s b'/' ++ split t b'/'
unfolding split
split-append [] t = refl
split-append (c ∷ s) t = ground (arith, split-append s t, push (split s b'/') (split-Parts s))
  where
    push :
        (parts : List Text)
        → Parts parts
        → cons_part c (parts ++ split t b'/') ≡ cons_part c parts ++ split t b'/'
    push [] h = absurd h
    push (p ∷ ps) h = refl

pub split-of_NoSlash : (s : Text) → NoSlash s → split s b'/' ≡ s ∷ []
unfolding split
split-of_NoSlash [] h = refl
split-of_NoSlash (c ∷ s) h = ground (arith, split-of_NoSlash s h.1, h.0)

pub split-join :
    (s : Text) (parts : List Text)
    → All NoSlash (s ∷ parts)
    → split (join (s ∷ parts) slash) b'/' ≡ s ∷ parts
unfolding join
split-join s [] h = split-of_NoSlash s h.0
split-join s (t ∷ parts) h =
    split-append s (join (t ∷ parts) slash)
    ∙ ap (λ l. l ++ split (join (t ∷ parts) slash) b'/') (split-of_NoSlash s h.0)
    ∙ ap (◌∷◌ s) (split-join t parts h.1)

pub join-append :
    (s t : Text) (ss ts : List Text)
    → join ((s ∷ ss) ++ (t ∷ ts)) slash ≡ join (s ∷ ss) slash ++ (b'/' ∷ join (t ∷ ts) slash)
unfolding join
join-append s t [] ts = refl
join-append s t (s' ∷ ss) ts =
    ap (λ u. s ++ (b'/' ∷ u)) (join-append s' t ss ts)
    ∙ sym (append_assoc s (b'/' ∷ join (s' ∷ ss) slash) (b'/' ∷ join (t ∷ ts) slash))
