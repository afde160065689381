-- ===== src/Archive/Paths.antt =====
-- The functions of Go's path/filepath that the extraction calls, on paths separated by slashes.
pub mod Parts
pub mod Cleaned
use mathlib.Core.List.{reverse}
use etcd_infra.Common.{
  Bool, true, false, ◌||◌, List, [], ◌∷◌, ◌++◌, Option, none, some, if◌then◌else◌, ◌==◌, is_empty,
  length, replicate, join, split, Text, codes, text_eq,
}

abbrev pub dot : Text
dot = codes "."

abbrev pub dotdot : Text
dotdot = codes ".."

abbrev pub slash : Text
slash = codes "/"

-- filepath.IsAbs
unfoldable pub is_abs : Text → Bool
is_abs [] = false
is_abs (c ∷ s) = c == b'/'

-- A `..` element: it takes the last element away, and at the front it stays in a relative path and
-- goes in a rooted one.
abbrev pub climb : Bool → List Text → List Text
climb rooted [] = if rooted then [] else dotdot ∷ []
climb rooted (s ∷ stack) = if text_eq s dotdot then dotdot ∷ s ∷ stack else stack

-- One element of a path, onto those before it, the last one first.
unfoldable pub clean_step : Bool → List Text → Text → List Text
clean_step rooted stack s =
    if is_empty s || text_eq s dot
    then stack
    else if text_eq s dotdot
    then climb rooted stack
    else s ∷ stack

unfoldable pub clean_onto : Bool → List Text → List Text → List Text
clean_onto rooted stack [] = stack
clean_onto rooted stack (s ∷ parts) = clean_onto rooted (clean_step rooted stack s) parts

-- The elements of a cleaned path, the last one first.
unfoldable pub elements : Text → List Text
unfolding is_abs clean_onto
elements path = clean_onto (is_abs path) [] (split path b'/')

-- A path of these elements, in order.
unfoldable pub render : Bool → List Text → Text
unfolding join
render true parts = b'/' ∷ join parts slash
render false [] = dot
render false (s ∷ parts) = join (s ∷ parts) slash

-- filepath.Clean
unfoldable pub clean : Text → Text
unfolding elements render
clean path = render (is_abs path) (reverse (elements path))

-- filepath.Join of two parts, the first of which is not empty
unfoldable pub join_path : Text → Text → Text
unfolding clean
join_path a b = clean (a ++ (b'/' ∷ b))

abbrev has_dotdot : List Text → Bool
has_dotdot [] = false
has_dotdot (s ∷ parts) = text_eq s dotdot || has_dotdot parts

-- What is left of the target below the base; `none` if the way up cannot be told.
unfoldable pub rel_parts : List Text → List Text → Option (List Text)
rel_parts [] target = some target
rel_parts (b ∷ base) [] =
    if has_dotdot (b ∷ base) then none else some (replicate (length (b ∷ base)) dotdot)
rel_parts (b ∷ base) (t ∷ target) =
    let below = rel_parts base target in
    let up =
      if has_dotdot (b ∷ base)
      then none
      else some (replicate (length (b ∷ base)) dotdot ++ t ∷ target) in
    if text_eq b t then below else up

abbrev pub same_root : Bool → Bool → Bool
same_root true r = r
same_root false true = false
same_root false false = true

abbrev pub rendered : Option (List Text) → Option Text
rendered none = none
rendered (some parts) = some (render false parts)

-- filepath.Rel, as its documentation has it
unfoldable pub rel : Text → Text → Option Text
unfolding rel_parts render
rel base target =
    if same_root (is_abs base) (is_abs target)
    then rendered (rel_parts (reverse (elements base)) (reverse (elements target)))
    else none
