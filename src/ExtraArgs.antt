-- ===== src/ExtraArgs.antt =====
-- cmd/etcd-infra/extraargs.go: the extra arguments of an etcd server, from a file and inline.
mod Written
mod Samples
use etcd_infra.Common.{
  ℕ, suc, Bool, true, false, not, ◌||◌, List, [], ◌∷◌, ◌++◌, Option, none, some, ◌⊎◌, inl, inr,
  if◌then◌else◌, is_empty, keep, Text, codes, cons_part, has_prefix, split, is_space, trim_space,
}

-- A bad line comes with its number, from 1.
pub data ExtraArgsError : Type 0 where
  read_failed : Text → ExtraArgsError
  bad_line : ℕ → Text → ExtraArgsError

abbrev pub newline : ℕ
newline = 10

-- What stands between the spaces of a text, empty where two spaces meet
unfoldable pub field_parts : Text → List Text
unfolding is_space
field_parts [] = [] ∷ []
field_parts (c ∷ s) = let rest = field_parts s in if is_space c then [] ∷ rest else cons_part c rest

-- strings.Fields
unfoldable pub fields : Text → List Text
unfolding field_parts
fields s = keep (λ w. not (is_empty w)) (field_parts s)

abbrev pub with_arg : Text → ExtraArgsError ⊎ List Text → ExtraArgsError ⊎ List Text
with_arg line (inl e) = inl e
with_arg line (inr args) = inr (line ∷ args)

-- The loop over the lines, from the line with the given index on
unfoldable pub parse_lines : ℕ → List Text → ExtraArgsError ⊎ List Text
unfolding trim_space has_prefix
parse_lines line_no [] = inr []
parse_lines line_no (l ∷ ls) =
    let rest = parse_lines (suc line_no) ls in
    let line = trim_space l in
    if is_empty line || has_prefix line (codes "#")
    then rest
    else if not (has_prefix line (codes "-"))
    then inl (bad_line (suc line_no) line)
    else with_arg line rest

-- The files are given by what reading each of them returns, `none` for an error.
unfoldable pub parse_extra_args_file : (Text → Option Text) → Text → ExtraArgsError ⊎ List Text
unfolding parse_lines split
parse_extra_args_file read path = elim (read path) [
  | none ↦ inl (read_failed path)
  | some data_read ↦ parse_lines 0 (split data_read newline)
]

abbrev pub append_to : ExtraArgsError ⊎ List Text → List Text → ExtraArgsError ⊎ List Text
append_to (inl e) more = inl e
append_to (inr args) more = inr (args ++ more)

unfoldable pub resolve_extra_args : (Text → Option Text) → Text → Text → ExtraArgsError ⊎ List Text
unfolding trim_space parse_extra_args_file fields
resolve_extra_args read inline file =
    let from_file = parse_extra_args_file read file in
    append_to (if not (is_empty (trim_space file)) then from_file else inr []) (fields inline)
