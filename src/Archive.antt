-- ===== src/Archive.antt =====
-- pkg/archive/extract_safety.go: the path below the destination that an entry of an archive gets.
pub mod Paths
pub mod Walk
mod Names
pub mod Confined
mod Accepted
pub mod Extract
mod Samples
use etcd_infra.Common.{
  Bool, true, false, not, ◌&&◌, ◌||◌, List, [], ◌∷◌, ◌++◌, Option, none, some, ◌⊎◌, inl, inr, ◌==◌,
  if◌then◌else◌, is_empty, has_prefix, split, trim_space, Text, codes, text_eq,
}
use etcd_infra.Archive.Paths.{dot, dotdot, is_abs, clean, join_path, rel}

pub data ArchiveError : Type 0 where
  empty_name absolute_path path_traversal symlink_in_path path_validation : ArchiveError

-- What os.Lstat says of a path: that nothing is there, another error, or the kind of file.
pub data FileKind : Type 0 where
  regular_file directory symlink other_file : FileKind

pub data LstatReply : Type 0 where
  not_exist lstat_failed : LstatReply
  found : FileKind → LstatReply

-- strings.ContainsRune(s, 0)
unfoldable pub contains_nul : Text → Bool
contains_nul [] = false
contains_nul (c ∷ s) = (c == 0) || contains_nul s

-- What one Lstat makes of the extraction; a path where nothing is passes.
unfoldable pub lstat_error : LstatReply → Option ArchiveError
lstat_error not_exist = none
lstat_error lstat_failed = some path_validation
lstat_error (found symlink) = some symlink_in_path
lstat_error (found regular_file) = none
lstat_error (found directory) = none
lstat_error (found other_file) = none

unfoldable pub ensure_destination_root_safe : (Text → LstatReply) → Text → Option ArchiveError
unfolding lstat_error
ensure_destination_root_safe lstat dest = lstat_error (lstat dest)

abbrev pub or_else : Option ArchiveError → Option ArchiveError → Option ArchiveError
or_else none e = e
or_else (some e) e' = some e

-- The loop of ensureNoSymlinkComponent
unfoldable pub no_symlink_below : (Text → LstatReply) → Text → List Text → Option ArchiveError
unfolding lstat_error
no_symlink_below lstat current [] = none
no_symlink_below lstat current (part ∷ parts) =
    let current' = join_path current part in
    let skipped = no_symlink_below lstat current parts in
    let checked = or_else (lstat_error (lstat current')) (no_symlink_below lstat current' parts) in
    if is_empty part || text_eq part dot then skipped else checked

unfoldable pub ensure_no_symlink_component : (Text → LstatReply) → Text → Text → Option ArchiveError
unfolding no_symlink_below
ensure_no_symlink_component lstat dest target = elim (rel dest target) [
  | none ↦ some path_validation
  | some r ↦ (if text_eq r dot then none else no_symlink_below lstat dest (split r b'/'))
]

-- The checks of the name alone, with the cleaned name
unfoldable pub checked_name : Text → ArchiveError ⊎ Text
unfolding contains_nul
checked_name entry_name =
    let trimmed = trim_space entry_name in
    let clean_name = clean trimmed in
    if is_empty trimmed || text_eq trimmed dot
    then inl empty_name
    else if contains_nul trimmed
    then inl path_traversal
    else if is_abs trimmed || is_abs clean_name
    then inl absolute_path
    else if text_eq clean_name dotdot || has_prefix clean_name (dotdot ++ codes "/")
    then inl path_traversal
    else inr clean_name

abbrev pub unless_error : Option ArchiveError → ArchiveError ⊎ Text → ArchiveError ⊎ Text
unless_error none r = r
unless_error (some e) r = inl e

abbrev pub is_confined : Text → Text → Bool
is_confined dest target = text_eq target dest || has_prefix target (dest ++ codes "/")

-- The checks of the destination and of the target, for a name that passed
unfoldable pub checked_target : (Text → LstatReply) → Text → Text → ArchiveError ⊎ Text
unfolding ensure_destination_root_safe ensure_no_symlink_component
checked_target lstat dest_clean clean_name =
    let target_clean = clean (join_path dest_clean clean_name) in
    unless_error (ensure_destination_root_safe lstat dest_clean) (
      if is_confined dest_clean target_clean
      then unless_error (ensure_no_symlink_component lstat dest_clean target_clean)
          (inr target_clean)
      else inl path_traversal)

abbrev pub name_then : ArchiveError ⊎ Text → (Text → ArchiveError ⊎ Text) → ArchiveError ⊎ Text
name_then (inl e) k = inl e
name_then (inr name) k = k name

unfoldable pub secure_extract_path : (Text → LstatReply) → Text → Text → ArchiveError ⊎ Text
unfolding checked_name checked_target
secure_extract_path lstat dest entry_name =
    name_then (checked_name entry_name) (checked_target lstat (clean dest))
