-- ===== src/Archive/Extract.antt =====
-- pkg/archive/tar.go and zip.go: the extraction of an archive into a directory.
pub mod Effects
use mathlib.Core.List.{reverse}
use etcd_infra.Common.{
  ℕ, Bool, true, false, List, [], ◌∷◌, Option, none, some, ◌⊎◌, inl, inr, ◌==◌, if◌then◌else◌, Text,
}
use etcd_infra.Archive.{
  ArchiveError, FileKind, regular_file, directory, symlink, other_file, LstatReply, not_exist,
  lstat_failed, found, secure_extract_path,
}
use etcd_infra.Archive.Paths.{clean}

-- What the extraction does to the file system.
pub data Effect : Type 0 where
  mkdir_all : Text → ℕ → Effect
  remove_file : Text → Effect
  open_file : Text → ℕ → Effect
  copy_body : Text → Text → Effect
  chmod : Text → ℕ → Effect

pub data ExtractError : Type 0 where
  open_archive gzip_reader read_entry unsupported_entry : ExtractError
  resolve_target : ArchiveError → ExtractError
  create_directory create_parent create_file open_entry copy_file chmod_file : Text → ExtractError

-- The operating system: what Lstat answers in a state of the file system, and what an effect makes of
-- that state, with whether it succeeded.
pub record FileSystem (W : Type 0) : Type 0 where
  pub lstat : W → Text → LstatReply
  pub apply : Effect → W → W × Bool

-- The state of the file system, and the effects so far, the last one first
pub record ExtractState (W : Type 0) : Type 0 where
  pub world : W
  pub log : List Effect

pub data TypeFlag : Type 0 where
  type_dir type_reg type_symlink type_link type_char type_block type_fifo : TypeFlag
  other_type : ℕ → TypeFlag

pub record TarHeader : Type 0 where
  pub name : Text
  pub typeflag : TypeFlag
  pub perm : ℕ
  pub body : Text

-- What tarReader.Next returns, until io.EOF
pub data TarRead : Type 0 where
  entry : TarHeader → TarRead
  next_failed : TarRead

pub record ZipEntry : Type 0 where
  pub name : Text
  pub is_dir : Bool
  pub perm : ℕ
  -- `none` if the entry cannot be opened
  pub content : Option Text

abbrev pub default_dir_perm : ℕ
default_dir_perm = 0o750

abbrev pub restrictive_file_perm : ℕ
restrictive_file_perm = 0o600

-- What stands up to the last slash, the slash included
unfoldable pub up_to_slash : Text → Text
up_to_slash [] = []
up_to_slash (c ∷ s) =
    let rest = up_to_slash s in
    elim rest [ [] ↦ (if c == b'/' then c ∷ [] else []) | d ∷ r ↦ c ∷ d ∷ r ]

-- filepath.Dir
unfoldable pub dir_of : Text → Text
unfolding up_to_slash clean
dir_of path = clean (up_to_slash path)

abbrev pub is_regular : LstatReply → Bool
is_regular (found regular_file) = true
is_regular (found directory) = false
is_regular (found symlink) = false
is_regular (found other_file) = false
is_regular not_exist = false
is_regular lstat_failed = false

abbrev pub M : Type 0 → Type 0
M W = ExtractState W → (ExtractError ⊎ Unit {0}) × ExtractState W

module _ {W : Type 0} where
  abbrev pub done : M W
  done s = (inr tt, s)

  abbrev pub fail : ExtractError → M W
  fail e s = (inl e, s)

  abbrev pub go_on :
      (ExtractError ⊎ Unit {0}) × ExtractState W → M W → (ExtractError ⊎ Unit {0}) × ExtractState W
  go_on (inl e, s) k = (inl e, s)
  go_on (inr u, s) k = k s

  infixl 5 ◌>>◌
  abbrev pub ◌>>◌ : M W → M W → M W
  ◌>>◌ m k s = go_on (m s) k

module _ {W : Type 0} (fs : FileSystem W) where
  unfoldable pub perform : Effect → ExtractError → M W
  perform e err s =
      let (w, good) = fs.apply e s.world in
      (if good then inr tt else inl err, record { world = w; log = e ∷ s.log })

  -- The same where the code drops the error
  unfoldable pub attempt : Effect → M W
  attempt e s = (inr tt, record { world = (fs.apply e s.world).0; log = e ∷ s.log })

  unfoldable pub extract_dir : Text → ℕ → M W
  unfolding perform
  extract_dir target perm =
      perform (mkdir_all target (if perm == 0 then default_dir_perm else perm))
        (create_directory target)

  unfoldable pub remove_regular : Text → M W
  unfolding attempt
  remove_regular target s =
      if is_regular (fs.lstat s.world target) then attempt (remove_file target) s else done s

  unfoldable pub extract_reg : Text → ℕ → Text → M W
  unfolding perform remove_regular dir_of
  extract_reg target perm body = do
    perform (mkdir_all (dir_of target) default_dir_perm) (create_parent target)
    remove_regular target
    perform (open_file target restrictive_file_perm) (create_file target)
    perform (copy_body target body) (copy_file target)
    if perm == 0 then done else perform (chmod target perm) (chmod_file target)

  -- The switch on the type of the entry
  unfoldable pub extract_typed : TarHeader → TypeFlag → Text → M W
  unfolding extract_dir extract_reg
  extract_typed h type_dir target = extract_dir target h.perm
  extract_typed h type_reg target = extract_reg target h.perm h.body
  extract_typed h type_symlink target = fail unsupported_entry
  extract_typed h type_link target = fail unsupported_entry
  extract_typed h type_char target = fail unsupported_entry
  extract_typed h type_block target = fail unsupported_entry
  extract_typed h type_fifo target = fail unsupported_entry
  extract_typed h (other_type n) target = fail unsupported_entry

  -- The resolution of an entry, and what is done with its target
  unfoldable pub at_target : Text → Text → (Text → M W) → M W
  at_target dest name k s = elim (secure_extract_path (fs.lstat s.world) dest name) [
    | inl e ↦ (inl (resolve_target e), s)
    | inr target ↦ k target s
  ]

  unfoldable pub untar_entries : Text → List TarRead → M W
  unfolding at_target extract_typed
  untar_entries dest [] = done
  untar_entries dest (next_failed ∷ reads) = fail read_entry
  untar_entries dest (entry h ∷ reads) =
      at_target dest h.name (extract_typed h h.typeflag) >> untar_entries dest reads

  -- UntarGz, for a file that can be opened or not, and that is of gzip or not
  unfoldable pub untar_gz : Bool → Bool → List TarRead → Text → M W
  unfolding untar_entries
  untar_gz opens is_gzip reads dest =
      if opens
      then (if is_gzip then untar_entries dest reads else fail gzip_reader)
      else fail open_archive

  unfoldable pub extract_zip_file : Text → ℕ → Option Text → M W
  unfolding perform dir_of
  extract_zip_file target perm content = do
    perform (mkdir_all (dir_of target) default_dir_perm) (create_parent target)
    perform (open_file target (if perm == 0 then restrictive_file_perm else perm))
        (create_file target)
    elim content [
      | none ↦ fail (open_entry target)
      | some body ↦ perform (copy_body target body) (copy_file target)
    ]

  unfoldable pub extract_zip_entry : ZipEntry → Text → M W
  unfolding extract_dir extract_zip_file
  extract_zip_entry e target =
      if e.is_dir then extract_dir target e.perm else extract_zip_file target e.perm e.content

  unfoldable pub unzip_entries : Text → List ZipEntry → M W
  unfolding at_target extract_zip_entry
  unzip_entries dest [] = done
  unzip_entries dest (e ∷ es) = at_target dest e.name (extract_zip_entry e) >> unzip_entries dest es

  -- Unzip, for a file that can be opened or not
  unfoldable pub unzip : Bool → List ZipEntry → Text → M W
  unfolding unzip_entries
  unzip opens es dest = if opens then unzip_entries dest es else fail open_archive
