-- ===== src/Archive/Samples.antt =====
-- The extraction on a small file system, with tests of the path functions.
use etcd_infra.Common.{
  ◌≡◌, refl, true, false, List, [], ◌∷◌, inl, inr, trim_space, split, has_prefix, Text, codes,
  text_eq, if◌then◌else◌, some, none,
}
use etcd_infra.Archive.{
  LstatReply, not_exist, found, symlink, directory, path_traversal, absolute_path, symlink_in_path,
  lstat_error, secure_extract_path,
}
use etcd_infra.Archive.Paths.{is_abs, elements, clean, clean_step, join_path, rel}
use etcd_infra.Archive.Walk.{Confined}
use etcd_infra.Archive.Confined.{secure_extract_path-Confined, secure_extract_path-rootless}
use etcd_infra.Archive.Accepted.{acceptable, is_inr, secure_extract_path-accepts}
use etcd_infra.Archive.Extract.{
  Effect, mkdir_all, open_file, copy_body, chmod, FileSystem, type_reg, type_symlink, TarRead,
  entry, ZipEntry, untar_gz, unzip, dir_of, unsupported_entry,
}
use etcd_infra.Archive.Extract.Effects.{Guarded, untar_gz-Guarded}

clean_test : clean (codes "//a/./b/../..//c/") ≡ codes "/c"
unfolding clean elements is_abs text_eq split clean_step
clean_test = refl

clean_up_test : clean (codes "a/../../b") ≡ codes "../b"
unfolding clean elements is_abs text_eq split clean_step
clean_up_test = refl

rel_test : rel (codes "/opt/x") (codes "/opt/x/bin/etcd") ≡ some (codes "bin/etcd")
unfolding rel elements is_abs text_eq split clean_step
rel_test = refl

dir_of_test : dir_of (codes "/opt/x/etcd") ≡ codes "/opt/x"
unfolding dir_of clean elements is_abs text_eq split clean_step
dir_of_test = refl

-- A destination that is a directory, with a symlink in it
abbrev sample_lstat : Text → LstatReply
sample_lstat path =
    if text_eq path (codes "/opt/x")
    then found directory
    else if text_eq path (codes "/opt/x/link")
    then found symlink
    else not_exist

resolved_test :
    secure_extract_path sample_lstat (codes "/opt/x/") (codes " bin//etcd ")
    ≡ inr (codes "/opt/x/bin/etcd")
unfolding secure_extract_path trim_space text_eq is_abs clean split clean_step has_prefix join_path
    rel elements
resolved_test = refl

symlink_test :
    secure_extract_path sample_lstat (codes "/opt/x") (codes "link/etcd") ≡ inl symlink_in_path
unfolding secure_extract_path trim_space text_eq is_abs clean split clean_step has_prefix join_path
    rel elements
symlink_test = refl

traversal_test :
    secure_extract_path sample_lstat (codes "/opt/x") (codes "a/../../etcd") ≡ inl path_traversal
unfolding secure_extract_path trim_space text_eq is_abs clean split clean_step has_prefix join_path
    rel elements
traversal_test = refl

absolute_test :
    secure_extract_path sample_lstat (codes "/opt/x") (codes "/etcd") ≡ inl absolute_path
unfolding secure_extract_path trim_space text_eq is_abs clean split clean_step has_prefix join_path
    rel elements
absolute_test = refl

root_test : secure_extract_path sample_lstat (codes "/") (codes "etcd") ≡ inl path_traversal
unfolding secure_extract_path trim_space text_eq is_abs clean split clean_step has_prefix join_path
    rel elements
root_test = refl

secure_extract_path-Confined_example :
    Confined sample_lstat (clean (codes "/opt/x/")) (codes "/opt/x/bin/etcd")
secure_extract_path-Confined_example =
    secure_extract_path-Confined sample_lstat (codes "/opt/x/") (codes " bin//etcd ")
      (codes "/opt/x/bin/etcd") resolved_test

abbrev empty_lstat : Text → LstatReply
empty_lstat path = not_exist

secure_extract_path-accepts_example :
    is_inr (secure_extract_path empty_lstat (codes "/opt/x") (codes "a/../bin/etcd"))
    ≡ acceptable (trim_space (codes "a/../bin/etcd"))
secure_extract_path-accepts_example =
    secure_extract_path-accepts empty_lstat (codes "/opt/x") (codes "a/../bin/etcd")
      (λ path. unfold lstat_error in refl) (unfold elements is_abs text_eq split clean_step in refl)

secure_extract_path-rootless_example : clean (codes "/") ≡ clean (codes "/")
secure_extract_path-rootless_example =
    secure_extract_path-rootless empty_lstat (codes "/") (codes "./") (clean (codes "/"))
      (unfold elements is_abs text_eq split clean_step in refl)
      (unfold secure_extract_path trim_space text_eq is_abs clean split clean_step has_prefix
          join_path rel elements in
        refl)

-- A file system that only knows what was done to it, the last effect first
abbrev sample_fs : FileSystem (List Effect)
sample_fs = record { lstat = λ w. sample_lstat; apply = λ e w. (e ∷ w, true) }

abbrev sample_reads : List TarRead
sample_reads =
    entry (record { name = codes "etcd"; typeflag = type_reg; perm = 0o755; body = codes "ELF" })
    ∷ entry (record { name = codes "latest"; typeflag = type_symlink; perm = 0o777; body = [] })
    ∷ []

-- The first entry is written, the symlink ends the extraction.
untar_gz_test :
    untar_gz sample_fs true true sample_reads (codes "/opt/x") (record { world = []; log = [] }) ≡ (
      inl unsupported_entry,
      record {
        world =
            chmod (codes "/opt/x/etcd") 0o755
            ∷ copy_body (codes "/opt/x/etcd") (codes "ELF")
            ∷ open_file (codes "/opt/x/etcd") 0o600
            ∷ mkdir_all (codes "/opt/x") 0o750
            ∷ [];
        log =
            chmod (codes "/opt/x/etcd") 0o755
            ∷ copy_body (codes "/opt/x/etcd") (codes "ELF")
            ∷ open_file (codes "/opt/x/etcd") 0o600
            ∷ mkdir_all (codes "/opt/x") 0o750
            ∷ [];
      },
    )
unfolding untar_gz secure_extract_path trim_space text_eq is_abs clean split clean_step has_prefix
    join_path rel elements
untar_gz_test = refl

untar_gz-Guarded_example :
    Guarded sample_fs []
      (clean (codes "/opt/x"))
      (untar_gz sample_fs true true sample_reads
        (codes "/opt/x")
        (record { world = []; log = [] })).1.log
untar_gz-Guarded_example = untar_gz-Guarded sample_fs [] true true sample_reads (codes "/opt/x")

abbrev sample_zip : List ZipEntry
sample_zip =
    record { name = codes "bin/"; is_dir = true; perm = 0; content = none }
    ∷ record { name = codes "bin/etcd"; is_dir = false; perm = 0o755; content = some (codes "ELF") }
    ∷ []

unzip_test :
    (unzip sample_fs true sample_zip (codes "/opt/x") (record { world = []; log = [] })).1.log
    ≡ copy_body (codes "/opt/x/bin/etcd") (codes "ELF")
      ∷ open_file (codes "/opt/x/bin/etcd") 0o755
      ∷ mkdir_all (codes "/opt/x/bin") 0o750
      ∷ mkdir_all (codes "/opt/x/bin") 0o750
      ∷ []
unfolding unzip secure_extract_path trim_space text_eq is_abs clean split clean_step has_prefix
    join_path rel elements
unzip_test = refl
