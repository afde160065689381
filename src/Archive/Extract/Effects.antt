-- ===== src/Archive/Extract/Effects.antt =====
-- tar.go and zip.go: what the effects of an extraction touch.
use etcd_infra.Common.{
  ℕ, ◌≡◌, refl, sym, ap, ◌∙◌, subst, inl, inr, ◌⊎◌, Bool, true, false, List, [], ◌∷◌, ◌++◌, Option,
  none, some, Bool-cases, if◌then◌else◌, ◌==◌, append_assoc, All, All-append, Text,
}
use etcd_infra.Archive.{ArchiveError, secure_extract_path}
use etcd_infra.Archive.Paths.{clean}
use etcd_infra.Archive.Walk.{Confined}
use etcd_infra.Archive.Confined.{secure_extract_path-Confined}
use etcd_infra.Archive.Extract.{
  Effect, mkdir_all, remove_file, open_file, copy_body, chmod, ExtractError, resolve_target,
  create_directory, create_parent, create_file, open_entry, copy_file, chmod_file,
  unsupported_entry, FileSystem, ExtractState, TypeFlag, type_dir, type_reg, type_symlink,
  type_link, type_char, type_block, type_fifo, other_type, TarHeader, TarRead, entry, next_failed,
  ZipEntry, M, done, fail, go_on, ◌>>◌, perform, attempt, extract_dir, remove_regular, extract_reg,
  extract_typed, at_target, untar_entries, untar_gz, extract_zip_file, extract_zip_entry,
  unzip_entries, unzip, dir_of, is_regular, default_dir_perm, restrictive_file_perm,
}

-- The path that an effect is about
abbrev pub path_of_effect : Effect → Text
path_of_effect (mkdir_all path mode) = path
path_of_effect (remove_file path) = path
path_of_effect (open_file path mode) = path
path_of_effect (copy_body path body) = path
path_of_effect (chmod path mode) = path

-- An effect on the target itself, or the creation of the directory that it lies in
abbrev pub Within : Text → Effect → Type 0
Within target e = (path_of_effect e ≡ target) ⊎ ((mode : ℕ) × (e ≡ mkdir_all (dir_of target) mode))

module _ {W : Type 0} (fs : FileSystem W) (dest name : Text) (k : Text → M W)
    (s : ExtractState W) where
  pub at_target-inl :
      (e : ArchiveError)
      → secure_extract_path (fs.lstat s.world) dest name ≡ inl e
      → at_target fs dest name k s ≡ (inl (resolve_target e), s)
  unfolding at_target
  at_target-inl e p = rw (p, at_target) refl

  pub at_target-inr :
      (target : Text)
      → secure_extract_path (fs.lstat s.world) dest name ≡ inr target
      → at_target fs dest name k s ≡ k target s
  unfolding at_target
  at_target-inr target p = rw (p, at_target) refl

module _ {W : Type 0} (fs : FileSystem W) (start : W) where
  -- The state of the file system after some effects, the last one first
  abbrev pub replay : List Effect → W
  replay [] = start
  replay (e ∷ log) = (fs.apply e (replay log)).0

  -- Each effect is on or for a target that was confined to the destination, by the answers of Lstat at
  -- the time of its check; since that check there were only effects on or for the same target.
  abbrev pub Guarded : Text → List Effect → Type 0
  Guarded dest [] = Unit
  Guarded dest (e ∷ log) =
      ((target : Text) × (since : List Effect) × (before : List Effect) × (log ≡ since ++ before)
        × Confined (fs.lstat (replay before)) dest target
        × Within target e
        × All (Within target) since)
      × Guarded dest log

  abbrev Tracked : ExtractState W → Type 0
  Tracked s = s.world ≡ replay s.log

  -- A step adds effects that all satisfy a predicate.
  abbrev Adds : (Effect → Type 0) → M W → Type 0
  Adds P m =
      (s : ExtractState W)
      → Tracked s
      → (new : List Effect) × ((m s).1.log ≡ new ++ s.log) × All P new × Tracked (m s).1

  done-Adds : (P : Effect → Type 0) → Adds P done
  done-Adds P s h = ([], refl, tt, h)

  fail-Adds : (P : Effect → Type 0) (e : ExtractError) → Adds P (fail e)
  fail-Adds P e s h = ([], refl, tt, h)

  perform-Adds :
      (P : Effect → Type 0) (e : Effect) (err : ExtractError) → P e → Adds P (perform fs e err)
  unfolding perform
  perform-Adds P e err p s h = (e ∷ [], refl, (p, tt), ap (λ w. (fs.apply e w).0) h)

  attempt-Adds : (P : Effect → Type 0) (e : Effect) → P e → Adds P (attempt fs e)
  unfolding attempt
  attempt-Adds P e p s h = (e ∷ [], refl, (p, tt), ap (λ w. (fs.apply e w).0) h)

  >>-Adds : (P : Effect → Type 0) (m k : M W) → Adds P m → Adds P k → Adds P (m >> k)
  >>-Adds P m k f g s h = after (m s) (f s h)
    where
      after :
          (r : (ExtractError ⊎ Unit {0}) × ExtractState W)
          → (new : List Effect) × (r.1.log ≡ new ++ s.log) × All P new × Tracked r.1
          → (new : List Effect) × ((go_on r k).1.log ≡ new ++ s.log)
            × All P new
            × Tracked (go_on r k).1
      after (inl e, s') f' = f'
      after (inr u, s') (new, log, ps, t) =
          let (more, log', ps', t') = g s' t in
          (
            more ++ new,
            log' ∙ ap (λ l. more ++ l) log ∙ sym (append_assoc more new s.log),
            All-append P more new ps' ps,
            t',
          )

  if-Adds :
      (P : Effect → Type 0) (b : Bool) (m k : M W)
      → Adds P m
      → Adds P k
      → Adds P (if b then m else k)
  if-Adds P true m k f g = f
  if-Adds P false m k f g = g

  remove_regular-Adds : (target : Text) → Adds (Within target) (remove_regular fs target)
  unfolding remove_regular
  remove_regular-Adds target s h = elim (Bool-cases (is_regular (fs.lstat s.world target))) [
    | inl e ↦ rw e (attempt-Adds (Within target) (remove_file target) (inl refl) s h)
    | inr e ↦ rw e (done-Adds (Within target) s h)
  ]

  -- A step on the target, and the creation of its parent
  on_target-Adds :
      (target : Text) (e : Effect) (err : ExtractError)
      → path_of_effect e ≡ target
      → Adds (Within target) (perform fs e err)
  on_target-Adds target e err p = perform-Adds (Within target) e err (inl p)

  parent-Adds :
      (target : Text)
      → Adds
          (Within target)
          (perform fs (mkdir_all (dir_of target) default_dir_perm) (create_parent target))
  parent-Adds target =
      perform-Adds (Within target) (mkdir_all (dir_of target) default_dir_perm)
        (create_parent target) (inr (default_dir_perm, refl))

  extract_dir-Adds : (target : Text) (perm : ℕ) → Adds (Within target) (extract_dir fs target perm)
  unfolding extract_dir
  extract_dir-Adds target perm =
      on_target-Adds target (mkdir_all target (if perm == 0 then default_dir_perm else perm))
        (create_directory target) refl

  extract_reg-Adds :
      (target : Text) (perm : ℕ) (body : Text)
      → Adds (Within target) (extract_reg fs target perm body)
  extract_reg-Adds target perm body =
      let P = Within target in
      let create = perform fs (open_file target restrictive_file_perm) (create_file target) in
      let copy = perform fs (copy_body target body) (copy_file target) in
      let mode : M W =
        if perm == 0 then done else perform fs (chmod target perm) (chmod_file target) in
      let remove = remove_regular fs target in
      unfold extract_reg in
      >>-Adds P (perform fs (mkdir_all (dir_of target) default_dir_perm) (create_parent target))
        (remove >> (create >> (copy >> mode))) (parent-Adds target)
        (>>-Adds P remove (create >> (copy >> mode)) (remove_regular-Adds target) (
          >>-Adds P create (copy >> mode)
            (on_target-Adds target (open_file target restrictive_file_perm) (create_file target)
              refl)
            (>>-Adds P copy mode
              (on_target-Adds target (copy_body target body) (copy_file target) refl)
              (if-Adds P (perm == 0) done (perform fs (chmod target perm) (chmod_file target))
                (done-Adds P)
                (on_target-Adds target (chmod target perm) (chmod_file target) refl)))))

  extract_typed-Adds :
      (h : TarHeader) (t : TypeFlag) (target : Text)
      → Adds (Within target) (extract_typed fs h t target)
  unfolding extract_typed
  extract_typed-Adds h type_dir target = extract_dir-Adds target h.perm
  extract_typed-Adds h type_reg target = extract_reg-Adds target h.perm h.body
  extract_typed-Adds h type_symlink target = fail-Adds (Within target) unsupported_entry
  extract_typed-Adds h type_link target = fail-Adds (Within target) unsupported_entry
  extract_typed-Adds h type_char target = fail-Adds (Within target) unsupported_entry
  extract_typed-Adds h type_block target = fail-Adds (Within target) unsupported_entry
  extract_typed-Adds h type_fifo target = fail-Adds (Within target) unsupported_entry
  extract_typed-Adds h (other_type n) target = fail-Adds (Within target) unsupported_entry

  extract_zip_file-Adds :
      (target : Text) (perm : ℕ) (content : Option Text)
      → Adds (Within target) (extract_zip_file fs target perm content)
  extract_zip_file-Adds target perm content =
      let P = Within target in
      let mode = if perm == 0 then restrictive_file_perm else perm in
      let create = perform fs (open_file target mode) (create_file target) in
      let copy : M W = elim content [
        | none ↦ fail (open_entry target)
        | some body ↦ perform fs (copy_body target body) (copy_file target)
      ] in
      unfold extract_zip_file in
      >>-Adds P (perform fs (mkdir_all (dir_of target) default_dir_perm) (create_parent target))
        (create >> copy) (parent-Adds target)
        (>>-Adds P create copy
          (on_target-Adds target (open_file target mode) (create_file target) refl)
          (copied content))
    where
      copied :
          (content : Option Text)
          → Adds (Within target) (elim content [
            | none ↦ fail (open_entry target)
            | some body ↦ perform fs (copy_body target body) (copy_file target)
          ])
      copied none = fail-Adds (Within target) (open_entry target)
      copied (some body) = on_target-Adds target (copy_body target body) (copy_file target) refl

  extract_zip_entry-Adds :
      (e : ZipEntry) (target : Text) → Adds (Within target) (extract_zip_entry fs e target)
  unfolding extract_zip_entry
  extract_zip_entry-Adds e target =
      if-Adds (Within target) e.is_dir (extract_dir fs target e.perm)
        (extract_zip_file fs target e.perm e.content) (extract_dir-Adds target e.perm)
        (extract_zip_file-Adds target e.perm e.content)

  -- A step keeps what is known of the log.
  abbrev Keeps : Text → M W → Type 0
  Keeps dest m =
      (s : ExtractState W)
      → Tracked s
      → Guarded dest s.log
      → Tracked (m s).1 × Guarded dest (m s).1.log

  Guarded-append :
      (dest target : Text) (new before : List Effect)
      → Confined (fs.lstat (replay before)) dest target
      → All (Within target) new
      → Guarded dest before
      → Guarded dest (new ++ before)
  Guarded-append dest target [] before c w g = g
  Guarded-append dest target (e ∷ new) before c w g =
      ((target, new, before, refl, c, w.0, w.1), Guarded-append dest target new before c w.1 g)

  resolved :
      (r : ArchiveError ⊎ Text)
      → ((e : ArchiveError) × (r ≡ inl e)) ⊎ ((target : Text) × (r ≡ inr target))
  resolved (inl e) = inl (e, refl)
  resolved (inr target) = inr (target, refl)

  at_target-Keeps :
      (dest name : Text) (k : Text → M W)
      → ((target : Text) → Adds (Within target) (k target))
      → Keeps (clean dest) (at_target fs dest name k)
  at_target-Keeps dest name k f s t g =
      elim (resolved (secure_extract_path (fs.lstat s.world) dest name)) [
        | inl (e, p) ↦ rw (at_target-inl fs dest name k s e p) (t, g)
        | inr (target, p) ↦
            let (new, log, within, t') = f target s t in
            let c = secure_extract_path-Confined (fs.lstat s.world) dest name target p in
            let c' = subst (λ w. Confined (fs.lstat w) (clean dest) target) t c in
            rw (at_target-inr fs dest name k s target p) (
              t',
              subst (Guarded (clean dest)) (sym log)
                  (Guarded-append (clean dest) target new s.log c' within g),
            )
      ]

  >>-Keeps : (dest : Text) (m k : M W) → Keeps dest m → Keeps dest k → Keeps dest (m >> k)
  >>-Keeps dest m k f g s t h = after (m s) (f s t h)
    where
      after :
          (r : (ExtractError ⊎ Unit {0}) × ExtractState W)
          → Tracked r.1 × Guarded dest r.1.log
          → Tracked (go_on r k).1 × Guarded dest (go_on r k).1.log
      after (inl e, s') q = q
      after (inr u, s') q = g s' q.0 q.1

  untar_entries-Keeps :
      (dest : Text) (reads : List TarRead) → Keeps (clean dest) (untar_entries fs dest reads)
  unfolding untar_entries
  untar_entries-Keeps dest [] s t g = (t, g)
  untar_entries-Keeps dest (next_failed ∷ reads) s t g = (t, g)
  untar_entries-Keeps dest (entry h ∷ reads) s t g =
      >>-Keeps (clean dest) (at_target fs dest h.name (extract_typed fs h h.typeflag))
        (untar_entries fs dest reads)
        (at_target-Keeps dest h.name (extract_typed fs h h.typeflag)
          (extract_typed-Adds h h.typeflag))
        (untar_entries-Keeps dest reads) s t g

  unzip_entries-Keeps :
      (dest : Text) (es : List ZipEntry) → Keeps (clean dest) (unzip_entries fs dest es)
  unfolding unzip_entries
  unzip_entries-Keeps dest [] s t g = (t, g)
  unzip_entries-Keeps dest (e ∷ es) s t g =
      >>-Keeps (clean dest) (at_target fs dest e.name (extract_zip_entry fs e))
        (unzip_entries fs dest es)
        (at_target-Keeps dest e.name (extract_zip_entry fs e) (extract_zip_entry-Adds e))
        (unzip_entries-Keeps dest es) s t g

-- However UntarGz ends, each of its effects on the file system is on a target, or creates the directory
-- that the target stands in. A target is the cleaned destination itself, whose directory lies outside
-- it, or lies below it by safe parts. It was resolved and checked for symlinks in the state of the file
-- system that the effects before it left, with only effects on or for the same target since.
pub untar_gz-Guarded :
    {W : Type 0} (fs : FileSystem W) (start : W) (opens is_gzip : Bool) (reads : List TarRead)
    (dest : Text)
    → Guarded fs start
        (clean dest)
        (untar_gz fs opens is_gzip reads dest (record { world = start; log = [] })).1.log
unfolding untar_gz
untar_gz-Guarded fs start false is_gzip reads dest = tt
untar_gz-Guarded fs start true false reads dest = tt
untar_gz-Guarded fs start true true reads dest =
    (untar_entries-Keeps fs start dest reads (record { world = start; log = [] }) refl tt).1

-- The same of Unzip.
pub unzip-Guarded :
    {W : Type 0} (fs : FileSystem W) (start : W) (opens : Bool) (es : List ZipEntry) (dest : Text)
    → Guarded fs start
        (clean dest)
        (unzip fs opens es dest (record { world = start; log = [] })).1.log
unfolding unzip
unzip-Guarded fs start false es dest = tt
unzip-Guarded fs start true es dest =
    (unzip_entries-Keeps fs start dest es (record { world = start; log = [] }) refl tt).1
