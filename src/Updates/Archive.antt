-- ===== src/Updates/Archive.antt =====
-- tuntop/config/updates.py: the checks on what was downloaded, and its staging.
use Prim.Native.Nat.{bit_and}
use Prim.Native.Char.{code}
use tun_top.Prelude.{
  ℕ, ◌+◌, ◌*◌, ◌/◌, Bool, true, false, not, ◌&&◌, ◌||◌, Option, none, some, List, [], ◌∷◌, ltb,
  ◌==◌, if◌then◌else◌, length, take, drop, String, is_empty, str_eq, starts_with, ◌<>◌,
}
use tun_top.Prelude.Results.{Result, ok, err, ◌>>=◌}
use tun_top.Updates.{
  UpdateError, bad_tag, draft_release, no_answer, no_checksum_line, checksum_mismatch, not_pe,
  no_pe_header, not_x64, absolute_member, escaping_member, symlink_member, bad_archive, no_exe,
  not_replaced, parse_checksums, digest_of,
}
use tun_top.Updates.Release.{Parts, Metadata, Info, Reply, fetch, check_latest}

-- `int.from_bytes(bs, "little")`
unfoldable pub little : List ℕ → ℕ
little [] = 0
little (b ∷ bs) = b + 256 * little bs

abbrev pub slice : ℕ → ℕ → List ℕ → List ℕ
slice a n xs = take n (drop a xs)

unfoldable pub same_bytes : List ℕ → List ℕ → Bool
same_bytes [] [] = true
same_bytes [] (y ∷ ys) = false
same_bytes (x ∷ xs) [] = false
same_bytes (x ∷ xs) (y ∷ ys) = x == y && same_bytes xs ys

abbrev pub pe_offset : List ℕ → ℕ
pe_offset blob = little (slice 60 4 blob)

unfoldable pub verify_pe_header : List ℕ → Result UpdateError (Unit {0})
verify_pe_header blob =
    if ltb (length blob) 64 || not (same_bytes (take 2 blob) (b'M' ∷ b'Z' ∷ []))
    then err not_pe
    else if pe_offset blob == 0
        || ltb (length blob) (pe_offset blob + 6)
        || not (same_bytes (slice (pe_offset blob) 4 blob) (b'P' ∷ b'E' ∷ 0 ∷ 0 ∷ []))
    then err no_pe_header
    else if not (little (slice (pe_offset blob + 4) 2 blob) == 34404)
    then err not_x64
    else ok tt

-- A member of the archive: its name, and its external attributes.
pub record Member : Type 0 where
  pub filename : String
  pub external_attr : ℕ

-- `name.startswith("/") or name.startswith("\\") or (len(name) > 1 and name[1] == ":")`
abbrev drive_colon : String → Bool
drive_colon String.[] = false
drive_colon (String.◌∷◌ c String.[]) = false
drive_colon (String.◌∷◌ c (String.◌∷◌ d s)) = code d == b':'

abbrev first_is : ℕ → String → Bool
first_is k String.[] = false
first_is k (String.◌∷◌ c s) = code c == k

unfoldable pub is_absolute : String → Bool
is_absolute name = first_is b'/' name || first_is 92 name || drive_colon name

-- `(info_.external_attr >> 16) & 0xA000 == 0xA000`
unfoldable pub is_symlink : ℕ → Bool
is_symlink attr = bit_and (attr / 65536) 40960 == 40960

-- `resolve` is `os.path.realpath(os.path.join(root, name))`, and `root` is resolved too.
module _ (root : String) (resolve : String → String) (sep : String) where
  unfoldable pub escapes : String → Bool
  escapes target = not (str_eq target root) && not (starts_with target (root <> sep))

  abbrev pub check_member : Member → Result UpdateError (Unit {0})
  check_member m =
      if is_absolute m.filename
      then err (absolute_member m.filename)
      else if escapes (resolve m.filename)
      then err (escaping_member m.filename)
      else if is_symlink m.external_attr
      then err (symlink_member m.filename)
      else ok tt

  unfoldable pub safe_extract : List Member → Result UpdateError (Unit {0})
  safe_extract [] = ok tt
  safe_extract (m ∷ ms) = check_member m >>= λ _. safe_extract ms

-- A file: the folder below the root, the name, and the bytes.
pub record File : Type 0 where
  pub base : String
  pub name : String
  pub content : List ℕ

-- An archive that opens: its members; whether `extractall` works; and the files that it makes, as
-- `os.walk` meets them.
pub record Zip : Type 0 where
  pub members : List Member
  pub extracts : Bool
  pub files : List File

abbrev pub exe_name : String
exe_name = "TunTop.exe"

-- The first `TunTop.exe` that is met.
unfoldable pub find_exe : List File → Option (List ℕ)
find_exe [] = none
find_exe (f ∷ fs) =
    let later = find_exe fs in if str_eq f.name exe_name then some f.content else later

-- `staged_exe`, if it is a file: `TunTop/TunTop.exe` below the folder of the version.
unfoldable pub staged_exe : List File → Option (List ℕ)
staged_exe [] = none
staged_exe (f ∷ fs) =
    let later = staged_exe fs in
    if str_eq f.base "TunTop" && str_eq f.name exe_name then some f.content else later

-- The folder of the version, and the staging folder beside it, each with its files if it exists.
pub record Folder : Type 0 where
  pub target : Option (List File)
  pub staging : Option (List File)

-- What `StagedUpdate` says beside the path.
pub record StagedUpdate : Type 0 where
  pub version : String
  pub sha256 : String

abbrev pub Staging : Type 0
Staging = Result UpdateError StagedUpdate × Folder

-- What the calls on the folders do. `_rmtree` is best effort: what it leaves of the folder of the
-- version, when a bad executable is discarded and when the new folder is to take its place; of an
-- old staging folder; and of the staging folder of an attempt that failed. Each leaves nothing where
-- it works. `merged` is what `os.walk` meets after an archive is extracted over files that are there
-- already, and `replaces` is whether `os.replace` works.
pub record Effects : Type 0 where
  pub discards : Option (List File) → Option (List File)
  pub clears_target : Option (List File) → Option (List File)
  pub clears_staging : Option (List File) → Option (List File)
  pub staging_left : Option (List File)
  pub merged : List File → List File → List File
  pub replaces : Bool

-- `except Exception: _rmtree(staging); raise`
abbrev pub give_up : Effects → Folder → UpdateError → Staging
give_up fx d e = (err e, record { target = d.target; staging = fx.staging_left })

-- `_rmtree(target_dir)` and `os.replace(staging, target_dir)`, which may raise.
abbrev pub move_in : Effects → StagedUpdate → Folder → List File → Staging
move_in fx staged d files =
    if fx.replaces
    then (ok staged, record { target = some files; staging = none })
    else give_up fx (record { target = fx.clears_target d.target; staging = some files })
        not_replaced

abbrev pub after_header :
    Effects → StagedUpdate → Folder → List File → Result UpdateError (Unit {0}) → Staging
after_header fx staged d files (err e) = give_up fx d e
after_header fx staged d files (ok u) = move_in fx staged d files

abbrev pub after_exe : Effects → StagedUpdate → Folder → List File → Option (List ℕ) → Staging
after_exe fx staged d files none = give_up fx d no_exe
after_exe fx staged d files (some exe) =
    after_header fx staged d files (verify_pe_header (take 512 exe))

-- `zf.extractall(staging)`, over what the removal of an old staging folder left.
abbrev extracted_over : Effects → Option (List File) → List File → List File
extracted_over fx none files = files
extracted_over fx (some old) files = fx.merged old files

abbrev pub extracted : Effects → Folder → Zip → List File
extracted fx d zip = extracted_over fx (fx.clears_staging d.staging) zip.files

abbrev pub after_check :
    Effects → StagedUpdate → Folder → Zip → Result UpdateError (Unit {0}) → Staging
after_check fx staged d zip (err e) = give_up fx d e
after_check fx staged d zip (ok u) =
    if not zip.extracts
    then give_up fx d bad_archive
    else after_exe fx staged d (extracted fx d zip) (find_exe (extracted fx d zip))

-- `safe` is `_safe_extract` on the members.
abbrev pub unpack :
    (List Member → Result UpdateError (Unit {0}))
    → Effects
    → StagedUpdate
    → Folder
    → Option Zip
    → Staging
unpack safe fx staged d none = give_up fx d bad_archive
unpack safe fx staged d (some zip) = after_check fx staged d zip (safe zip.members)

abbrev pub reuse_exe :
    (Folder → Staging) → Effects → StagedUpdate → Folder → Result UpdateError (Unit {0}) → Staging
reuse_exe again fx staged d (ok u) = (ok staged, d)
reuse_exe again fx staged d (err e) =
    again (record { target = fx.discards d.target; staging = d.staging })

-- What is there from an earlier attempt: kept if its exe is one, discarded otherwise. `again` is
-- the rest of the code.
abbrev pub reuse : (Folder → Staging) → Effects → StagedUpdate → Folder → Option (List ℕ) → Staging
reuse again fx staged d none = again d
reuse again fx staged d (some exe) = reuse_exe again fx staged d (verify_pe_header (take 512 exe))

abbrev pub exe_in : Option (List File) → Option (List ℕ)
exe_in none = none
exe_in (some files) = staged_exe files

abbrev pub max_zip_bytes : ℕ
max_zip_bytes = 128 * 1024 * 1024

abbrev pub max_checksum_bytes : ℕ
max_checksum_bytes = 64 * 1024

-- The digest of the bytes against the one that is published.
abbrev pub compare_digest : String → Option String → Result UpdateError String
compare_digest actual none = err no_checksum_line
compare_digest actual (some expected) =
    if is_empty expected
    then err no_checksum_line
    else if not (str_eq actual expected)
    then err checksum_mismatch
    else ok actual

-- The errors of the question that mean that there is nothing to do.
abbrev pub is_quiet : UpdateError → Bool
is_quiet (bad_tag tag) = true
is_quiet draft_release = true
is_quiet no_answer = true
is_quiet e = false

abbrev pub quiet : UpdateError → Result UpdateError (Option StagedUpdate)
quiet e = if is_quiet e then ok none else err e

abbrev pub some_staged : Staging → Result UpdateError (Option StagedUpdate) × Folder
some_staged (ok staged, d) = (ok (some staged), d)
some_staged (err e, d) = (err e, d)

-- `split`, `lower` and `send` as for a request; `decode` is UTF-8 with replacement; `digest` is
-- `hashlib.sha256(…).hexdigest()`; `unzip` opens an archive, `none` where it raises; `root`,
-- `resolve` and `sep` as for `safe_extract`, with the staging folder as the root.
module _ (split : String → Option Parts) (lower : String → String) (send : String → Reply)
    (decode : List ℕ → String) (digest : List ℕ → String) (unzip : List ℕ → Option Zip)
    (root : String) (resolve : String → String) (sep : String) where
  -- The first half: the bytes whose digest is the published one.
  unfoldable pub verified_zip : Info → Result UpdateError (List ℕ × String)
  verified_zip info = fetch split lower send info.zip_url max_zip_bytes >>= λ blob.
      fetch split lower send info.checksum_url max_checksum_bytes >>= λ sums.
      compare_digest (digest blob) (digest_of (parse_checksums lower (decode sums)) info.zip_name)
      >>= λ actual. ok (blob, actual)

  abbrev pub stage : Effects → Info → Folder → Result UpdateError (List ℕ × String) → Staging
  stage fx info d (err e) = (err e, d)
  stage fx info d (ok (blob, actual)) =
      let staged : StagedUpdate = record { version = info.version; sha256 = actual } in
      reuse (λ f. unpack (safe_extract root resolve sep) fx staged f (unzip blob)) fx staged d
        (exe_in d.target)

  unfoldable pub download_release : Effects → Info → Folder → Staging
  download_release fx info d = stage fx info d (verified_zip info)

  abbrev pub act :
      Effects → Folder → Result UpdateError Info → Result UpdateError (Option StagedUpdate) × Folder
  act fx d (err e) = (quiet e, d)
  act fx d (ok info) =
      if not info.update_available then (ok none, d) else some_staged (download_release fx info d)

  unfoldable pub prepare_update :
      (List ℕ → Option Metadata)
      → Effects
      → String
      → Folder
      → Result UpdateError (Option StagedUpdate) × Folder
  prepare_update parse fx current_version d =
      act fx d (check_latest split lower send parse current_version)
