-- ===== src/Updates/Staged.antt =====
-- What `download_release` of tuntop/config/updates.py stages, and what it leaves when it fails.
use tun_top.Prelude.{
  ◌≡◌, refl, sym, ap, subst, ◌⊎◌, inl, inr, ℕ, not, Option, none, some, List, if◌then◌else◌,
  Bool-cases, take, String, All, is_empty, str_eq, eq_iff,
}
use tun_top.Prelude.Results.{Result, ok, err, Gives, bind-Gives}
use tun_top.Updates.{UpdateError, bad_archive, not_replaced, digest_of, parse_checksums}
use tun_top.Updates.Release.{Parts, Reply, Info, fetch}
use tun_top.Updates.Archive.{
  Effects, File, extracted, compare_digest, max_zip_bytes, max_checksum_bytes, Zip, Folder,
  StagedUpdate, Staging, verify_pe_header, safe_extract, find_exe, exe_in, give_up, after_header,
  reuse_exe, after_exe, after_check, unpack, reuse, verified_zip, stage, download_release,
}
use tun_top.Updates.Guard.{IsInside, safe_extract_iff}

-- An executable for x64, as far as its header tells.
abbrev pub HasExe : Option (List ℕ) → Type 0
HasExe o = (exe : List ℕ) × (o ≡ some exe) × (verify_pe_header (take 512 exe) ≡ ok tt)

-- The folder of the version is as it was, or what its removal before a replacement leaves.
abbrev pub IsCleared : Effects → Option (List File) → Option (List File) → Type 0
IsCleared fx before after = (after ≡ before) ⊎ (after ≡ fx.clears_target before)

-- The same, from the folder as it was, or from what the removal of a bad executable leaves of it.
abbrev pub IsLeft : Effects → Folder → Folder → Type 0
IsLeft fx d after =
    IsCleared fx d.target after.target ⊎ IsCleared fx (fx.discards d.target) after.target

module _ (root : String) (resolve : String → String) (sep : String) where
  -- A folder that holds exactly the files of a guarded archive, among them an executable, extracted
  -- over what the removal of an old staging folder left.
  abbrev pub IsUnpacked : Effects → Folder → Option Zip → Folder → Type 0
  IsUnpacked fx d opened after =
      (zip : Zip) × (opened ≡ some zip)
      × All (IsInside root resolve sep) zip.members
      × HasExe (find_exe (extracted fx d zip))
      × (after ≡ record { target = some (extracted fx d zip); staging = none })

  abbrev Unpacked : Effects → StagedUpdate → Folder → Option Zip → Staging → Type 0
  Unpacked fx staged d opened (ok s, after) = (s ≡ staged) × IsUnpacked fx d opened after
  Unpacked fx staged d opened (err e, after) = IsCleared fx d.target after.target

  module _ (fx : Effects) (staged : StagedUpdate) (d : Folder) where
    abbrev moved : Zip → Staging
    moved zip = (ok staged, record { target = some (extracted fx d zip); staging = none })

    abbrev kept : Staging
    kept =
        (err not_replaced, record { target = fx.clears_target d.target; staging = fx.staging_left })

    after_header-Unpacked :
        (zip : Zip) (exe : List ℕ) (x : Result UpdateError (Unit {0}))
        → All (IsInside root resolve sep) zip.members
        → find_exe (extracted fx d zip) ≡ some exe
        → verify_pe_header (take 512 exe) ≡ x
        → Unpacked fx staged d (some zip) (after_header fx staged d (extracted fx d zip) x)
    after_header-Unpacked zip exe (err e) hm f h = inl refl
    after_header-Unpacked zip exe (ok u) hm f h = elim (Bool-cases fx.replaces) [
      | inl r ↦
          subst (λ b. Unpacked fx staged d (some zip) (if b then moved zip else kept)) (sym r)
            (refl, (zip, refl, hm, (exe, f, h), refl))
      | inr r ↦
          subst (λ b. Unpacked fx staged d (some zip) (if b then moved zip else kept)) (sym r)
            (inr refl)
    ]

    after_exe-Unpacked :
        (zip : Zip) (exe : Option (List ℕ))
        → All (IsInside root resolve sep) zip.members
        → find_exe (extracted fx d zip) ≡ exe
        → Unpacked fx staged d (some zip) (after_exe fx staged d (extracted fx d zip) exe)
    after_exe-Unpacked zip none hm e = inl refl
    after_exe-Unpacked zip (some exe) hm e =
        after_header-Unpacked zip exe (verify_pe_header (take 512 exe)) hm e refl

    after_check-Unpacked :
        (zip : Zip) (x : Result UpdateError (Unit {0}))
        → safe_extract root resolve sep zip.members ≡ x
        → Unpacked fx staged d (some zip) (after_check fx staged d zip x)
    after_check-Unpacked zip (err e) h = inl refl
    after_check-Unpacked zip (ok u) h =
        let rest = after_exe fx staged d (extracted fx d zip) (find_exe (extracted fx d zip)) in
        elim (Bool-cases zip.extracts) [
          | inl a ↦
              subst
                (λ b.
                  Unpacked fx staged d (some zip)
                    (if not b then give_up fx d bad_archive else rest))
                (sym a)
                (after_exe-Unpacked zip (find_exe (extracted fx d zip))
                  ((safe_extract_iff root resolve sep zip.members).0 h) refl)
          | inr a ↦
              subst
                (λ b.
                  Unpacked fx staged d (some zip)
                    (if not b then give_up fx d bad_archive else rest))
                (sym a) (inl refl)
        ]

    unpack-Unpacked :
        (opened : Option Zip)
        → Unpacked fx staged d opened (unpack (safe_extract root resolve sep) fx staged d opened)
    unpack-Unpacked none = inl refl
    unpack-Unpacked (some zip) =
        after_check-Unpacked zip (safe_extract root resolve sep zip.members) refl

  -- What a call of the second half leaves: an earlier executable that is kept, or an archive that
  -- was unpacked.
  abbrev pub IsReady : Effects → Folder → Option Zip → Folder → Type 0
  IsReady fx d opened after =
      ((after ≡ d) × HasExe (exe_in d.target)) ⊎ IsUnpacked fx d opened after

  abbrev Ready : Effects → StagedUpdate → Folder → Option Zip → Staging → Type 0
  Ready fx staged d opened (ok s, after) = (s ≡ staged) × IsReady fx d opened after
  Ready fx staged d opened (err e, after) = IsLeft fx d after

  module _ (fx : Effects) (staged : StagedUpdate) (d : Folder) (opened : Option Zip) where
    unpacks : Folder → Staging
    unpacks f = unpack (safe_extract root resolve sep) fx staged f opened

    here-Ready : (r : Staging) → Unpacked fx staged d opened r → Ready fx staged d opened r
    here-Ready (ok s, after) h = (h.0, inr h.1)
    here-Ready (err e, after) h = inl h

    -- The folder after a bad executable is discarded
    abbrev discarded : Folder
    discarded = record { target = fx.discards d.target; staging = d.staging }

    discarded-Ready :
        (r : Staging) → Unpacked fx staged discarded opened r → Ready fx staged d opened r
    discarded-Ready (ok s, after) h = (h.0, inr h.1)
    discarded-Ready (err e, after) h = inr h

    reuse_exe-Ready :
        (exe : List ℕ) (x : Result UpdateError (Unit {0}))
        → exe_in d.target ≡ some exe
        → verify_pe_header (take 512 exe) ≡ x
        → Ready fx staged d opened (reuse_exe unpacks fx staged d x)
    unfolding unpacks
    reuse_exe-Ready exe (ok u) e h = (refl, inl (refl, (exe, e, h)))
    reuse_exe-Ready exe (err x) e h = discarded-Ready _ (unpack-Unpacked fx staged discarded opened)

    reuse-Ready :
        (o : Option (List ℕ))
        → exe_in d.target ≡ o
        → Ready fx staged d opened (reuse unpacks fx staged d o)
    unfolding unpacks
    reuse-Ready none e = here-Ready _ (unpack-Unpacked fx staged d opened)
    reuse-Ready (some exe) e = reuse_exe-Ready exe (verify_pe_header (take 512 exe)) e refl

-- The parameters of `download_release`.
module _ (split : String → Option Parts) (lower : String → String) (send : String → Reply)
    (decode : List ℕ → String) (digest : List ℕ → String) where
  abbrev pub IsPublished : Info → List ℕ × String → Type 0
  IsPublished info (blob, actual) =
      (sums : List ℕ) × (fetch split lower send info.zip_url max_zip_bytes ≡ ok blob)
      × (fetch split lower send info.checksum_url max_checksum_bytes ≡ ok sums)
      × (digest blob ≡ actual)
      × (digest_of (parse_checksums lower (decode sums)) info.zip_name ≡ some actual)

  Compared : String → Option String → String → Type 0
  Compared actual published r = (actual ≡ r) × (published ≡ some r)

  compare_digest-Gives :
      (actual : String) (published : Option String)
      → Gives (Compared actual published) (compare_digest actual published)
  unfolding Compared
  compare_digest-Gives actual none = tt
  compare_digest-Gives actual (some expected) = elim (Bool-cases (is_empty expected)) [
    | inl a ↦ rw a tt
    | inr a ↦ rw a (elim (Bool-cases (str_eq actual expected)) [
      | inl b ↦ rw b (refl, ap some (sym ((eq_iff actual expected).0 b)))
      | inr b ↦ rw b tt
    ])
  ]

  module _ (unzip : List ℕ → Option Zip) (root : String) (resolve : String → String)
      (sep : String) where
    verified_zip-IsPublished :
        (info : Info)
        → Gives
            (IsPublished info)
            (verified_zip split lower send decode digest unzip root resolve sep info)
    unfolding verified_zip Compared
    verified_zip-IsPublished info =
        bind-Gives _ (fetch split lower send info.zip_url max_zip_bytes) _ (λ blob f.
          bind-Gives _ (fetch split lower send info.checksum_url max_checksum_bytes) _ (λ sums g.
            bind-Gives _
              (compare_digest (digest blob)
                (digest_of (parse_checksums lower (decode sums)) info.zip_name))
              _
              (λ actual c.
                let published = digest_of (parse_checksums lower (decode sums)) info.zip_name in
                let (a, b) =
                  subst (Gives (Compared (digest blob) published)) c
                    (compare_digest-Gives (digest blob) published) in
                (sums, f, g, a, b))))

    -- The outcome of `download_release`, by its two branches.
    abbrev pub IsDownload : Effects → Info → Folder → Staging → Type 0
    IsDownload fx info d (ok staged, after) =
        (blob : List ℕ) × (verified_zip split lower send decode digest unzip root resolve sep info
          ≡ ok (blob, staged.sha256))
        × IsPublished info (blob, staged.sha256)
        × (staged.version ≡ info.version)
        × IsReady root resolve sep fx d (unzip blob) after
    IsDownload fx info d (err e, after) = IsLeft fx d after

    Ready-IsDownload :
        (fx : Effects) (info : Info) (d : Folder) (blob : List ℕ) (actual : String) (r : Staging)
        → verified_zip split lower send decode digest unzip root resolve sep info
          ≡ ok (blob, actual)
        → IsPublished info (blob, actual)
        → Ready root resolve sep fx
            (record { version = info.version; sha256 = actual })
            d
            (unzip blob)
            r
        → IsDownload fx info d r
    Ready-IsDownload fx info d blob actual (ok staged, after) e published h =
        subst (λ s. IsDownload fx info d (ok s, after)) (sym h.0) (blob, e, published, refl, h.1)
    Ready-IsDownload fx info d blob actual (err x, after) e published h = h

    stage-IsDownload :
        (fx : Effects) (info : Info) (d : Folder) (x : Result UpdateError (List ℕ × String))
        → verified_zip split lower send decode digest unzip root resolve sep info ≡ x
        → Gives (IsPublished info) x
        → IsDownload fx info d
            (stage split lower send decode digest unzip root resolve sep fx info d x)
    unfolding unpacks
    stage-IsDownload fx info d (err e) h g = inl (inl refl)
    stage-IsDownload fx info d (ok (blob, actual)) h g =
        Ready-IsDownload fx info d blob actual _ h g (
          reuse-Ready root resolve sep fx (record { version = info.version; sha256 = actual }) d
            (unzip blob) (exe_in d.target) refl)

    -- A download that succeeds has the archive whose digest checksums.txt publishes under its
    -- name, and the folder of the version either held an x64 executable before and is unchanged,
    -- or now holds the files of that archive, all of whose members stay below the staging folder,
    -- extracted over what the removal of an old staging folder left, nothing where it works, and
    -- one of these files is such an executable. One that fails leaves the folder of the version as
    -- it was, or as the removals of it leave it, which is without any file where they work.
    pub download_release-IsDownload :
        (fx : Effects) (info : Info) (d : Folder)
        → IsDownload fx info d
            (download_release split lower send decode digest unzip root resolve sep fx info d)
    unfolding download_release
    download_release-IsDownload fx info d =
        stage-IsDownload fx info d
          (verified_zip split lower send decode digest unzip root resolve sep info) refl
          (verified_zip-IsPublished info)
