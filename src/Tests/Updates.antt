-- ===== src/Tests/Updates.antt =====
-- tuntop/config/updates.py at concrete inputs.
use tun_top.Prelude.{
  ◌≡◌, ◌<◌, refl, ◌⊎◌, ◌↔◌, ℕ, zero, suc, true, false, Option, none, some, List, [], ◌∷◌, ◌++◌,
  if◌then◌else◌, String, str_eq, All, starts_with,
}
use tun_top.Prelude.Text.{lstrip, rstrip, is_space, strip, strip_prefix, digits_value}
use tun_top.Prelude.Results.{ok}
use tun_top.Updates.{
  version_key, version_gt, key_gt, split_on, all_digits, is_version, parse_version, pieces, words,
  splitlines, is_hex_of, lstrip_star, checksum_line, add_lines, parse_checksums, digest_of,
}
use tun_top.Updates.Order.{version_text, version_gt_iff}
use tun_top.Updates.Release.{
  Parts, Reply, answered, Metadata, Info, is_in, assert_allowed_url, fetch, find_url, url_of,
  standalone_zip_name, check_latest,
}
use tun_top.Updates.Archive.{
  Member, Effects, Zip, Folder, little, same_bytes, verify_pe_header, is_absolute, is_symlink,
  escapes, safe_extract, find_exe, staged_exe, exe_in, verified_zip, download_release,
  prepare_update,
}
use tun_top.Updates.Guard.{IsInside, safe_extract_iff}
use tun_top.Updates.Staged.{IsDownload, download_release-IsDownload}
use tun_top.Updates.Newer.{IsUpdate, prepare_update-IsUpdate}

version_gt_iff_example :
    (version_gt (version_text "1" "10" "0") (version_text "1" "9" "9") ≡ true)
    ↔ ((1 < 1) ⊎ ((◌≡◌ {A = ℕ} 1 1) × ((9 < 10) ⊎ ((◌≡◌ {A = ℕ} 10 9) × (9 < 0)))))
unfolding all_digits digits_value
version_gt_iff_example =
    version_gt_iff "1" "10" "0" "1" "9" "9" 1 10 0 1 9 9 (refl, refl) (refl, refl) (refl, refl)
      (refl, refl) (refl, refl) (refl, refl)

resolve_in : String → String
resolve_in name =
    if str_eq name "TunTop/TunTop.exe"
    then "C:\\s\\TunTop\\TunTop.exe"
    else "C:\\Windows\\system.dll"

abbrev exe_member : Member
exe_member = record { filename = "TunTop/TunTop.exe"; external_attr = 0 }

abbrev slip_member : Member
slip_member = record { filename = "../../Windows/system.dll"; external_attr = 0 }

safe_extract_iff_example :
    (safe_extract "C:\\s" resolve_in "\\" (exe_member ∷ slip_member ∷ []) ≡ ok tt)
    ↔ All (IsInside "C:\\s" resolve_in "\\") (exe_member ∷ slip_member ∷ [])
safe_extract_iff_example = safe_extract_iff "C:\\s" resolve_in "\\" (exe_member ∷ slip_member ∷ [])

zeros : ℕ → List ℕ
zeros zero = []
zeros (suc n) = 0 ∷ zeros n

-- A header that passes.
exe_bytes : List ℕ
exe_bytes = 77 ∷ 90 ∷ (zeros 58 ++ (64 ∷ 0 ∷ 0 ∷ 0 ∷ 80 ∷ 69 ∷ 0 ∷ 0 ∷ 100 ∷ 134 ∷ []))

on_github : String → Option Parts
on_github url = some (record { scheme = "https"; host = "github.com" })

same_text : String → String
same_text s = s

replies : String → Reply
replies url = answered (record { url = url; status = 200; body = 1 ∷ [] })

abbrev hex : String
hex = "0123456789abcdef0123456789abcdef0123456789abcdef0123456789abcdef"

sums_text : List ℕ → String
sums_text bytes =
    "0123456789abcdef0123456789abcdef0123456789abcdef0123456789abcdef  TunTop-1.2.0-x64-standalone.zip  (1 bytes)\n"

digest_text : List ℕ → String
digest_text bytes = hex

-- The executable lies at the root of the archive.
flat_zip : List ℕ → Option Zip
flat_zip bytes = some (record {
  members = exe_member ∷ [];
  extracts = true;
  files = record { base = ""; name = "TunTop.exe"; content = exe_bytes } ∷ [];
})

feed : List ℕ → Option Metadata
feed bytes = some (record {
  draft = false;
  prerelease = false;
  tag_name = "v1.2.0";
  assets =
      (
        "TunTop-1.2.0-x64-standalone.zip",
        "https://github.com/kooshaZP/TunTop/releases/download/v1.2.0/TunTop-1.2.0-x64-standalone.zip",
      )
      ∷ (
        "checksums.txt",
        "https://github.com/kooshaZP/TunTop/releases/download/v1.2.0/checksums.txt",
      )
      ∷ [];
})

abbrev no_folder : Folder
no_folder = record { target = none; staging = none }

abbrev offered : Info
offered = record {
  version = "1.2.0";
  current = "1.1.0";
  update_available = true;
  zip_name = "TunTop-1.2.0-x64-standalone.zip";
  zip_url =
      "https://github.com/kooshaZP/TunTop/releases/download/v1.2.0/TunTop-1.2.0-x64-standalone.zip";
  checksum_url = "https://github.com/kooshaZP/TunTop/releases/download/v1.2.0/checksums.txt";
}

-- Every removal and the replacement work.
abbrev works : Effects
works = record {
  discards = λ o. none;
  clears_target = λ o. none;
  clears_staging = λ o. none;
  staging_left = none;
  merged = λ old new. new;
  replaces = true;
}

download_release-IsDownload_example :
    IsDownload on_github same_text replies sums_text digest_text flat_zip "C:\\s" resolve_in "\\"
      works offered no_folder
      (download_release on_github same_text replies sums_text digest_text flat_zip "C:\\s"
        resolve_in "\\" works offered no_folder)
download_release-IsDownload_example =
    download_release-IsDownload on_github same_text replies sums_text digest_text flat_zip "C:\\s"
      resolve_in "\\" works offered no_folder

prepare_update-IsUpdate_example :
    IsUpdate on_github same_text replies sums_text digest_text flat_zip "C:\\s" resolve_in "\\" feed
      works "1.1.0" no_folder
      (prepare_update on_github same_text replies sums_text digest_text flat_zip "C:\\s" resolve_in
        "\\" feed works "1.1.0" no_folder)
prepare_update-IsUpdate_example =
    prepare_update-IsUpdate on_github same_text replies sums_text digest_text flat_zip "C:\\s"
      resolve_in "\\" feed works "1.1.0" no_folder

-- The version is reported as staged, with no executable at the path that is reported.
staged_test :
    (let r =
        prepare_update on_github same_text replies sums_text digest_text flat_zip "C:\\s" resolve_in
          "\\" feed works "1.1.0" no_folder in
      (r.0 ≡ ok (some (record { version = "1.2.0"; sha256 = hex }))) × (exe_in r.1.target ≡ none))
unfolding prepare_update check_latest parse_version is_version split_on all_digits strip lstrip
    rstrip is_space fetch assert_allowed_url on_github is_in same_text replies find_url url_of
    standalone_zip_name starts_with strip_prefix version_gt version_key key_gt digits_value feed
    download_release verified_zip parse_checksums sums_text splitlines pieces words is_hex_of
    lstrip_star checksum_line add_lines digest_of digest_text flat_zip safe_extract is_absolute
    escapes is_symlink resolve_in find_exe verify_pe_header exe_bytes zeros little same_bytes
    staged_exe
staged_test = (refl, refl)
