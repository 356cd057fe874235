-- ===== src/Integrity.antt =====
-- tuntop/core/integrity.py: the check of the binaries before they are run.
pub mod Launch
use tun_top.Prelude.{
  ◌≡◌, refl, ℕ, Bool, true, false, not, ◌&&◌, ◌||◌, Option, none, some, List, [], ◌∷◌, ◌++◌,
  if◌then◌else◌, String, ◌<>◌, is_empty, or_text, str_eq,
}
use tun_top.Prelude.Results.{Result, ok, err}

pub data Status : Type 0 where
  verified : Status
  missing : Status
  mismatch : Status

pub record BinaryReport : Type 0 where
  pub name : String
  pub path : String
  pub status : Status
  pub expected : String
  pub actual : String
  pub size : ℕ

-- `BinaryReport.ok`
unfoldable pub report_ok : BinaryReport → Bool
report_ok r = elim r.status [ verified ↦ true | missing ↦ false | mismatch ↦ false ]

-- The files, with the calls that may raise OSError, and the operations on paths and texts: the last
-- part of a path, and the library's path beside a binary, in the package and in the working folder.
pub record Files : Type 0 where
  pub is_file : String → Bool
  pub sha256_of : String → Result String String
  pub getsize : String → Result String ℕ
  pub basename : String → String
  pub beside : String → String
  pub in_package : String
  pub in_cwd : String
  pub lower : String → String

abbrev pub Pins : Type 0
Pins = List (String × String)

-- `PINNED_BINARIES`
abbrev pub pinned_binaries : Pins
pinned_binaries =
    (
      "tun2socks-windows-amd64-v3.exe",
      "f08d327819f722da3ee3f591cb7e9e36b06640a92b3f63f5073a454be29be35f",
    )
    ∷ ("wintun.dll", "e5da8447dc2c320edc0fc52fa01885c103de8c118481f683643cacc3220dafce")
    ∷ []

-- `pins.get(name, "")`
unfoldable pub pin_of : Pins → String → String
pin_of [] name = ""
pin_of (row ∷ pins) name =
    let later = pin_of pins name in if str_eq row.0 name then row.1 else later

-- What the launch prints: the name and digest of a report (of which the first 16 digits are shown),
-- its name and path, and the last lines.
pub data Message : Type 0 where
  integrity_verified : String → String → Message
  not_found : String → String → Message
  sha_mismatch : String → String → Message
  expected_line : String → Message
  actual_line : String → Message
  launching_anyway : Message
  refusing : Message

abbrev messages_for : BinaryReport → Status → List Message
messages_for r verified = integrity_verified r.name r.actual ∷ []
messages_for r missing = not_found r.name r.path ∷ []
messages_for r mismatch =
    sha_mismatch r.name r.path ∷ expected_line r.expected ∷ actual_line r.actual ∷ []

module _ (fs : Files) where
  abbrev missing_report : String → String → BinaryReport
  missing_report path pin = record {
    name = if is_empty path then "(none)" else fs.basename path;
    path = or_text path "(not given)";
    status = missing;
    expected = fs.lower pin;
    actual = "";
    size = 0;
  }

  abbrev unreadable : String → String → String → BinaryReport
  unreadable path pin e = record {
    name = fs.basename path;
    path = path;
    status = mismatch;
    expected = fs.lower pin;
    actual = "unreadable (" <> e <> ")";
    size = 0;
  }

  -- The comparison, once the digest and the size are read.
  abbrev pub compared : String → String → Result String String → Result String ℕ → BinaryReport
  compared path pin (err e) n = unreadable path pin e
  compared path pin (ok digest) (err e) = unreadable path pin e
  compared path pin (ok digest) (ok n) = record {
    name = fs.basename path;
    path = path;
    status = if str_eq (fs.lower digest) (fs.lower pin) then verified else mismatch;
    expected = fs.lower pin;
    actual = digest;
    size = n;
  }

  unfoldable pub verify_file : String → String → BinaryReport
  verify_file path pin =
      if is_empty path || not (fs.is_file path)
      then missing_report path pin
      else compared path pin (fs.sha256_of path) (fs.getsize path)

  unfoldable pub first_file : List String → Option String
  first_file [] = none
  first_file (c ∷ cs) = let later = first_file cs in if fs.is_file c then some c else later

  unfoldable pub locate_wintun : String → Option String
  locate_wintun tun2socks_path = first_file (
      (if is_empty tun2socks_path then [] else fs.beside tun2socks_path ∷ [])
      ++ fs.in_package ∷ fs.in_cwd ∷ [])

  -- The library that is checked: the one that is given, or the one that is found.
  unfoldable pub wintun_or_located : String → String → Option String
  wintun_or_located tun2socks_path wintun_path =
      if is_empty wintun_path then locate_wintun tun2socks_path else some wintun_path

  abbrev pub wintun_report : String → Option String → BinaryReport
  wintun_report pin (some path) = verify_file path pin
  wintun_report pin none = record {
    name = "wintun.dll";
    path = "(not found)";
    status = missing;
    expected = pin;
    actual = "";
    size = 0;
  }

  unfoldable pub tun2socks_pin : Pins → String → String
  tun2socks_pin pins path =
      or_text (pin_of pins (if is_empty path then "tun2socks" else fs.basename path))
        (pin_of pins "tun2socks-windows-amd64-v3.exe")

  -- Whether the launch may go on, the reports, and the messages.
  unfoldable pub concluded :
      Bool → BinaryReport → BinaryReport → Bool × List BinaryReport × List Message
  concluded trust t w =
      let both = report_ok t && report_ok w in
      let lines = messages_for t t.status ++ messages_for w w.status in
      (
        both || trust,
        t ∷ w ∷ [],
        lines ++ (if both then [] else if trust then launching_anyway ∷ [] else refusing ∷ []),
      )

  unfoldable pub verify_for_launch :
      Pins → String → String → Bool → Bool × List BinaryReport × List Message
  verify_for_launch pins tun2socks_path wintun_path trust =
      concluded trust (verify_file tun2socks_path (tun2socks_pin pins tun2socks_path))
        (wintun_report (pin_of pins "wintun.dll") (wintun_or_located tun2socks_path wintun_path))
