-- ===== src/Tests/Integrity.antt =====
-- tuntop/core/integrity.py at concrete inputs.
use tun_top.Prelude.{String, ◌≡◌, ◌↔◌, ◌⊎◌, refl, true, false, ◌||◌, [], ◌∷◌, str_eq}
use tun_top.Prelude.Results.{ok}
use tun_top.Integrity.{
  Files, Pins, report_ok, pin_of, verify_file, first_file, locate_wintun, wintun_or_located,
  tun2socks_pin, concluded, verify_for_launch, integrity_verified,
}
use tun_top.Integrity.Launch.{IsPinned, IsLoaded, verify_for_launch_iff}

-- The binary and the library in the package are there; the digest of each is its path.
abbrev two_files : Files
two_files = record {
  is_file = λ path. str_eq path "t" || str_eq path "package";
  sha256_of = λ path. ok path;
  getsize = λ path. ok 3;
  basename = λ path. path;
  beside = λ path. "beside";
  in_package = "package";
  in_cwd = "cwd";
  lower = λ s. s;
}

abbrev pins : Pins
pins = ("t", "t") ∷ ("wintun.dll", "package") ∷ []

accepted_test : verify_for_launch two_files pins "t" "" false ≡ (
  true,
  verify_file two_files "t" "t" ∷ verify_file two_files "package" "package" ∷ [],
  integrity_verified "t" "t" ∷ integrity_verified "package" "package" ∷ [],
)
unfolding verify_for_launch concluded verify_file pin_of first_file locate_wintun wintun_or_located
    tun2socks_pin report_ok
accepted_test = refl

refused_test : (verify_for_launch two_files pins "u" "" false).0 ≡ false
unfolding verify_for_launch concluded verify_file pin_of first_file locate_wintun wintun_or_located
    tun2socks_pin report_ok
refused_test = refl

verify_for_launch_iff_example : (verify_for_launch two_files pins "t" "" false).0 ≡ true ↔ (
    (false ≡ true)
    ⊎ (IsPinned two_files "t" (tun2socks_pin two_files pins "t")
        × ((path : String) × IsLoaded two_files "t" "" path
            × IsPinned two_files path (pin_of pins "wintun.dll"))))
verify_for_launch_iff_example = verify_for_launch_iff two_files pins "t" "" false
