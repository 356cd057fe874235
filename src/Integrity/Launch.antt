-- ===== src/Integrity/Launch.antt =====
-- When tuntop/core/integrity.py lets a launch go on.
use tun_top.Prelude.{
  ◌≡◌, ◌↔◌, refl, ◌⊎◌, inl, inr, ℕ, Bool, true, false, not, ◌&&◌, ◌||◌, Option, none, some, subst,
  List, [], ◌∷◌, ◌++◌, if◌then◌else◌, String, is_empty, str_eq, eq_iff, arith,
}
use tun_top.Prelude.Results.{Result, ok, err}
use tun_top.Integrity.{
  first_file, locate_wintun, Status, verified, mismatch, BinaryReport, report_ok, Files, Pins,
  pin_of, compared, verify_file, wintun_or_located, wintun_report, tun2socks_pin, concluded,
  verify_for_launch,
}

both_or_trust :
    {P Q : Type 0} (a b c : Bool)
    → (a ≡ true ↔ P)
    → (b ≡ true ↔ Q)
    → (a && b || c ≡ true) ↔ ((c ≡ true) ⊎ (P × Q))
both_or_trust true true c f g = (λ e. inr (f.0 refl, g.0 refl), λ h. refl)
both_or_trust true false c f g =
    (λ e. inl e, λ h. elim h [ inl e ↦ e | inr (p, q) ↦ absurd (ground (arith, g.1 q)) ])
both_or_trust false b c f g =
    (λ e. inl e, λ h. elim h [ inl e ↦ e | inr (p, q) ↦ absurd (ground (arith, f.1 p)) ])

-- A check that is made only where the first test fails and the second holds.
guarded :
    {P : Type 0} (e f : Bool) (x y : BinaryReport)
    → report_ok x ≡ false
    → (report_ok y ≡ true ↔ P)
    → report_ok (if e || not f then x else y) ≡ true ↔ ((e ≡ false) × (f ≡ true) × P)
guarded true f x y m g =
    (λ h. absurd (ground (arith, m, h)), λ h. let (a, b, p) = h in absurd (ground (arith, a)))
guarded false true x y m g = (λ h. (refl, refl, g.0 h), λ h. let (a, b, p) = h in g.1 p)
guarded false false x y m g =
    (λ h. absurd (ground (arith, m, h)), λ h. let (a, b, p) = h in absurd (ground (arith, b)))

module _ (fs : Files) where
  -- A file that is there, can be read, and has the pinned digest in either case of its letters.
  abbrev HasDigest : String → Result String String → Result String ℕ → Type 0
  HasDigest pin (err e) n = ⊥
  HasDigest pin (ok digest) (err e) = ⊥
  HasDigest pin (ok digest) (ok n) = fs.lower digest ≡ fs.lower pin

  abbrev pub IsPinned : String → String → Type 0
  IsPinned path pin =
      (is_empty path ≡ false)
      × (fs.is_file path ≡ true)
      × HasDigest pin (fs.sha256_of path) (fs.getsize path)

  abbrev pub IsLibrary : String → Option String → Type 0
  IsLibrary pin none = ⊥
  IsLibrary pin (some path) = IsPinned path pin

  status_iff :
      (b : Bool)
      → elim (if b then verified else mismatch) [
        | verified ↦ true
        | Status.missing ↦ false
        | mismatch ↦ false
      ]
        ≡ true
      → b ≡ true
  status_iff true e = refl
  status_iff false e = e

  compared-HasDigest :
      (path pin : String) (d : Result String String) (n : Result String ℕ)
      → report_ok (compared fs path pin d n) ≡ true ↔ HasDigest pin d n
  unfolding report_ok
  compared-HasDigest path pin (err e) n = (λ h. ground (arith, h), λ h. absurd h)
  compared-HasDigest path pin (ok d) (err e) = (λ h. ground (arith, h), λ h. absurd h)
  compared-HasDigest path pin (ok d) (ok n) = (
    λ h. (eq_iff (fs.lower d) (fs.lower pin)).0 (status_iff (str_eq (fs.lower d) (fs.lower pin)) h),
    λ h. rw ((eq_iff (fs.lower d) (fs.lower pin)).1 h) refl,
  )

  verify_file-IsPinned :
      (path pin : String) → report_ok (verify_file fs path pin) ≡ true ↔ IsPinned path pin
  unfolding verify_file report_ok
  verify_file-IsPinned path pin =
      guarded (is_empty path) (fs.is_file path) _ _ refl
        (compared-HasDigest path pin (fs.sha256_of path) (fs.getsize path))

  wintun_report-IsLibrary :
      (pin : String) (o : Option String)
      → report_ok (wintun_report fs pin o) ≡ true ↔ IsLibrary pin o
  unfolding report_ok
  wintun_report-IsLibrary pin none = (λ h. ground (arith, h), λ h. absurd h)
  wintun_report-IsLibrary pin (some path) = verify_file-IsPinned path pin

  -- The first of some paths that is a file.
  abbrev pub IsFirst : String → List String → Type 0
  IsFirst path [] = ⊥
  IsFirst path (c ∷ cs) =
      ((fs.is_file c ≡ true) × (path ≡ c)) ⊎ ((fs.is_file c ≡ false) × IsFirst path cs)

  -- Where the binary would look: beside it, then in the package, then in the working folder.
  abbrev IsFound : String → String → Type 0
  IsFound tun2socks_path path =
      ((is_empty tun2socks_path ≡ true) × IsFirst path (fs.in_package ∷ fs.in_cwd ∷ []))
      ⊎ ((is_empty tun2socks_path ≡ false)
          × IsFirst path (fs.beside tun2socks_path ∷ fs.in_package ∷ fs.in_cwd ∷ []))

  -- The library that a launch loads: the one that is given, and only without one the one found.
  abbrev pub IsLoaded : String → String → String → Type 0
  IsLoaded tun2socks_path wintun_path path =
      ((is_empty wintun_path ≡ false) × (path ≡ wintun_path))
      ⊎ ((is_empty wintun_path ≡ true) × IsFound tun2socks_path path)

  IsFirst-test :
      (pin c : String) (cs : List String) (found : Option String) (b : Bool)
      → fs.is_file c ≡ b
      → (IsLibrary pin found ↔ ((path : String) × IsFirst path cs × IsPinned path pin))
      → IsLibrary pin (if b then some c else found)
        ↔ ((path : String) × IsFirst path (c ∷ cs) × IsPinned path pin)
  IsFirst-test pin c cs found true e later = (
    (λ h. (c, inl (e, refl), h)),
    (λ x.
        let (path, h, q) = x in
        elim h [
          | inl (a, same) ↦ subst (λ p. IsPinned p pin) same q
          | inr (a, other) ↦ absurd (ground (arith, e, a))
        ]),
  )
  IsFirst-test pin c cs found false e later = (
    (λ h. let (path, first, q) = later.0 h in (path, inr (e, first), q)),
    (λ x.
        let (path, h, q) = x in
        elim h [
          | inl (a, same) ↦ absurd (ground (arith, e, a))
          | inr (a, other) ↦ later.1 (path, other, q)
        ]),
  )

  first_file_iff :
      (pin : String) (cs : List String)
      → IsLibrary pin (first_file fs cs) ↔ ((path : String) × IsFirst path cs × IsPinned path pin)
  unfolding first_file
  first_file_iff pin [] = ((λ h. absurd h), λ x. absurd x.1)
  first_file_iff pin (c ∷ cs) =
      IsFirst-test pin c cs (first_file fs cs) (fs.is_file c) refl (first_file_iff pin cs)

  IsFound-test :
      (pin t : String) (b : Bool)
      → is_empty t ≡ b
      → IsLibrary pin
          (first_file fs ((if b then [] else fs.beside t ∷ []) ++ fs.in_package ∷ fs.in_cwd ∷ []))
        ↔ ((path : String) × IsFound t path × IsPinned path pin)
  IsFound-test pin t true e =
      let lem = first_file_iff pin (fs.in_package ∷ fs.in_cwd ∷ []) in
      (
        (λ h. let (path, f, q) = lem.0 h in (path, inl (e, f), q)),
        (λ x.
            let (path, h, q) = x in
            elim h [
              | inl (a, f) ↦ lem.1 (path, f, q)
              | inr (a, f) ↦ absurd (ground (arith, e, a))
            ]),
      )
  IsFound-test pin t false e =
      let lem = first_file_iff pin (fs.beside t ∷ fs.in_package ∷ fs.in_cwd ∷ []) in
      (
        (λ h. let (path, f, q) = lem.0 h in (path, inr (e, f), q)),
        (λ x.
            let (path, h, q) = x in
            elim h [
              | inl (a, f) ↦ absurd (ground (arith, e, a))
              | inr (a, f) ↦ lem.1 (path, f, q)
            ]),
      )

  IsLoaded-test :
      (pin t w : String) (b : Bool)
      → is_empty w ≡ b
      → IsLibrary pin (if b then locate_wintun fs t else some w)
        ↔ ((path : String) × IsLoaded t w path × IsPinned path pin)
  unfolding locate_wintun
  IsLoaded-test pin t w true e =
      let lem = IsFound-test pin t (is_empty t) refl in
      (
        (λ h. let (path, f, q) = lem.0 h in (path, inr (e, f), q)),
        (λ x.
            let (path, h, q) = x in
            elim h [
              | inl (a, f) ↦ absurd (ground (arith, e, a))
              | inr (a, f) ↦ lem.1 (path, f, q)
            ]),
      )
  IsLoaded-test pin t w false e = (
    (λ h. (w, inl (e, refl), h)),
    (λ x.
        let (path, h, q) = x in
        elim h [
          | inl (a, same) ↦ subst (λ p. IsPinned p pin) same q
          | inr (a, f) ↦ absurd (ground (arith, e, a))
        ]),
  )

  library_iff :
      (pin t w : String)
      → report_ok (wintun_report fs pin (wintun_or_located fs t w)) ≡ true
        ↔ ((path : String) × IsLoaded t w path × IsPinned path pin)
  unfolding wintun_or_located
  library_iff pin t w =
      let lem = IsLoaded-test pin t w (is_empty w) refl in
      let found = if is_empty w then locate_wintun fs t else some w in
      (
        (λ h. lem.0 ((wintun_report-IsLibrary pin found).0 h)),
        (λ x. (wintun_report-IsLibrary pin found).1 (lem.1 x)),
      )

  -- A launch goes on exactly if it is told to trust the binaries, or if both of them are there, can
  -- be read and have their pinned digests: the binary at its path, and the library that is given,
  -- or, where none is given, the first that is a file beside the binary, in the package and in the
  -- working folder.
  pub verify_for_launch_iff :
      (pins : Pins) (tun2socks_path wintun_path : String) (trust : Bool)
      → (verify_for_launch fs pins tun2socks_path wintun_path trust).0 ≡ true ↔ (
          (trust ≡ true)
          ⊎ (IsPinned tun2socks_path (tun2socks_pin fs pins tun2socks_path)
              × ((path : String) × IsLoaded tun2socks_path wintun_path path
                  × IsPinned path (pin_of pins "wintun.dll"))))
  unfolding verify_for_launch concluded
  verify_for_launch_iff pins tun2socks_path wintun_path trust =
      both_or_trust _ _ trust
        (verify_file-IsPinned tun2socks_path (tun2socks_pin fs pins tun2socks_path))
        (library_iff (pin_of pins "wintun.dll") tun2socks_path wintun_path)
