-- ===== src/Updates/Guard.antt =====
-- The guard on archive members in tuntop/config/updates.py.
use tun_top.Prelude.{
  ◌≡◌, refl, sym, ◌∙◌, ap, subst, ◌⊎◌, ◌↔◌, inl, inr, true, false, List, [], ◌∷◌, Bool-cases,
  String, str_eq, eq_iff, starts_with, ◌<>◌, All, arith,
}
use tun_top.Prelude.Results.{Result, ok, err, ◌>>=◌, Result-cases, ok_or_err}
use tun_top.Updates.{UpdateError}
use tun_top.Updates.Archive.{Member, is_absolute, is_symlink, escapes, check_member, safe_extract}

module _ (root : String) (resolve : String → String) (sep : String) where
  -- A member that stays below the root, as a relative name and as no link.
  abbrev pub IsInside : Member → Type 0
  IsInside m =
      (is_absolute m.filename ≡ false)
      × ((resolve m.filename ≡ root) ⊎ (starts_with (resolve m.filename) (root <> sep) ≡ true))
      × (is_symlink m.external_attr ≡ false)

  inside_target :
      (target : String)
      → escapes root resolve sep target ≡ false
      → (target ≡ root) ⊎ (starts_with target (root <> sep) ≡ true)
  unfolding escapes
  inside_target target e = elim (Bool-cases (str_eq target root)) [
    | inl a ↦ inl ((eq_iff target root).0 a)
    | inr a ↦ elim (Bool-cases (starts_with target (root <> sep))) [
      | inl b ↦ inr b
      | inr b ↦ absurd (ground (arith, e, a, b))
    ]
  ]

  target_inside :
      (target : String)
      → (target ≡ root) ⊎ (starts_with target (root <> sep) ≡ true)
      → escapes root resolve sep target ≡ false
  unfolding escapes
  target_inside target h = elim h [
    | inl a ↦ rw ((eq_iff target root).1 a)
    | inr b ↦ ground (arith, b)
  ]

  abbrev Passes : Member → Result UpdateError (Unit {0}) → Type 0
  Passes m (ok u) = IsInside m
  Passes m (err e) = Unit

  check_member-Passes : (m : Member) → Passes m (check_member root resolve sep m)
  check_member-Passes m = elim (Bool-cases (is_absolute m.filename)) [
    | inl a ↦ rw a tt
    | inr a ↦ elim (Bool-cases (escapes root resolve sep (resolve m.filename))) [
      | inl b ↦ rw (a, b) tt
      | inr b ↦ elim (Bool-cases (is_symlink m.external_attr)) [
        | inl c ↦ rw (a, b, c) tt
        | inr c ↦ rw (a, b, c) (a, inside_target (resolve m.filename) b, c)
      ]
    ]
  ]

  IsInside-ok : (m : Member) → IsInside m → check_member root resolve sep m ≡ ok tt
  IsInside-ok m (a, b, c) = rw (a, target_inside (resolve m.filename) b, c)

  passed : (m : Member) → check_member root resolve sep m ≡ ok tt → IsInside m
  passed m e = subst (Passes m) e (check_member-Passes m)

  -- An archive passes the guard exactly when every member has a relative name, resolves to the
  -- target folder or below it, and is no symbolic link.
  pub safe_extract_iff :
      (ms : List Member) → (safe_extract root resolve sep ms ≡ ok tt) ↔ All IsInside ms
  unfolding safe_extract
  safe_extract_iff [] = ((λ e. tt), (λ h. refl))
  safe_extract_iff (m ∷ ms) =
      let later = safe_extract_iff ms in
      (
        (λ e. elim (Result-cases (check_member root resolve sep m)) [
          | inl p ↦ (
            passed m p.1,
            later.0 (sym (ap (λ x. x >>= λ _. safe_extract root resolve sep ms) p.1) ∙ e),
          )
          | inr q ↦ absurd (
              ok_or_err (safe_extract root resolve sep (m ∷ ms)) tt q.0 e
                (ap (λ x. x >>= λ _. safe_extract root resolve sep ms) q.1))
        ]),
        (λ h. rw (IsInside-ok m h.0) (later.1 h.1)),
      )
