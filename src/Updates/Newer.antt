-- ===== src/Updates/Newer.antt =====
-- The offer of a release in tuntop/config/updates.py, and the whole update.
use tun_top.Prelude.{
  ap, false, arith, ◌≡◌, refl, sym, ◌∙◌, subst, inl, inr, ℕ, Bool, true, not, ◌||◌, Option, none,
  some, List, if◌then◌else◌, Bool-cases, String, starts_with, is_empty,
}
use tun_top.Prelude.Results.{Result, ok, err, Gives, bind-Gives, ok_or_err, ok-injective, ◌>>=◌}
use tun_top.Updates.{bad_metadata, draft_release, UpdateError, parse_version, version_gt}
use tun_top.Updates.Release.{
  Parts, Reply, Metadata, Info, asset_base, api_url, checksum_name, url_of, standalone_zip_name,
  checked_assets, offer, parsed, fetch, check_latest,
}
use tun_top.Updates.Archive.{
  Effects, Zip, Folder, StagedUpdate, Staging, is_quiet, download_release, quiet, some_staged, act,
  prepare_update,
}
use tun_top.Updates.Staged.{IsLeft, IsDownload, download_release-IsDownload}

-- An offer of a release of the feed, which is no draft and no prerelease: the version is that of
-- its tag, the asset is the archive of that version, both addresses are those of its assets and
-- below the download folder of the repository, and it counts as available exactly if it is newer
-- than the version that is running.
abbrev pub IsOffer : String → Metadata → Info → Type 0
IsOffer current rel info =
    (rel.draft ≡ false)
    × (rel.prerelease ≡ false)
    × (parse_version rel.tag_name ≡ ok info.version)
    × (info.current ≡ current)
    × (info.update_available ≡ version_gt info.version current)
    × (info.zip_name ≡ standalone_zip_name info.version)
    × (info.zip_url ≡ url_of rel.assets (standalone_zip_name info.version))
    × (info.checksum_url ≡ url_of rel.assets checksum_name)
    × (starts_with info.zip_url asset_base ≡ true)
    × (starts_with info.checksum_url asset_base ≡ true)

checked_assets-IsOffer :
    (current version : String) (rel : Metadata)
    → rel.draft ≡ false
    → rel.prerelease ≡ false
    → parse_version rel.tag_name ≡ ok version
    → Gives (IsOffer current rel) (
        checked_assets current version
          (url_of rel.assets (standalone_zip_name version))
          (url_of rel.assets checksum_name))
checked_assets-IsOffer current version rel d p e =
    let zip_url = url_of rel.assets (standalone_zip_name version) in
    let sum_url = url_of rel.assets checksum_name in
    elim (Bool-cases (is_empty zip_url || is_empty sum_url)) [
      | inl a ↦ rw a tt
      | inr a ↦ rw a (elim (Bool-cases (starts_with zip_url asset_base)) [
        | inl b ↦ rw b (elim (Bool-cases (starts_with sum_url asset_base)) [
          | inl c ↦ rw c (d, p, e, refl, refl, refl, refl, refl, b, c)
          | inr c ↦ rw c tt
        ])
        | inr b ↦ rw b tt
      ])
    ]

neither : (a b : Bool) → a || b ≡ false → (a ≡ false) × (b ≡ false)
neither true b h = absurd (ground (arith, h))
neither false b h = (refl, h)

offer-IsOffer :
    (current : String) (rel : Metadata) → Gives (IsOffer current rel) (offer current rel)
offer-IsOffer current rel =
    let whole = parse_version rel.tag_name >>= λ version.
    checked_assets current version (url_of rel.assets (standalone_zip_name version))
      (url_of rel.assets checksum_name) in
    elim (Bool-cases (rel.draft || rel.prerelease)) [
      | inl a ↦
          subst (λ b. Gives (IsOffer current rel) (if b then err draft_release else whole)) (sym a)
            tt
      | inr a ↦
          let (d, p) = neither rel.draft rel.prerelease a in
          subst (λ b. Gives (IsOffer current rel) (if b then err draft_release else whole)) (sym a)
            (bind-Gives (IsOffer current rel) (parse_version rel.tag_name) _
              (λ version e. checked_assets-IsOffer current version rel d p e))
    ]

module _ (split : String → Option Parts) (lower : String → String) (send : String → Reply)
    (parse : List ℕ → Option Metadata) where
  -- The predicate of an offer for the version that is running: it is what the feed answered.
  abbrev pub IsOfferFor : String → Info → Type 0
  IsOfferFor current_version info =
      (current : String) × (raw : List ℕ) × (rel : Metadata) × (parse_version current_version
        ≡ ok current)
      × (fetch split lower send api_url 1048576 ≡ ok raw)
      × (parse raw ≡ some rel)
      × IsOffer current rel info

  parsed_lem : (o : Option Metadata) (rel : Metadata) → parsed o ≡ ok rel → o ≡ some rel
  parsed_lem none rel h = absurd (ok_or_err (parsed none) rel bad_metadata h refl)
  parsed_lem (some r) rel h = ap some (ok-injective (parsed (some r)) r rel refl h)

  widen :
      (current_version current : String) (raw : List ℕ) (rel : Metadata)
      → parse_version current_version ≡ ok current
      → fetch split lower send api_url 1048576 ≡ ok raw
      → parse raw ≡ some rel
      → (x : Result UpdateError Info) → Gives (IsOffer current rel) x
      → Gives (IsOfferFor current_version) x
  widen current_version current raw rel e f g (ok info) h = (current, raw, rel, e, f, g, h)
  widen current_version current raw rel e f g (err x) h = tt

  pub check_latest-IsOfferFor :
      (current_version : String)
      → Gives (IsOfferFor current_version) (check_latest split lower send parse current_version)
  unfolding check_latest
  check_latest-IsOfferFor current_version =
      bind-Gives _ (parse_version current_version) _ (λ current e.
        bind-Gives _ (fetch split lower send api_url 1048576) _ (λ raw f.
          bind-Gives _ (parsed (parse raw)) _ (λ rel g.
            widen current_version current raw rel e f (parsed_lem (parse raw) rel g)
              (offer current rel) (offer-IsOffer current rel))))

-- The parameters of `prepare_update`.
module _ (split : String → Option Parts) (lower : String → String) (send : String → Reply)
    (decode : List ℕ → String) (digest : List ℕ → String) (unzip : List ℕ → Option Zip)
    (root : String) (resolve : String → String) (sep : String) (parse : List ℕ → Option Metadata)
    (fx : Effects) (current_version : String) (d : Folder) where
  -- What a whole update ends with.
  abbrev pub IsUpdate : Result UpdateError (Option StagedUpdate) × Folder → Type 0
  IsUpdate (ok none, after) = after ≡ d
  IsUpdate (ok (some staged), after) =
      (info : Info) × IsOfferFor split lower send parse current_version info
      × (version_gt info.version info.current ≡ true)
      × (download_release split lower send decode digest unzip root resolve sep fx info d
          ≡ (ok staged, after))
  IsUpdate (err e, after) = IsLeft fx d after

  quiet-IsUpdate : (e : UpdateError) → IsUpdate (quiet e, d)
  quiet-IsUpdate e = elim (Bool-cases (is_quiet e)) [
    | inl a ↦ rw a refl
    | inr a ↦ rw a (inl (inl refl))
  ]

  staged-IsUpdate :
      (info : Info) (r : Staging)
      → IsOfferFor split lower send parse current_version info
      → info.update_available ≡ true
      → download_release split lower send decode digest unzip root resolve sep fx info d ≡ r
      → IsDownload split lower send decode digest unzip root resolve sep fx info d r
      → IsUpdate (some_staged r)
  staged-IsUpdate info (ok staged, after) o a e h =
      let (current, raw, rel, p, f, g, offered) = o in
      (
        info,
        o,
        subst (λ c. version_gt info.version c ≡ true) (sym offered.3) (sym offered.4 ∙ a),
        e,
      )
  staged-IsUpdate info (err x, after) o a e h = h

  act-IsUpdate :
      (x : Result UpdateError Info)
      → Gives (IsOfferFor split lower send parse current_version) x
      → IsUpdate (act split lower send decode digest unzip root resolve sep fx d x)
  act-IsUpdate (err e) h = quiet-IsUpdate e
  act-IsUpdate (ok info) h =
      let staged =
        some_staged
          (download_release split lower send decode digest unzip root resolve sep fx info d) in
      elim (Bool-cases info.update_available) [
        | inl a ↦
            subst (λ b. IsUpdate (if not b then (ok none, d) else staged)) (sym a)
              (staged-IsUpdate info _ h a refl (
                download_release-IsDownload split lower send decode digest unzip root resolve sep fx
                  info d))
        | inr a ↦ subst (λ b. IsUpdate (if not b then (ok none, d) else staged)) (sym a) refl
      ]

  -- An update that stages a version was offered it by the answer of the release feed: a release
  -- that is no draft and no prerelease, with that version as its tag and the addresses of its
  -- assets, which are below the repository's download folder. That version is newer than the one
  -- that is running, and the update is the outcome of its download. An update that stages none
  -- leaves the folder alone, and one that fails leaves the folder of the version as it was, or as
  -- the removals of it leave it, which is without any file where they work.
  pub prepare_update-IsUpdate : IsUpdate (
      prepare_update split lower send decode digest unzip root resolve sep parse fx current_version
        d)
  unfolding prepare_update
  prepare_update-IsUpdate =
      act-IsUpdate _ (check_latest-IsOfferFor split lower send parse current_version)
