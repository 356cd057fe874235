-- ===== src/Geo/Installed.antt =====
-- What a download of tuntop/geo/geoip.py leaves on disk, whether it succeeds or fails.
use tun_top.Prelude.{
  ◌≡◌, ◌≢◌, ℕ, ◌≤◌, Bool, true, false, Option, none, some, List, length, String, is_empty,
}
use tun_top.Prelude.Results.{Result, ok, err}
use tun_top.Geo.Download.{geo_max_bytes, DownloadError, not_replaced, Calls, Disk, reference_digest}

abbrev IsBounded : Result DownloadError (List ℕ) → Type 0
IsBounded (ok body) = length body ≤ geo_max_bytes
IsBounded (err e) = Unit

module _ (hostname : String → Option String) (lower : String → String)
    (digest : List ℕ → String) where
  module _ (strict : Bool) (sha_url : String) (text : Option String) (calls : Calls)
      (d : Disk) where
    -- The digest of a file that is accepted: the published one where strictness or an answer asks
    -- for it.
    abbrev pub IsVerified : List ℕ → Type 0
    IsVerified body =
        is_empty sha_url ≡ false
        → strict ≡ true
        → reference_digest hostname lower digest sha_url text ≡ some (digest body)

    abbrev Verdict : List ℕ → Result DownloadError (Unit {0}) → Type 0
    Verdict body (ok u) = IsVerified body
    Verdict body (err e) = Unit

    -- What a finished call leaves: the whole file and nothing beside it, or the old file.
    abbrev pub IsOutcome : Result DownloadError (List ℕ) → Result DownloadError ℕ × Disk → Type 0
    IsOutcome (ok body) (ok n, after) =
        (after.dest ≡ some body)
        × (after.part ≡ none)
        × (n ≡ length body)
        × (n ≤ geo_max_bytes)
        × IsVerified body
    IsOutcome (err e) (ok n, after) = ⊥
    IsOutcome fetched (err e, after) =
        (after.dest ≡ d.dest) × (e ≢ not_replaced → after.part ≡ calls.left)
