-- ===== src/Updates/Release.antt =====
-- tuntop/config/updates.py: the guarded request and the question for the latest release.
use tun_top.Prelude.{
  ℕ, suc, ◌*◌, Bool, false, not, ◌||◌, Option, none, some, List, [], ◌∷◌, ltb, ◌==◌, if◌then◌else◌,
  length, take, String, is_empty, str_eq, starts_with, or_text, ◌<>◌,
}
use tun_top.Prelude.Results.{Result, ok, err, ◌>>=◌}
use tun_top.Updates.{
  UpdateError, bad_url, no_answer, http_error, http_status, response_too_large, bad_metadata,
  draft_release, asset_missing, foreign_asset, parse_version, version_gt,
}

abbrev pub allowed_hosts : List String
allowed_hosts =
    "github.com" ∷ "api.github.com" ∷ "objects.githubusercontent.com"
    ∷ "release-assets.githubusercontent.com" ∷ []

unfoldable pub is_in : String → List String → Bool
is_in s [] = false
is_in s (t ∷ ts) = str_eq s t || is_in s ts

abbrev pub api_url : String
api_url = "https://api.github.com/repos/kooshaZP/TunTop/releases/latest"

abbrev pub asset_base : String
asset_base = "https://github.com/kooshaZP/TunTop/releases/download/"

abbrev pub checksum_name : String
checksum_name = "checksums.txt"

-- `urllib.parse.urlsplit(url)`: the scheme, and the host name or the empty text.
pub record Parts : Type 0 where
  pub scheme : String
  pub host : String

-- What the opener returns: the final address, the status, and the bytes that are there to read.
pub record Response : Type 0 where
  pub url : String
  pub status : ℕ
  pub body : List ℕ

-- `resp.read(limit + 1)` and `_bigger_then_strip`.
abbrev pub bounded_body : ℕ → List ℕ → Result UpdateError (List ℕ)
bounded_body limit body =
    if ltb limit (length (take (suc limit) body))
    then err response_too_large
    else ok (take (suc limit) body)

-- The metadata of a release, of an object of the right shape: the flags as `bool`, the tag as
-- `str(… or "")`, and the assets' names and addresses, the empty text for a missing address.
pub record Metadata : Type 0 where
  pub draft : Bool
  pub prerelease : Bool
  pub tag_name : String
  pub assets : List (String × String)

-- `urls.get(name)` of the comprehension, in which the last asset of a name counts.
unfoldable pub find_url : List (String × String) → String → Option String
find_url [] name = none
find_url (a ∷ rest) name =
    let later = find_url rest name in
    elim later [ some url ↦ some url | none ↦ if str_eq a.0 name then some a.1 else none ]

abbrev text_of : Option String → String
text_of none = ""
text_of (some s) = s

-- The empty text stands for None.
unfoldable pub url_of : List (String × String) → String → String
url_of assets name = text_of (find_url assets name)

pub record Info : Type 0 where
  pub version : String
  pub current : String
  pub update_available : Bool
  pub zip_name : String
  pub zip_url : String
  pub checksum_url : String

unfoldable pub standalone_zip_name : String → String
standalone_zip_name version = "TunTop-" <> version <> "-x64-standalone.zip"

-- The tests on the two addresses.
abbrev pub checked_assets : String → String → String → String → Result UpdateError Info
checked_assets current version zip_url sum_url =
    if is_empty zip_url || is_empty sum_url
    then err asset_missing
    else if not (starts_with zip_url asset_base)
    then err foreign_asset
    else if not (starts_with sum_url asset_base)
    then err foreign_asset
    else ok (record {
      version = version;
      current = current;
      update_available = version_gt version current;
      zip_name = standalone_zip_name version;
      zip_url = zip_url;
      checksum_url = sum_url;
    })

abbrev pub offer : String → Metadata → Result UpdateError Info
offer current rel =
    if rel.draft || rel.prerelease
    then err draft_release
    else parse_version rel.tag_name >>= λ version.
        checked_assets current version (url_of rel.assets (standalone_zip_name version))
          (url_of rel.assets checksum_name)

abbrev pub parsed : Option Metadata → Result UpdateError Metadata
parsed none = err bad_metadata
parsed (some rel) = ok rel

-- The opener's answer, or what it raises: an HTTPError with its code, or that nothing is reached.
pub data Reply : Type 0 where
  offline : Reply
  refused : ℕ → Reply
  answered : Response → Reply

-- `split` is `none` where `urlsplit` raises; `lower` is `str.lower`; `send` is the request through
-- the guarded opener, that either answers or raises.
module _ (split : String → Option Parts) (lower : String → String) (send : String → Reply) where
  abbrev allowed_parts : String → Option Parts → Result UpdateError (Unit {0})
  allowed_parts url none = err (bad_url url)
  allowed_parts url (some parts) =
      if not (str_eq parts.scheme "https")
      then err (bad_url url)
      else if not (is_in (lower parts.host) allowed_hosts)
      then err (bad_url url)
      else ok tt

  unfoldable pub assert_allowed_url : String → Result UpdateError (Unit {0})
  assert_allowed_url url = allowed_parts url (split url)

  abbrev pub received : String → ℕ → Reply → Result UpdateError (List ℕ)
  received url limit offline = err no_answer
  received url limit (refused code) = err (http_error code)
  received url limit (answered resp) = assert_allowed_url (or_text resp.url url) >>= λ _.
      if not (resp.status == 200)
      then err (http_status resp.status)
      else bounded_body limit resp.body

  unfoldable pub fetch : String → ℕ → Result UpdateError (List ℕ)
  fetch url limit = assert_allowed_url url >>= λ _. received url limit (send url)

  -- `parse` is `json.loads` and the test for an object.
  module _ (parse : List ℕ → Option Metadata) where
    unfoldable pub check_latest : String → Result UpdateError Info
    check_latest current_version = parse_version current_version >>= λ current.
        fetch api_url (1024 * 1024) >>= λ raw. parsed (parse raw) >>= λ rel. offer current rel
