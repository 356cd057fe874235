-- ===== src/Geo/Download.antt =====
-- `download_geoip` of tuntop/geo/geoip.py: the address, the size cap, the checksum, the file.
use Prim.Native.Char.{code}
use tun_top.Prelude.{
  ℕ, zero, suc, ◌+◌, ◌*◌, Bool, false, ◌&&◌, ◌||◌, Option, none, some, List, [], ◌∷◌, ◌++◌, ltb,
  leb, ◌==◌, if◌then◌else◌, length, String, is_empty, str_eq, strip,
}
use tun_top.Prelude.Results.{Result, ok, err, ◌>>=◌}
use tun_top.Prelude.Text.{lstrip, is_space}

abbrev pub geo_allowed_hosts : List String
geo_allowed_hosts =
    "github.com" ∷ "objects.githubusercontent.com" ∷ "release-assets.githubusercontent.com"
    ∷ "raw.githubusercontent.com" ∷ []

abbrev pub geo_max_bytes : ℕ
geo_max_bytes = 64 * 1024 * 1024

unfoldable pub is_in : String → List String → Bool
is_in s [] = false
is_in s (t ∷ ts) = str_eq s t || is_in s ts

pub data DownloadError : Type 0 where
  bad_url : DownloadError
  unreachable : DownloadError
  too_large : DownloadError
  checksum_mismatch : DownloadError
  unverified : DownloadError
  not_replaced : DownloadError

-- What the server answers: the address it ended at, if the response names one; the announced
-- length; the chunks as they are read, an empty one being the end; and whether reading then fails.
pub record Response : Type 0 where
  pub url : Option String
  pub total : ℕ
  pub chunks : List (List ℕ)
  pub broken : Bool

-- What the calls on the files do: whether `os.replace` works, and what `os.unlink` leaves of the
-- part file, which is nothing where it works; a failure of it is passed over.
pub record Calls : Type 0 where
  pub replaces : Bool
  pub left : Option (List ℕ)

-- The destination and the `.part` file beside it.
pub record Disk : Type 0 where
  pub dest : Option (List ℕ)
  pub part : Option (List ℕ)

-- `while True: chunk = resp.read(…)`, with the bytes that are written.
unfoldable pub read_chunks : Bool → List ℕ → List (List ℕ) → Result DownloadError (List ℕ)
read_chunks broken done [] = if broken then err unreachable else ok done
read_chunks broken done ([] ∷ chunks) = ok done
read_chunks broken done ((b ∷ bs) ∷ chunks) =
    let rest = read_chunks broken (done ++ b ∷ bs) chunks in
    if ltb geo_max_bytes (length done + length (b ∷ bs)) then err too_large else rest

abbrev until_space : String → String
until_space String.[] = String.[]
until_space (String.◌∷◌ c s) =
    let rest = until_space s in if is_space (code c) then String.[] else String.◌∷◌ c rest

-- `txt.split()[0]`, or the empty text where there is no word.
unfoldable pub first_word : String → String
first_word s = until_space (lstrip s)

abbrev is_hex_code : ℕ → Bool
is_hex_code c = (leb b'0' c && leb c b'9') || (leb b'a' c && leb c b'f')

unfoldable pub is_hex_of : ℕ → String → Bool
is_hex_of n String.[] = n == 0
is_hex_of zero (String.◌∷◌ c s) = false
is_hex_of (suc n) (String.◌∷◌ c s) = is_hex_code (code c) && is_hex_of n s

-- `hostname` is `urllib.parse.urlsplit(url).hostname or ""`, `none` where it raises ValueError;
-- `lower` is `str.lower`; `digest` is `hashlib.sha256(…).hexdigest()`.
module _ (hostname : String → Option String) (lower : String → String)
    (digest : List ℕ → String) where
  abbrev allowed_host : Option String → Result DownloadError (Unit {0})
  allowed_host none = err bad_url
  allowed_host (some host) = if is_in (lower host) geo_allowed_hosts then ok tt else err bad_url

  unfoldable pub assert_allowed_geo_url : String → Result DownloadError (Unit {0})
  assert_allowed_geo_url url = allowed_host (hostname url)

  -- `getattr(resp, "url", None) or url`
  abbrev pub final_url : String → Option String → String
  final_url url none = url
  final_url url (some u) = if is_empty u then url else u

  abbrev pub receive : String → Option Response → Result DownloadError (List ℕ)
  receive url none = err unreachable
  receive url (some resp) = assert_allowed_geo_url (final_url url resp.url) >>= λ _.
      if ltb geo_max_bytes resp.total then err too_large else read_chunks resp.broken [] resp.chunks

  -- The first part, up to the digest: `answer` is `none` where the request itself fails.
  unfoldable pub fetch_geoip : String → Option Response → Result DownloadError (List ℕ)
  fetch_geoip url answer = assert_allowed_geo_url url >>= λ _. receive url answer

  -- `tok if len(tok) == 64 and all(c in "0123456789abcdef" for c in tok)`
  abbrev digest_in : String → Option String
  digest_in text =
      let tok = lower (strip (first_word text)) in if is_hex_of 64 tok then some tok else none

  abbrev answer_digest : Result DownloadError (Unit {0}) → Option String → Option String
  answer_digest (err e) text = none
  answer_digest (ok u) none = none
  answer_digest (ok u) (some text) = digest_in text

  -- `ref`: every failure on the way leaves it None. `text` is the answer, if there is one.
  unfoldable pub reference_digest : String → Option String → Option String
  reference_digest sha_url text = answer_digest (assert_allowed_geo_url sha_url) text

  abbrev pub verdict : Bool → String → Option String → Result DownloadError (Unit {0})
  verdict strict local_hex none = if strict then err unverified else ok tt
  verdict strict local_hex (some ref) =
      if str_eq ref local_hex then ok tt else err checksum_mismatch

  -- `if sha_url:` and what stands below it.
  unfoldable pub verify : Bool → String → Option String → List ℕ → Result DownloadError (Unit {0})
  verify strict sha_url text body =
      if is_empty sha_url
      then ok tt
      else verdict strict (digest body) (reference_digest sha_url text)

  -- `os.replace(tmp, dest_path)`, which may raise.
  abbrev pub install : Calls → Disk → List ℕ → Result DownloadError ℕ × Disk
  install calls d body =
      if calls.replaces
      then (ok (length body), record { dest = some body; part = none })
      else (err not_replaced, record { dest = d.dest; part = some body })

  -- `_abort()`, and the exception that is raised.
  abbrev pub abort : Calls → Disk → DownloadError → Result DownloadError ℕ × Disk
  abort calls d e = (err e, record { dest = d.dest; part = calls.left })

  abbrev pub conclude :
      Calls → Disk → List ℕ → Result DownloadError (Unit {0}) → Result DownloadError ℕ × Disk
  conclude calls d body (err e) = abort calls d e
  conclude calls d body (ok u) = install calls d body

  abbrev pub after_fetch :
      Bool
      → Calls
      → String
      → Option String
      → Disk
      → Result DownloadError (List ℕ)
      → Result DownloadError ℕ × Disk
  after_fetch strict calls sha_url text d (err e) = abort calls d e
  after_fetch strict calls sha_url text d (ok body) =
      conclude calls d body (verify strict sha_url text body)

  -- `download_geoip` without its progress calls, whose failures are ignored.
  unfoldable pub download_geoip :
      Bool
      → Calls
      → String
      → String
      → Option Response
      → Option String
      → Disk
      → Result DownloadError ℕ × Disk
  download_geoip strict calls url sha_url answer text d =
      after_fetch strict calls sha_url text d (fetch_geoip url answer)
