-- ===== src/EventLog.antt =====
-- tuntop/core/events.py: the bounded ring of log records.
pub mod Recent
use tun_top.Prelude.{
  ℕ, zero, suc, String, Option, none, some, List, [], ◌∷◌, push_bounded, last_items, length,
}
use tun_top.Prelude.Int.{ℤ, pos, negsuc}

pub data Severity : Type 0 where
  debug info warning error : Severity

-- `_SEV_LABELS`
unfoldable pub sev_label : Severity → String
sev_label debug = "DEBUG"
sev_label info = "INFO"
sev_label warning = "WARN"
sev_label error = "ERROR"

pub record LogRecord : Type 0 where
  pub ts : ℕ
  pub severity : Severity
  pub component : String
  pub message : String
  pub state : Option String
  pub details : Option String

pub record LogRing : Type 0 where
  pub cap : ℕ
  pub buf : List LogRecord

-- `LogRing(capacity)`
unfoldable pub new_ring : ℕ → LogRing
new_ring capacity = record { cap = capacity; buf = [] }

-- `log(…)`: the record that is returned is the one that is stored.
unfoldable pub log : LogRecord → LogRing → LogRing
log rec ring = record ring { buf = push_bounded ring.cap ring.buf rec }

-- `recent(n)`
unfoldable pub recent : Option ℤ → LogRing → List LogRecord
recent none ring = ring.buf
recent (some (negsuc n)) ring = []
recent (some (pos zero)) ring = []
recent (some (pos (suc n))) ring = last_items (suc n) ring.buf

-- `clear()`
unfoldable pub clear : LogRing → LogRing
clear ring = record ring { buf = [] }

-- `len(ring)`
abbrev pub size : LogRing → ℕ
size ring = length ring.buf
