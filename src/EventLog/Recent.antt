-- ===== src/EventLog/Recent.antt =====
-- tuntop/core/events.py: what the ring shows of everything that was logged.
use mathlib.Core.List.{append-nil, append_assoc}
use tun_top.Prelude.{
  ℕ, zero, suc, ◌≡◌, refl, sym, ◌∙◌, ap, none, some, List, [], ◌∷◌, ◌++◌, last_items, push_bounded,
  push_bounded-last_items, last_items-short, last_items-zero, arith,
}
use tun_top.Prelude.Int.{pos, negsuc}
use tun_top.EventLog.{LogRecord, LogRing, new_ring, log, recent}

-- The records logged one after the other
unfoldable pub log_all : List LogRecord → LogRing → LogRing
log_all [] ring = ring
log_all (rec ∷ recs) ring = log_all recs (log rec ring)

log_all-last :
    (recs : List LogRecord) (ring : LogRing) (all : List LogRecord)
    → ring.buf ≡ last_items ring.cap all
    → (log_all recs ring).buf ≡ last_items ring.cap (all ++ recs)
unfolding log_all log
log_all-last [] ring all h = h ∙ ap (last_items ring.cap) (sym (append-nil all))
log_all-last (rec ∷ recs) ring all h =
    log_all-last recs (log rec ring) (all ++ rec ∷ [])
      (ap (λ xs. push_bounded ring.cap xs rec) h ∙ push_bounded-last_items ring.cap all rec)
    ∙ ap (last_items ring.cap) (append_assoc all (rec ∷ []) recs)

kept :
    (capacity : ℕ) (recs : List LogRecord)
    → (log_all recs (new_ring capacity)).buf ≡ last_items capacity recs
unfolding new_ring
kept capacity recs =
    log_all-last recs (new_ring capacity) [] (sym (last_items-short capacity [] (omega arith)))

shown : (n : ℕ) (ring : LogRing) → recent (some (pos n)) ring ≡ last_items n ring.buf
unfolding recent
shown zero ring = sym (last_items-zero ring.buf)
shown (suc n) ring = refl

-- A new ring keeps the last records of all that were logged, as many as its capacity. What it shows
-- are the last `n` of these, all of them without an `n`, and nothing for an `n` of zero or below.
pub recent-log_all :
    (capacity : ℕ) (recs : List LogRecord) (n : ℕ)
    → (recent none (log_all recs (new_ring capacity)) ≡ last_items capacity recs)
      × (recent (some (pos n)) (log_all recs (new_ring capacity))
          ≡ last_items n (last_items capacity recs))
      × (recent (some (negsuc n)) (log_all recs (new_ring capacity)) ≡ [])
unfolding recent new_ring
recent-log_all capacity recs n = (
  kept capacity recs,
  shown n (log_all recs (new_ring capacity)) ∙ ap (last_items n) (kept capacity recs),
  refl,
)
