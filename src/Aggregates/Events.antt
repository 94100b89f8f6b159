-- ===== src/Aggregates/Events.antt =====
-- app/services/telemetry_agg.py: ranges, and the events of a window.
use astra_back.Prelude.{
  ℕ, ◌*◌, Bool, not, ◌&&◌, Option, none, some, List, [], ◌∷◌, ltb, ◌==◌, keep_if, any, map, take,
  Text, text_eq, text_ltb, codes, if◌then◌else◌,
}
use astra_back.Store.{RowId, Clock, InferenceEventRow, Db}

abbrev hour : ℕ
hour = 3_600_000

-- `_window`: the length of a range in milliseconds, and its number of buckets
unfoldable pub window_of : Text → ℕ × ℕ
window_of range =
    if text_eq range (codes "1h")
    then (hour, 60)
    else if text_eq range (codes "6h")
    then (6 * hour, 72)
    else if text_eq range (codes "7d")
    then (168 * hour, 84)
    else if text_eq range (codes "30d")
    then (720 * hour, 60)
    else (24 * hour, 48)

unfoldable pub has_any_events : RowId → Db → Bool
has_any_events model_id db = any (λ e. e.model_id == model_id) db.events

-- `_MAX_EVENTS`
abbrev pub max_events : ℕ
max_events = 200_000

-- A row of `_fetch_events`
pub record Sample : Type 0 where
  pub at : ℕ
  pub latency : ℕ
  pub success : Bool

abbrev pub insert_newest : InferenceEventRow → List InferenceEventRow → List InferenceEventRow
insert_newest e [] = e ∷ []
insert_newest e (f ∷ fs) =
    let rest = insert_newest e fs in if text_ltb e.ts f.ts then f ∷ rest else e ∷ f ∷ fs

-- `order_by(ts.desc())`
abbrev pub newest_first : List InferenceEventRow → List InferenceEventRow
newest_first [] = []
newest_first (e ∷ es) = insert_newest e (newest_first es)

abbrev pub insert_sample : Sample → List Sample → List Sample
insert_sample s [] = s ∷ []
insert_sample s (t ∷ ts) =
    let rest = insert_sample s ts in if ltb t.at s.at then t ∷ rest else s ∷ t ∷ ts

abbrev pub oldest_first : List Sample → List Sample
oldest_first [] = []
oldest_first (s ∷ ss) = insert_sample s (oldest_first ss)

abbrev pub add_sample : Option ℕ → InferenceEventRow → List Sample → List Sample
add_sample none e rest = rest
add_sample (some t) e rest = record { at = t; latency = e.latency_ms; success = e.success } ∷ rest

-- Events whose stamp cannot be read are left out.
abbrev pub samples : Clock → List InferenceEventRow → List Sample
samples clock [] = []
samples clock (e ∷ es) = add_sample (clock.parse e.ts) e (samples clock es)

abbrev pub in_window : Clock → RowId → ℕ → ℕ → InferenceEventRow → Bool
in_window clock model_id start end e =
    (e.model_id == model_id)
    && not (text_ltb e.ts (clock.iso start))
    && text_ltb e.ts (clock.iso end)

unfoldable pub fetch_events : Clock → RowId → ℕ → ℕ → Db → List Sample
fetch_events clock model_id start end db = oldest_first (
    samples clock
      (take max_events (newest_first (keep_if (in_window clock model_id start end) db.events))))

unfoldable pub deployment_ids : RowId → Db → List RowId
deployment_ids model_id db = map (λ d. d.id) (keep_if (λ d. d.model_id == model_id) db.deployments)
