-- ===== src/Store/Time.antt =====
-- `datetime`: times are milliseconds since the epoch. `iso` is `app.config.iso`, the text of fixed
-- width that the server writes, and `parse` is `datetime.fromisoformat` with a `Z` allowed.
use astra_back.Prelude.{ℕ, ◌≡◌, Option, some, ltb, text_ltb}
use astra_back.Store.Rows.{Stamp}

pub record Clock : Type 0 where
  pub iso : ℕ → Stamp
  pub parse : Stamp → Option ℕ
  -- The order of the texts that the server writes is the order of their times.
  pub iso_order : (a b : ℕ) → text_ltb (iso a) (iso b) ≡ ltb a b
  pub parse_iso : (a : ℕ) → parse (iso a) ≡ some a
