-- ===== src/ApiKeys.antt =====
-- app/services/apikeys.py: keys that are stored as hashes. `hash` is SHA-256, and the random part of a
-- new key is an argument; both are of the standard library.
pub mod Rotation
use astra_back.Prelude.{
  ℕ, ◌+◌, Bool, true, false, not, ◌&&◌, Option, none, some, List, [], ◌∷◌, ◌++◌, ltb, ◌==◌, take,
  drop, length, find_if, any, reverse, Text, text_eq, codes, if◌then◌else◌,
}
use astra_back.Store.{RowId, Stamp, ApiKeyRow, Db, update, Clock}

abbrev pub key_prefix : Text
key_prefix = codes "astra_sk_live_"

-- The masked form: the prefix, four characters, and the last four.
abbrev display : Text → Text
display plaintext =
    key_prefix
    ++ (take 4 (drop (length key_prefix) plaintext)
        ++ (codes "…" ++ reverse (take 4 (reverse plaintext))))

-- What the random source and the clock give to a new key.
pub record Fresh : Type 0 where
  pub key_id : RowId
  pub secret : Text
  pub at_time : Stamp

abbrev pub plaintext_of : Fresh → Text
plaintext_of f = key_prefix ++ f.secret

module _ (hash : Text → Text) where
  abbrev pub new_key : RowId → RowId → Fresh → ApiKeyRow
  new_key user_id deployment_id f = record {
    id = f.key_id;
    user_id = user_id;
    deployment_id = deployment_id;
    key_hash = hash (plaintext_of f);
    prefix = display (plaintext_of f);
    created_at = f.at_time;
    last_used_at = none;
    revoked = false;
  }

  -- The plaintext that is shown once, and the tables.
  unfoldable pub issue_key : RowId → RowId → Fresh → Db → Text × Db
  issue_key user_id deployment_id f db =
      (plaintext_of f, record db { api_keys = new_key user_id deployment_id f ∷ db.api_keys })

abbrev pub revoke_keys : RowId → List ApiKeyRow → List ApiKeyRow
revoke_keys deployment_id keys =
    update (λ k. k.deployment_id == deployment_id) (λ k. record k { revoked = true }) keys

unfoldable pub revoke_deployment_keys : RowId → Db → Db
revoke_deployment_keys deployment_id db = record db {
  api_keys = revoke_keys deployment_id db.api_keys;
}

module _ (hash : Text → Text) where
  -- All keys of the deployment are revoked, and one is issued.
  unfoldable pub rotate_key : RowId → RowId → Fresh → Db → Text × Db
  unfolding revoke_deployment_keys issue_key
  rotate_key user_id deployment_id f db =
      issue_key hash user_id deployment_id f (revoke_deployment_keys deployment_id db)

  abbrev pub is_live_key : Text → ApiKeyRow → Bool
  is_live_key plaintext k = text_eq k.key_hash (hash plaintext) && not k.revoked

  -- `None` and the empty text have no key.
  unfoldable pub resolve_key : Option Text → Db → Option ApiKeyRow
  resolve_key none db = none
  resolve_key (some []) db = none
  resolve_key (some (c ∷ s)) db = find_if (is_live_key (c ∷ s)) db.api_keys

abbrev used_recently : Clock → ℕ → Option Stamp → Bool
used_recently clock now none = false
used_recently clock now (some stamp) = elim (clock.parse stamp) [
  | none ↦ false
  | some prev ↦ ltb now (prev + 30000)
]

-- The time of last use, written at most once in 30 seconds.
unfoldable pub touch_key : Clock → ℕ → ApiKeyRow → Db → Db
touch_key clock now key db = if used_recently clock now key.last_used_at then db else record db {
  api_keys =
      update (λ k. k.id == key.id) (λ k. record k { last_used_at = some (clock.iso now) })
        db.api_keys;
}
