-- ===== src/ApiKeys/Rotation.antt =====
-- What is left of the keys of a deployment when they are revoked or rotated.
use astra_back.Prelude.{
  ◌≡◌, refl, true, false, not, ◌&&◌, Option, some, none, List, [], ◌∷◌, ◌==◌, find_if, keep_if,
  arith, Text, text_eq_refl,
}
use astra_back.Store.{RowId, ApiKeyRow, Db}
use astra_back.ApiKeys.{
  Fresh, new_key, plaintext_of, issue_key, rotate_key, revoke_keys, revoke_deployment_keys,
  resolve_key, is_live_key,
}

-- The keys that still open a deployment.
abbrev pub valid_keys : RowId → List ApiKeyRow → List ApiKeyRow
valid_keys deployment_id keys =
    keep_if (λ k. (k.deployment_id == deployment_id) && not k.revoked) keys

valid_keys-revoke_keys :
    (deployment_id : RowId) (keys : List ApiKeyRow)
    → valid_keys deployment_id (revoke_keys deployment_id keys) ≡ []
valid_keys-revoke_keys deployment_id [] = refl
valid_keys-revoke_keys deployment_id (k ∷ keys) =
    ground (arith, valid_keys-revoke_keys deployment_id keys)

others-revoke_keys :
    (deployment_id other : RowId) (keys : List ApiKeyRow)
    → (other == deployment_id) ≡ false
    → valid_keys other (revoke_keys deployment_id keys) ≡ valid_keys other keys
others-revoke_keys deployment_id other [] h = refl
others-revoke_keys deployment_id other (k ∷ keys) h =
    ground (arith, others-revoke_keys deployment_id other keys)

-- After a rotation the unrevoked keys of the deployment are the new key alone, and those of every
-- other deployment are what they were.
pub rotate_key_leaves :
    (hash : Text → Text) (user_id deployment_id : RowId) (f : Fresh) (db : Db)
    → (valid_keys deployment_id (rotate_key hash user_id deployment_id f db).1.api_keys
        ≡ new_key hash user_id deployment_id f ∷ [])
      × ((other : RowId)
          → (other == deployment_id) ≡ false
          → valid_keys other (rotate_key hash user_id deployment_id f db).1.api_keys
            ≡ valid_keys other db.api_keys)
unfolding rotate_key revoke_deployment_keys issue_key
rotate_key_leaves hash user_id deployment_id f db = (
  ground (arith, valid_keys-revoke_keys deployment_id db.api_keys),
  λ other h. ground (arith, others-revoke_keys deployment_id other db.api_keys h),
)

module _ (hash : Text → Text) where
  -- What a search for a live key finds after a revocation.
  pub resolve-revoke_keys :
      (deployment_id : RowId) (plaintext : Text) (k : ApiKeyRow) (keys : List ApiKeyRow)
      → find_if (is_live_key hash plaintext) (revoke_keys deployment_id keys) ≡ some k
      → (k.deployment_id == deployment_id) ≡ false
  resolve-revoke_keys deployment_id plaintext k [] h = cc
  resolve-revoke_keys deployment_id plaintext k (x ∷ keys) h =
      ground (arith, resolve-revoke_keys deployment_id plaintext k keys)

  -- After the keys of a deployment are revoked, no token resolves to one of them.
  pub resolve_key-revoke_deployment_keys :
      (deployment_id : RowId) (token : Option Text) (k : ApiKeyRow) (db : Db)
      → resolve_key hash token (revoke_deployment_keys deployment_id db) ≡ some k
      → (k.deployment_id == deployment_id) ≡ false
  unfolding resolve_key revoke_deployment_keys
  resolve_key-revoke_deployment_keys deployment_id none k db h = cc
  resolve_key-revoke_deployment_keys deployment_id (some []) k db h = cc
  resolve_key-revoke_deployment_keys deployment_id (some (c ∷ s)) k db h =
      resolve-revoke_keys deployment_id (c ∷ s) k db.api_keys h

  -- After a rotation the plaintext that was handed out resolves to the new key.
  pub resolve_key-rotate_key :
      (user_id deployment_id : RowId) (f : Fresh) (db : Db)
      → resolve_key hash
          (some (rotate_key hash user_id deployment_id f db).0)
          (rotate_key hash user_id deployment_id f db).1
        ≡ some (new_key hash user_id deployment_id f)
  unfolding resolve_key rotate_key issue_key
  resolve_key-rotate_key user_id deployment_id f db = rw (text_eq_refl (hash (plaintext_of f))) refl

  -- After a rotation, a token that resolves to a key of the deployment resolves to the new key,
  -- whatever the hash does to other tokens.
  pub rotate_key-excludes :
      (user_id deployment_id : RowId) (f : Fresh) (db : Db) (token : Option Text) (k : ApiKeyRow)
      → resolve_key hash token (rotate_key hash user_id deployment_id f db).1 ≡ some k
      → (k.deployment_id == deployment_id) ≡ true
      → k ≡ new_key hash user_id deployment_id f
  unfolding resolve_key rotate_key revoke_deployment_keys issue_key
  rotate_key-excludes user_id deployment_id f db none k h e = cc
  rotate_key-excludes user_id deployment_id f db (some []) k h e = cc
  rotate_key-excludes user_id deployment_id f db (some (c ∷ s)) k h e =
      ground (arith, resolve-revoke_keys deployment_id (c ∷ s) k db.api_keys)
