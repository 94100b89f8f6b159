-- ===== src/Repositories/Cache.antt =====
-- The cached results: what is read after a write.
use astra_back.Prelude.{
  ℕ, ◌≡◌, refl, ◌∙◌, Bool, true, false, ◌&&◌, Option, some, List, [], ◌∷◌, ◌==◌, find_if, arith,
  if◌then◌else◌, Bool-cases, inl, inr,
}
use astra_back.Store.{RowId, CacheKind, Payload, ResultCacheRow, Db}
use astra_back.Repositories.{
  is_cached, get_cached_result, put_row, put_cached_result, payload_of, kind_number,
}

-- Whether two keys of three parts are the same.
abbrev pub same_key : ℕ → ℕ → ℕ → ℕ → ℕ → ℕ → Bool
same_key a b c a' b' c' = (a == a') && (b == b') && (c == c')

same_key-left :
    (r s t a b c a' b' c' : ℕ)
    → same_key r s t a b c ≡ true
    → same_key r s t a' b' c' ≡ same_key a b c a' b' c'
same_key-left r s t a b c a' b' c' h = ground arith

same_key-right :
    (r s t a b c a' b' c' : ℕ)
    → same_key a b c a' b' c' ≡ true
    → same_key r s t a' b' c' ≡ same_key r s t a b c
same_key-right r s t a b c a' b' c' h = ground arith

-- Two searches that agree on the rest agree when one row comes first.
skip :
    (b : Bool) (r : ResultCacheRow) (x y : Option ResultCacheRow)
    → payload_of x ≡ payload_of y
    → payload_of (if b then some r else x) ≡ payload_of (if b then some r else y)
skip true r x y h = refl
skip false r x y h = h

module _ (model_id : RowId) (kind : CacheKind) (payload : Payload) (user_id : RowId) (i : RowId)
    (k : CacheKind) (u : RowId) where
  abbrev pub hit : Bool
  hit = same_key model_id (kind_number kind) user_id i (kind_number k) u

  get-put_row :
      (rows : List ResultCacheRow)
      → payload_of (find_if (is_cached i k u) (put_row model_id kind payload user_id rows))
        ≡ (if hit then some payload else payload_of (find_if (is_cached i k u) rows))
  unfolding put_row
  get-put_row [] = elim (Bool-cases hit) [ inl e ↦ rw (e) refl | inr e ↦ rw (e) refl ]
  get-put_row (r ∷ rows) = elim (Bool-cases (is_cached model_id kind user_id r)) [
    | inl here ↦
        let e : is_cached i k u r ≡ hit =
          same_key-left r.model_id (kind_number r.kind) r.user_id model_id (kind_number kind)
            user_id i (kind_number k) u here in
        elim (Bool-cases hit) [
          | inl hits ↦ rw (here, e, hits) refl
          | inr misses ↦ rw (here, e, misses) refl
        ]
    | inr there ↦ elim (Bool-cases hit) [
      | inl hits ↦
          let e : is_cached i k u r ≡ false =
            same_key-right r.model_id (kind_number r.kind) r.user_id model_id (kind_number kind)
              user_id i (kind_number k) u hits
            ∙ there in
          let rest = get-put_row rows in rw (there, e, hits) (rest ∙ rw (hits) refl)
      | inr misses ↦
          let rest : payload_of
                (find_if (is_cached i k u) (put_row model_id kind payload user_id rows))
              ≡ payload_of (find_if (is_cached i k u) rows) =
            get-put_row rows ∙ rw (misses) refl in
          rw (there, misses) (skip (is_cached i k u r) r _ _ rest)
    ]
  ]

  -- After a result is cached, a read at the same model, kind and user gives it, and a read at any
  -- other key gives what it gave before.
  pub get_cached_result-put_cached_result :
      (db : Db)
      → get_cached_result i k u (put_cached_result model_id kind payload user_id db)
        ≡ (if hit then some payload else get_cached_result i k u db)
  unfolding get_cached_result put_cached_result
  get_cached_result-put_cached_result db = get-put_row db.cache
