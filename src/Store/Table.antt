-- ===== src/Store/Table.antt =====
-- Queries and updates of a table, and their laws. `session.get` and a mutation of the row that it
-- gives go by a test on the primary key.
use astra_back.Prelude.{◌≡◌, Bool, false, not, List, [], ◌∷◌, keep_if, All, arith, if◌then◌else◌}

module _ {R : Type 0} where
  -- Mutate the rows that pass the test.
  abbrev pub update : (R → Bool) → (R → R) → List R → List R
  update p f [] = []
  update p f (r ∷ rs) = (if p r then f r else r) ∷ update p f rs

  -- `session.delete(row)` for the row that the query found, the first that passes the test.
  abbrev pub delete_first : (R → Bool) → List R → List R
  delete_first p [] = []
  delete_first p (r ∷ rs) = if p r then rs else r ∷ delete_first p rs

  -- `DELETE … WHERE`
  abbrev pub delete_where : (R → Bool) → List R → List R
  delete_where p rs = keep_if (λ r. not (p r)) rs

  pub All-update :
      (P Q : R → Type 0) (p : R → Bool) (f : R → R)
      → ((r : R) → P r → Q (if p r then f r else r))
      → (rs : List R) → All P rs
      → All Q (update p f rs)
  All-update P Q p f step [] h = tt
  All-update P Q p f step (r ∷ rs) h = (step r h.0, All-update P Q p f step rs h.1)

  pub All-delete_where :
      (P Q : R → Type 0) (p : R → Bool)
      → ((r : R) → P r → p r ≡ false → Q r)
      → (rs : List R) → All P rs
      → All Q (delete_where p rs)
  All-delete_where P Q p step [] h = tt
  All-delete_where P Q p step (r ∷ rs) h =
      ground (arith, step r h.0, All-delete_where P Q p step rs h.1)

  pub All-map : (P Q : R → Type 0) → ((r : R) → P r → Q r) → (rs : List R) → All P rs → All Q rs
  All-map P Q step [] h = tt
  All-map P Q step (r ∷ rs) h = (step r h.0, All-map P Q step rs h.1)
