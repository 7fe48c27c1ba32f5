-- ===== src/Workflow/Sqlite/Batches.antt =====
-- Bounded batches of rows, as `SQLiteStateStore.cleanup` selects and then deletes them by key. A row has
-- a key of two columns, `ns` and `key`.
pub mod Keyed
pub mod Counts
use nl2data_core.Common.{
  ℕ, zero, suc, ◌≡◌, ◌↔◌, refl, sym, ap, ◌∙◌, inl, inr, Bool-cases, Bool, true, false, ◌&&◌, not,
  any, Option, none, some, List, [], ◌∷◌, String, arith, take, str_eq, str_eq_iff, if◌then◌else◌,
}

-- Whether a key is in a batch.
abbrev pub in_batch : String → String → List (String × String) → Bool
in_batch n k batch = any (λ p. str_eq p.0 n && str_eq p.1 k) batch

module _ {R : Type 0} (ns key : R → String) where
  abbrev pub has_key : String → String → R → Bool
  has_key n k r = str_eq (ns r) n && str_eq (key r) k

  -- `SELECT ns, key ... WHERE`
  unfoldable pub keys_where : (R → Bool) → List R → List (String × String)
  keys_where p [] = []
  keys_where p (r ∷ rows) =
      let rest = keys_where p rows in if p r then (ns r, key r) ∷ rest else rest

  -- `DELETE ... WHERE ns = ? AND key = ?`
  unfoldable pub delete : String → String → List R → List R
  delete n k [] = []
  delete n k (r ∷ rows) = let rest = delete n k rows in if has_key n k r then rest else r ∷ rest

  -- The deletions of a batch, one by one.
  unfoldable pub delete_batch : List (String × String) → List R → List R
  unfolding delete
  delete_batch [] rows = rows
  delete_batch ((n, k) ∷ batch) rows = delete_batch batch (delete n k rows)

  -- `UPDATE ... WHERE ns = ? AND key = ?`
  unfoldable pub update : String → String → (R → R) → List R → List R
  update n k f [] = []
  update n k f (r ∷ rows) = (if has_key n k r then f r else r) ∷ update n k f rows

  unfoldable pub find : String → String → List R → Option R
  find n k [] = none
  find n k (r ∷ rows) = if has_key n k r then some r else find n k rows

  -- The key is a primary one.
  abbrev pub IsKeyed : List R → Type 0
  IsKeyed [] = Unit
  IsKeyed (r ∷ rows) = (find (ns r) (key r) rows ≡ none) × IsKeyed rows

  has_key_iff : (n k : String) (r : R) → (has_key n k r ≡ true) ↔ ((ns r ≡ n) × (key r ≡ k))
  has_key_iff n k r = (
    λ h.
        ((str_eq_iff (ns r) n).0 (ground (arith, h)), (str_eq_iff (key r) k).0 (ground (arith, h))),
    λ h. rw ((str_eq_iff (ns r) n).1 h.0, (str_eq_iff (key r) k).1 h.1) refl,
  )

  pub find-delete :
      (n k m j : String) (rows : List R)
      → (str_eq m n && str_eq j k) ≡ false
      → find n k (delete m j rows) ≡ find n k rows
  unfolding find delete
  find-delete n k m j [] apart = refl
  find-delete n k m j (r ∷ rows) apart = elim (Bool-cases (has_key m j r)) [
    | inl here ↦
        let (a, b) = (has_key_iff m j r).0 here in
        let other : has_key n k r ≡ false =
          ap (λ x. str_eq x n && str_eq (key r) k) a
          ∙ ap (λ x. str_eq m n && str_eq x k) b
          ∙ apart in
        rw (here, other) (find-delete n k m j rows apart)
    | inr there ↦ elim (Bool-cases (has_key n k r)) [
      | inl mine ↦ rw (there, mine) refl
      | inr other ↦ rw (there, other) (find-delete n k m j rows apart)
    ]
  ]

  find-delete_batch :
      (n k : String) (batch : List (String × String)) (rows : List R)
      → in_batch n k batch ≡ false
      → find n k (delete_batch batch rows) ≡ find n k rows
  unfolding delete_batch
  find-delete_batch n k [] rows apart = refl
  find-delete_batch n k ((m, j) ∷ batch) rows apart =
      find-delete_batch n k batch (delete m j rows) (ground (arith, apart))
      ∙ find-delete n k m j rows (ground (arith, apart))

  -- A key that the query returned is that of a row which passes its condition.
  pub keys_where-find :
      (p : R → Bool) (n k : String) (rows : List R)
      → IsKeyed rows
      → in_batch n k (keys_where p rows) ≡ true
      → (r : R) × (find n k rows ≡ some r) × (p r ≡ true)
  unfolding keys_where find
  keys_where-find p n k [] u h = cc
  keys_where-find p n k (x ∷ rows) u h = elim (Bool-cases (has_key n k x)) [
    | inl here ↦ elim (Bool-cases (p x)) [
      | inl passes ↦ (x, rw here refl, passes)
      | inr fails ↦
          let (r, found, _) = keys_where-find p n k rows u.1 (rw fails at h) in
          let (a, b) = (has_key_iff n k x).0 here in
          let absent : find n k rows ≡ none =
            sym (ap (λ m. find m (key x) rows) a ∙ ap (λ j. find n j rows) b) ∙ u.0 in
          cc (absent, found)
    ]
    | inr there ↦
        let (r, found, passes) = keys_where-find p n k rows u.1 (ground (arith, h, there)) in
        (r, rw there found, passes)
  ]

  -- A row that does not pass the condition is still there after a batch of those that do.
  pub find-kept :
      (p : R → Bool) (n k : String) (batch : List (String × String)) (rows : List R) {r : R}
      → IsKeyed rows
      → ((m j : String) → in_batch m j batch ≡ true → in_batch m j (keys_where p rows) ≡ true)
      → find n k rows ≡ some r
      → p r ≡ false
      → find n k (delete_batch batch rows) ≡ some r
  find-kept p n k batch rows {r} u within found fails = elim (Bool-cases (in_batch n k batch)) [
    | inr apart ↦ find-delete_batch n k batch rows apart ∙ found
    | inl there ↦
        let (x, same, passes) = keys_where-find p n k rows u (within n k there) in
        cc (found, same, fails, passes)
  ]
