-- ===== src/Workflow/Sqlite/Batches/Counts.antt =====
-- How many rows a batch removes.
use nl2data_core.Common.{
  ℕ, zero, suc, ◌+◌, ◌≤◌, ◌<◌, ◌≡◌, refl, sym, ap, ◌∙◌, inl, inr, Bool-cases, Bool, true, false,
  ◌&&◌, none, List, [], ◌∷◌, String, arith, str_eq, str_eq_iff, if◌then◌else◌, length, take,
  is_some, ltb,
}
use nl2data_core.Workflow.Sqlite.Batches.Keyed.{IsKeyed-delete}
use nl2data_core.Workflow.Sqlite.Batches.{
  in_batch, has_key, keys_where, delete, delete_batch, find, IsKeyed, find-delete,
}

-- How often a key is in a batch.
abbrev pub occurrences : String → String → List (String × String) → ℕ
occurrences n k [] = 0
occurrences n k (p ∷ batch) =
    if str_eq p.0 n && str_eq p.1 k then suc (occurrences n k batch) else occurrences n k batch

pub in_batch-occurrences :
    (n k : String) (batch : List (String × String))
    → in_batch n k batch ≡ ltb 0 (occurrences n k batch)
in_batch-occurrences n k [] = ground arith
in_batch-occurrences n k (p ∷ batch) = ground (arith, in_batch-occurrences n k batch)

pub occurrences-take_le :
    (c : ℕ) (n k : String) (batch : List (String × String))
    → occurrences n k (take c batch) ≤ occurrences n k batch
occurrences-take_le zero n k batch = omega arith
occurrences-take_le (suc c) n k [] = omega arith
occurrences-take_le (suc c) n k (p ∷ batch) = ground (arith, occurrences-take_le c n k batch)

-- An order of finding rows: the same keys, each as often.
pub record IsScan (scan : List (String × String) → List (String × String)) : Type 0 where
  pub same_length : (xs : List (String × String)) → length (scan xs) ≡ length xs
  pub same_keys :
      (n k : String) (xs : List (String × String)) → occurrences n k (scan xs) ≡ occurrences n k xs

-- How many rows pass a condition.
module _ {R : Type 0} where
  abbrev pub count_where : (R → Bool) → List R → ℕ
  count_where p [] = 0
  count_where p (r ∷ rows) = if p r then suc (count_where p rows) else count_where p rows

module _ {R : Type 0} (ns key : R → String) where
  pub length-keys_where :
      (p : R → Bool) (rows : List R) → length (keys_where ns key p rows) ≡ count_where p rows
  unfolding keys_where
  length-keys_where p [] = refl
  length-keys_where p (r ∷ rows) = ground (arith, length-keys_where p rows)

  occurrences-absent :
      (p : R → Bool) (n k : String) (rows : List R)
      → find ns key n k rows ≡ none
      → occurrences n k (keys_where ns key p rows) ≡ 0
  unfolding keys_where find
  occurrences-absent p n k [] h = refl
  occurrences-absent p n k (r ∷ rows) h = ground (arith, h, occurrences-absent p n k rows)

  -- A primary key is found once.
  pub occurrences-le_one :
      (p : R → Bool) (n k : String) (rows : List R)
      → IsKeyed ns key rows
      → occurrences n k (keys_where ns key p rows) ≤ 1
  unfolding keys_where
  occurrences-le_one p n k [] u = omega arith
  occurrences-le_one p n k (r ∷ rows) u = elim (Bool-cases (has_key ns key n k r)) [
    | inr other ↦ ground (arith, other, occurrences-le_one p n k rows u.1)
    | inl here ↦
        let a : ns r ≡ n = (str_eq_iff (ns r) n).0 (ground (arith, here)) in
        let b : key r ≡ k = (str_eq_iff (key r) k).0 (ground (arith, here)) in
        let absent : find ns key n k rows ≡ none =
          sym (ap (λ m. find ns key m (key r) rows) a ∙ ap (λ j. find ns key n j rows) b) ∙ u.0 in
        ground (arith, here, occurrences-absent p n k rows absent)
  ]

  delete-absent :
      (n k : String) (rows : List R) → find ns key n k rows ≡ none → delete ns key n k rows ≡ rows
  unfolding find delete
  delete-absent n k [] h = refl
  delete-absent n k (r ∷ rows) h = ground (arith, h, delete-absent n k rows)

  length-delete :
      (n k : String) (rows : List R)
      → IsKeyed ns key rows
      → is_some (find ns key n k rows) ≡ true
      → length (delete ns key n k rows) + 1 ≡ length rows
  unfolding find delete
  length-delete n k [] u h = cc
  length-delete n k (r ∷ rows) u h = elim (Bool-cases (has_key ns key n k r)) [
    | inr other ↦ ground (arith, other, h, length-delete n k rows u.1)
    | inl here ↦
        let a : ns r ≡ n = (str_eq_iff (ns r) n).0 (ground (arith, here)) in
        let b : key r ≡ k = (str_eq_iff (key r) k).0 (ground (arith, here)) in
        let absent : find ns key n k rows ≡ none =
          sym (ap (λ m. find ns key m (key r) rows) a ∙ ap (λ j. find ns key n j rows) b) ∙ u.0 in
        rw (here, delete-absent n k rows absent) (omega arith)
  ]

  -- A batch of keys that are there, each once, removes as many rows as it has keys.
  pub length-delete_batch :
      (batch : List (String × String)) (rows : List R)
      → IsKeyed ns key rows
      → ((n k : String) → occurrences n k batch ≤ 1)
      → ((n k : String) → 0 < occurrences n k batch → is_some (find ns key n k rows) ≡ true)
      → length (delete_batch ns key batch rows) + length batch ≡ length rows
  unfolding delete_batch
  length-delete_batch [] rows u once there = omega arith
  length-delete_batch ((n, k) ∷ batch) rows u once there =
      let own : (str_eq n n && str_eq k k) ≡ true =
        rw ((str_eq_iff n n).1 refl, (str_eq_iff k k).1 refl) refl in
      let gone : occurrences n k batch ≡ 0 = ground (arith, once n k, own) in
      let apart : ((m j : String)
          → 0 < occurrences m j batch
          → (str_eq n m && str_eq k j) ≡ false) =
        λ m j h. elim (Bool-cases (str_eq n m && str_eq k j)) [
          | inr other ↦ other
          | inl same ↦
              let a : n ≡ m = (str_eq_iff n m).0 (ground (arith, same)) in
              let b : k ≡ j = (str_eq_iff k j).0 (ground (arith, same)) in
              let none_left : occurrences m j batch ≡ 0 =
                sym (ap (λ x. occurrences x k batch) a ∙ ap (λ x. occurrences m x batch) b)
                ∙ gone in
              absurd (omega (arith, h, none_left))
        ] in
      let rest =
        length-delete_batch batch (delete ns key n k rows) (IsKeyed-delete ns key n k rows u)
          (λ m j. ground (arith, once m j))
          (λ m j h.
            ap is_some (find-delete ns key m j n k rows (apart m j h))
            ∙ there m j (ground (arith, h))) in
      omega (arith, rest, length-delete n k rows u (there n k (ground (arith, own))))
