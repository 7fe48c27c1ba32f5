-- ===== src/Workflow/Sqlite/Batches/Keyed.antt =====
-- The statements and the primary key of a table.
use nl2data_core.Common.{
  ◌≡◌, refl, sym, ap, ◌∙◌, inl, inr, Bool-cases, Bool, true, false, ◌&&◌, none, List, [], ◌∷◌, ◌++◌,
  String, arith, All, str_eq, str_eq_iff, if◌then◌else◌,
}
use nl2data_core.Workflow.Sqlite.Batches.{has_key, delete, delete_batch, update, find, IsKeyed}

module _ {R : Type 0} (ns key : R → String) where
  find-append-ne :
      (n k : String) (rows : List R) (r : R)
      → find ns key n k rows ≡ none
      → has_key ns key n k r ≡ false
      → find ns key n k (rows ++ r ∷ []) ≡ none
  unfolding find
  find-append-ne n k [] r free apart = rw apart refl
  find-append-ne n k (x ∷ rows) r free apart =
      ground (arith, free, find-append-ne n k rows r, apart)

  -- A row of another key has not the key of a row that the table lacks.
  apart_of_free :
      (x r : R) (rows : List R)
      → find ns key (ns r) (key r) (x ∷ rows) ≡ none
      → has_key ns key (ns x) (key x) r ≡ false
  unfolding find
  apart_of_free x r rows free = elim (Bool-cases (has_key ns key (ns x) (key x) r)) [
    | inr apart ↦ apart
    | inl same ↦
        let a : ns r ≡ ns x = (str_eq_iff (ns r) (ns x)).0 (ground (arith, same)) in
        let b : key r ≡ key x = (str_eq_iff (key r) (key x)).0 (ground (arith, same)) in
        let own : has_key ns key (ns r) (key r) x ≡ true =
          rw ((str_eq_iff (ns x) (ns r)).1 (sym a), (str_eq_iff (key x) (key r)).1 (sym b)) refl in
        ground (arith, own, free)
  ]

  free_of_rest :
      (n k : String) (x : R) (rows : List R)
      → find ns key n k (x ∷ rows) ≡ none
      → find ns key n k rows ≡ none
  unfolding find
  free_of_rest n k x rows h = ground (arith, h)

  pub IsKeyed-append :
      (rows : List R) (r : R)
      → IsKeyed ns key rows
      → find ns key (ns r) (key r) rows ≡ none
      → IsKeyed ns key (rows ++ r ∷ [])
  unfolding find
  IsKeyed-append [] r u free = (refl, tt)
  IsKeyed-append (x ∷ rows) r u free = (
    find-append-ne (ns x) (key x) rows r u.0 (apart_of_free x r rows free),
    IsKeyed-append rows r u.1 (free_of_rest (ns r) (key r) x rows free),
  )

  find-delete-none :
      (n k m j : String) (rows : List R)
      → find ns key n k rows ≡ none
      → find ns key n k (delete ns key m j rows) ≡ none
  unfolding find delete
  find-delete-none n k m j [] h = refl
  find-delete-none n k m j (x ∷ rows) h = ground (arith, h, find-delete-none n k m j rows)

  -- The key that was deleted is free.
  pub find-delete_self :
      (n k : String) (rows : List R) → find ns key n k (delete ns key n k rows) ≡ none
  unfolding find delete
  find-delete_self n k [] = refl
  find-delete_self n k (x ∷ rows) = ground (arith, find-delete_self n k rows)

  pub IsKeyed-delete :
      (n k : String) (rows : List R) → IsKeyed ns key rows → IsKeyed ns key (delete ns key n k rows)
  unfolding delete
  IsKeyed-delete n k [] u = tt
  IsKeyed-delete n k (x ∷ rows) u = elim (Bool-cases (has_key ns key n k x)) [
    | inl here ↦ rw here (IsKeyed-delete n k rows u.1)
    | inr there ↦
        rw there (find-delete-none (ns x) (key x) n k rows u.0, IsKeyed-delete n k rows u.1)
  ]

  pub IsKeyed-delete_batch :
      (batch : List (String × String)) (rows : List R)
      → IsKeyed ns key rows
      → IsKeyed ns key (delete_batch ns key batch rows)
  unfolding delete_batch
  IsKeyed-delete_batch [] rows u = u
  IsKeyed-delete_batch ((n, k) ∷ batch) rows u =
      IsKeyed-delete_batch batch (delete ns key n k rows) (IsKeyed-delete n k rows u)

  -- Deleting keeps what holds of every row.
  pub All-delete {κ} :
      (P : R → Type κ) (n k : String) (rows : List R) → All P rows → All P (delete ns key n k rows)
  unfolding delete
  All-delete P n k [] h = tt
  All-delete P n k (x ∷ rows) h = elim (Bool-cases (has_key ns key n k x)) [
    | inl here ↦ rw here (All-delete P n k rows h.1)
    | inr there ↦ rw there (h.0, All-delete P n k rows h.1)
  ]

  pub All-delete_batch {κ} :
      (P : R → Type κ) (batch : List (String × String)) (rows : List R)
      → All P rows
      → All P (delete_batch ns key batch rows)
  unfolding delete_batch
  All-delete_batch P [] rows h = h
  All-delete_batch P ((n, k) ∷ batch) rows h =
      All-delete_batch P batch (delete ns key n k rows) (All-delete P n k rows h)

  module _ (f : R → R) (same_ns : (r : R) → ns (f r) ≡ ns r)
      (same_key : (r : R) → key (f r) ≡ key r) where
    has_key-chosen :
        (n k : String) (b : Bool) (x : R)
        → has_key ns key n k (if b then f x else x) ≡ has_key ns key n k x
    has_key-chosen n k true x =
        ap (λ a. str_eq a n && str_eq (key (f x)) k) (same_ns x)
        ∙ ap (λ a. str_eq (ns x) n && str_eq a k) (same_key x)
    has_key-chosen n k false x = refl

    find-update-none :
        (n k m j : String) (rows : List R)
        → find ns key n k rows ≡ none
        → find ns key n k (update ns key m j f rows) ≡ none
    unfolding find update
    find-update-none n k m j [] h = refl
    find-update-none n k m j (x ∷ rows) h =
        ground
          (arith, h, has_key-chosen n k (has_key ns key m j x) x, find-update-none n k m j rows)

    chosen_free :
        (b : Bool) (x : R) (rows : List R)
        → find ns key (ns x) (key x) rows ≡ none
        → find ns key (ns (if b then f x else x)) (key (if b then f x else x)) rows ≡ none
    chosen_free true x rows h = rw (same_ns x, same_key x) h
    chosen_free false x rows h = h

    pub IsKeyed-update :
        (m j : String) (rows : List R)
        → IsKeyed ns key rows
        → IsKeyed ns key (update ns key m j f rows)
    unfolding update
    IsKeyed-update m j [] u = tt
    IsKeyed-update m j (x ∷ rows) u = (
      chosen_free (has_key ns key m j x) x (update ns key m j f rows)
          (find-update-none (ns x) (key x) m j rows u.0),
      IsKeyed-update m j rows u.1,
    )
