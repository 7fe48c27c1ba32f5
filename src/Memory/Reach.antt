-- ===== src/Memory/Reach.antt =====
-- The stores that the operations reach from an empty one.
use mathlib.Core.List.{Memᴰ}
use nl2data_core.Common.{
  ℕ, ◌≡◌, sym, subst, ap, Bool, true, false, some, [], String, ok, arith, err, is_some, ◌∙◌,
}
use nl2data_core.Common.Dict.{lookup}
use nl2data_core.Memory.Models.{
  MemoryScope, MemoryRecord, MemoryRecallBudget, is_expired, scope_matches,
}
use nl2data_core.Memory.Provider.{
  Provider, MemoryRecallProjection, append, compare_and_set, compact, expire, delete, recall,
}
use nl2data_core.Memory.Valid.{
  IsValid, append-IsValid, expire-IsValid, delete-IsValid, compare_and_set-IsValid,
}
use nl2data_core.Memory.Compact.{compact-IsCompacted}
use nl2data_core.Memory.Recall.{recall-IsProjection}

-- One call that changes the store and returns.
pub data Step : Provider → Provider → Type 0 where
  by_append : (r : MemoryRecord) (p q : Provider) (id : String) → append r p ≡ ok (id, q) → Step p q
  by_compare_and_set :
      (e r : MemoryRecord) (p q : Provider) (b : Bool)
      → compare_and_set e r p ≡ ok (b, q)
      → Step p q
  by_compact : (now : ℕ) (p q : Provider) (n : ℕ) → compact now p ≡ ok (n, q) → Step p q
  by_expire : (id : String) (p q : Provider) (b : Bool) → expire id p ≡ ok (b, q) → Step p q
  by_delete : (id : String) (p q : Provider) (b : Bool) → delete id p ≡ ok (b, q) → Step p q

abbrev pub empty_provider : ℕ → Provider
empty_provider max_records = record {
  available = true;
  max_records = max_records;
  records = [];
  order = [];
  expired_ids = [];
}

pub data Reach (max_records : ℕ) : Provider → Type 0 where
  start : Reach max_records (empty_provider max_records)
  next : (p q : Provider) → Reach max_records p → Step p q → Reach max_records q

compact_available : (now n : ℕ) (p q : Provider) → compact now p ≡ ok (n, q) → p.available ≡ true
unfolding compact
compact_available now n p q h = ground arith

recall_available :
    (size : MemoryRecord → ℕ) (scope : MemoryScope) (budget : MemoryRecallBudget) (now : ℕ)
    (p : Provider) (m : MemoryRecallProjection)
    → recall size scope budget now p ≡ ok m
    → p.available ≡ true
unfolding recall
recall_available size scope budget now p m h = ground arith

Step-IsValid : (p q : Provider) → IsValid p → Step p q → IsValid q
Step-IsValid p q v (by_append r _ _ id h) = append-IsValid r p q id v h
Step-IsValid p q v (by_compare_and_set e r _ _ b h) = compare_and_set-IsValid e r p q b v h
Step-IsValid p q v (by_expire id _ _ b h) = expire-IsValid id p q b v h
Step-IsValid p q v (by_delete id _ _ b h) = delete-IsValid id p q b v h
Step-IsValid p q v (by_compact now _ _ n h) =
    let (k, t, made, c) = compact-IsCompacted now p (compact_available now n p q h) v in
    subst IsValid (ap (λ x. elim x [ ok y ↦ y.1 | err e ↦ p ]) (sym made ∙ h)) c.valid

-- However a provider with any capacity is used, each of its records stands once and under its own
-- id, the order has the id, and there are never more records than the capacity.
pub Reach-IsWellFormed : (max_records : ℕ) (p : Provider) → Reach max_records p → IsValid p
Reach-IsWellFormed max_records _ start = record {
  unique = λ id. ground arith;
  ordered = λ id h. cc;
  own_id = λ id r h. cc;
  bounded = ground arith;
}
Reach-IsWellFormed max_records _ (next p q r s) =
    Step-IsValid p q (Reach-IsWellFormed max_records p r) s

-- However a provider was used before, a projection that is not truncated has every stored record
-- that has not expired and matches the scope of the query.
pub recall-complete :
    (size : MemoryRecord → ℕ) (max_records : ℕ) (p : Provider) (scope : MemoryScope)
    (budget : MemoryRecallBudget) (now : ℕ) (m : MemoryRecallProjection) (id : String)
    (r : MemoryRecord)
    → Reach max_records p
    → recall size scope budget now p ≡ ok m
    → m.truncated ≡ false
    → lookup id p.records ≡ some r
    → is_expired now r ≡ false
    → scope_matches r.scope scope ≡ true
    → Memᴰ r m.records
recall-complete size max_records p scope budget now m id r reach h all there fresh same =
    let (k, made, j) =
      recall-IsProjection size scope budget now p (recall_available size scope budget now p m h) in
    let one : (k ≡ m) = ap (λ x. elim x [ ok y ↦ y | err e ↦ m ]) (sym made ∙ h) in
    subst (λ x. Memᴰ r x.records) one
      (j.complete (subst (λ x. x.truncated ≡ false) (sym one) all) id r
        ((Reach-IsWellFormed max_records p reach).ordered id (ap is_some there)) there fresh same)
