-- ===== src/Planning/Expressions/Depth.antt =====
-- The longest chains of nodes that lead down into a tree of planning/ir/expressions.py, and the
-- depth that is computed for it.
use nl2data_core.Common.{ℕ, ◌+◌, ◌≤◌, max, ◌≡◌, ◌⊎◌, inl, inr, subst, sym, arith}
use nl2data_core.Planning.Expressions.Syntax.{
  IrExpression, field, literal, predicate, binary, round, coalesce, nullif, case, date_trunc,
  aggregate, prior_period, Operands, done, operand, Whens, last, when, Default, absent, present,
  IrDateTruncExpr, IrAggregateExpr, IrPriorPeriodExpr,
}
use nl2data_core.Planning.Expressions.Traversal.{
  expression_depth, operands_depth, whens_depth, default_depth,
}
use nl2data_core.Planning.Expressions.Subterms.{
  InOperands, InWhens, Child, first, later, binary_left, binary_right, rounded, coalesced,
  nullif_left, nullif_right, result, otherwise,
}

-- A chain of so many nodes leads down from the root. The field that a date truncation, an aggregate
-- or a prior period reads is a node of a chain as well; conditions and filters are not.
pub data Chain : IrExpression → ℕ → Type 0 where
  root : (e : IrExpression) → Chain e 1
  truncated_field : (d : IrDateTruncExpr) → Chain (date_trunc d) 2
  aggregated_field : (a : IrAggregateExpr) → Chain (aggregate a) 2
  compared_field : (p : IrPriorPeriodExpr) → Chain (prior_period p) 2
  down : (e c : IrExpression) (n : ℕ) → Child e c → Chain c n → Chain e (1 + n)

operand_depth :
    (c : IrExpression) (es : Operands) → InOperands c es → expression_depth c ≤ operands_depth es
unfolding expression_depth
operand_depth c _ (first es) = omega arith
operand_depth c _ (later e es i) = omega (arith, operand_depth c es i)

when_depth :
    (c : IrExpression) (ws : Whens) → InWhens c ws → 1 + expression_depth c ≤ whens_depth ws
unfolding expression_depth
when_depth c _ (first p ws) = omega arith
when_depth c _ (later p e ws i) = omega (arith, when_depth c ws i)

Child-depth : (e c : IrExpression) → Child e c → 1 + expression_depth c ≤ expression_depth e
unfolding expression_depth
Child-depth _ _ (binary_left op l r z) = omega arith
Child-depth _ _ (binary_right op l r z) = omega arith
Child-depth _ _ (rounded e scale) = omega arith
Child-depth _ _ (coalesced es c i) = omega (arith, operand_depth c es i)
Child-depth _ _ (nullif_left l r) = omega arith
Child-depth _ _ (nullif_right l r) = omega arith
Child-depth _ _ (result ws d c i) = omega (arith, when_depth c ws i)
Child-depth _ _ (otherwise ws c) = omega arith

whens_depth_pos : (ws : Whens) → 1 ≤ whens_depth ws
unfolding expression_depth
whens_depth_pos last = omega arith
whens_depth_pos (when p e ws) = omega (arith, whens_depth_pos ws)

depth_pos : (e : IrExpression) → 1 ≤ expression_depth e
unfolding expression_depth
depth_pos (case ws d) = omega (arith, whens_depth_pos ws)
depth_pos _ = omega arith

within : (e : IrExpression) (n : ℕ) → Chain e n → n ≤ expression_depth e
unfolding expression_depth
within _ _ (root e) = depth_pos e
within _ _ (truncated_field d) = omega arith
within _ _ (aggregated_field a) = omega arith
within _ _ (compared_field p) = omega arith
within _ _ (down e c n i ch) = omega (arith, Child-depth e c i, within c n ch)

max_choice : (a b : ℕ) → (max a b ≡ a) ⊎ (max a b ≡ b)
max_choice a b = omega arith

deeper : (P : ℕ → Type 0) (a b : ℕ) → P a → P b → P (max a b)
deeper P a b pa pb = elim (max_choice a b) [
  | inl first_one ↦ subst P (sym first_one) pa
  | inr second_one ↦ subst P (sym second_one) pb
]

mutual
  unfolding expression_depth

  attained : (e : IrExpression) → Chain e (expression_depth e)
  attained (field f) = root (field f)
  attained (literal v) = root (literal v)
  attained (predicate p) = root (predicate p)
  attained (date_trunc d) = truncated_field d
  attained (aggregate a) = aggregated_field a
  attained (prior_period p) = compared_field p
  attained (round e scale) =
      down (round e scale) e (expression_depth e) (rounded e scale) (attained e)
  attained (binary op l r z) =
      deeper (λ n. Chain (binary op l r z) (1 + n)) (expression_depth l) (expression_depth r)
        (down (binary op l r z) l (expression_depth l) (binary_left op l r z) (attained l))
        (down (binary op l r z) r (expression_depth r) (binary_right op l r z) (attained r))
  attained (nullif l r) =
      deeper (λ n. Chain (nullif l r) (1 + n)) (expression_depth l) (expression_depth r)
        (down (nullif l r) l (expression_depth l) (nullif_left l r) (attained l))
        (down (nullif l r) r (expression_depth r) (nullif_right l r) (attained r))
  attained (coalesce es) = operands_attained es (coalesce es) (λ c i. coalesced es c i)
  attained (case ws d) =
      deeper (Chain (case ws d)) (whens_depth ws) (default_depth d)
        (whens_attained ws (case ws d) (λ c i. result ws d c i)) (default_attained ws d)

  operands_attained :
      (es : Operands) (e : IrExpression)
      → ((c : IrExpression) → InOperands c es → Child e c)
      → Chain e (1 + operands_depth es)
  operands_attained done e below = root e
  operands_attained (operand c es) e below =
      deeper (λ n. Chain e (1 + n)) (expression_depth c) (operands_depth es)
        (down e c (expression_depth c) (below c (first es)) (attained c))
        (operands_attained es e (λ x i. below x (later c es i)))

  whens_attained :
      (ws : Whens) (e : IrExpression)
      → ((c : IrExpression) → InWhens c ws → Child e c)
      → Chain e (whens_depth ws)
  whens_attained last e below = root e
  whens_attained (when p c ws) e below =
      deeper (Chain e) (1 + expression_depth c) (whens_depth ws)
        (down e c (expression_depth c) (below c (first p ws)) (attained c))
        (whens_attained ws e (λ x i. below x (later p c ws i)))

  default_attained : (ws : Whens) (d : Default) → Chain (case ws d) (default_depth d)
  default_attained ws absent = root (case ws absent)
  default_attained ws (present c) =
      down (case ws (present c)) c (expression_depth c) (otherwise ws c) (attained c)

-- The depth of a tree is the length of a longest chain in it: no chain is longer, and one is as
-- long.
pub expression_depth-Chain :
    (e : IrExpression)
    → ((n : ℕ) → Chain e n → n ≤ expression_depth e) × Chain e (expression_depth e)
expression_depth-Chain e = (within e, attained e)
