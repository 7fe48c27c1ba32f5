-- ===== src/Planning/Expressions/Tests.antt =====
-- A filtered ratio, and the theorems about expressions at it.
use nl2data_core.Common.{ℕ, ◌≤◌, ◌≡◌, ◌↔◌, refl, true, false, some, [], ◌∷◌, any, contains, length}
use nl2data_core.Common.Text.{is_identifier}
use nl2data_core.Planning.Expressions.Syntax.{
  Scalar, scalar, unset, PredicateOp, in_values, predicate, IrPredicateExpr, IrAggregateExpr,
  IrPriorPeriodExpr, div, mul, null_policy, AggregateFunc, IrExpression, binary, round, case,
  aggregate, prior_period, coalesce, literal, done, last, when, present,
}
use nl2data_core.Planning.Expressions.Traversal.{
  expression_depth, expression_node_count, iter_nodes, expression_field_ids,
  expression_has_aggregates, expression_required_capabilities,
}
use nl2data_core.Planning.Expressions.Validation.{node_ok, check_bounds, well_formed}
use nl2data_core.Planning.Expressions.Size.{well_formed_bounds}
use nl2data_core.Planning.Expressions.Subterms.{Subterm}
use nl2data_core.Planning.Expressions.Depth.{Chain, expression_depth-Chain}
use nl2data_core.Planning.Expressions.Nodes.{has_aggregates-Subterm, required_capabilities-Subterm}
use nl2data_core.Planning.Expressions.Fields.{names_field, contains-field_ids}

abbrev paid : IrPredicateExpr
paid = record {
  op = PredicateOp.eq;
  operand = record { field_id = "status" };
  value = scalar (Scalar.str "paid");
}

abbrev total : IrExpression
total = aggregate (record {
  func = AggregateFunc.sum;
  operand = record { field_id = "amount" };
  filter = some paid;
})

-- round(sum(amount) filter (status = paid) / case when status = paid then 2 else 1 end, 2)
abbrev ratio : IrExpression
ratio =
    round
      (binary div total
        (case (when paid (literal (Scalar.int false 2)) last)
          (present (literal (Scalar.int false 1))))
        null_policy)
      2

ratio_measures : (expression_depth ratio ≡ 4) × (expression_node_count ratio ≡ 10)
unfolding expression_depth expression_node_count
ratio_measures = (refl, refl)

ratio-well_formed : well_formed ratio ≡ true
unfolding well_formed node_ok check_bounds is_identifier expression_depth expression_node_count
ratio-well_formed = refl

-- A policy of null is refused for anything but a division.
product_refused : well_formed (binary mul total total null_policy) ≡ false
unfolding well_formed node_ok check_bounds is_identifier expression_depth expression_node_count
product_refused = refl

-- `coalesce` wants an operand.
coalesce_refused : well_formed (coalesce done) ≡ false
unfolding well_formed node_ok
coalesce_refused = refl

-- The default of a predicate's value is not validated, a value of None is.
unset_accepted : well_formed (predicate (record paid { op = in_values; value = unset })) ≡ true
unfolding well_formed node_ok is_identifier
unset_accepted = refl

null_refused :
    well_formed (predicate (record paid { op = in_values; value = scalar Scalar.null })) ≡ false
unfolding well_formed node_ok is_identifier
null_refused = refl

ratio_fields : expression_field_ids ratio ≡ "amount" ∷ "status" ∷ "status" ∷ []
unfolding expression_field_ids
ratio_fields = refl

well_formed_bounds_example :
    (expression_depth ratio ≤ 6)
    × (expression_node_count ratio ≤ 24)
    × (length (iter_nodes ratio) ≤ 24)
well_formed_bounds_example = well_formed_bounds ratio ratio-well_formed

-- The depth is that of ratio's longest chain, and none is longer.
expression_depth-Chain_example :
    ((n : ℕ) → Chain ratio n → n ≤ expression_depth ratio) × Chain ratio (expression_depth ratio)
expression_depth-Chain_example = expression_depth-Chain ratio

has_aggregates-Subterm_example :
    (expression_has_aggregates ratio ≡ true) ↔ ((a : IrAggregateExpr) × Subterm ratio (aggregate a))
has_aggregates-Subterm_example = has_aggregates-Subterm ratio

required_capabilities-Subterm_example :
    ((contains "prior_period" (expression_required_capabilities ratio) ≡ true)
      ↔ ((p : IrPriorPeriodExpr) × Subterm ratio (prior_period p)))
    × (contains "computed_expressions" (expression_required_capabilities ratio) ≡ true)
required_capabilities-Subterm_example = required_capabilities-Subterm ratio

contains-field_ids_example :
    contains "status" (expression_field_ids ratio) ≡ any (names_field "status") (iter_nodes ratio)
contains-field_ids_example = contains-field_ids "status" ratio
