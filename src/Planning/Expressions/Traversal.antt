-- ===== src/Planning/Expressions/Traversal.antt =====
-- The functions of planning/ir/expressions.py over whole trees. Sets of texts are lists; generators
-- are the lists that they yield.
use nl2data_core.Common.{
  ℕ, ◌+◌, max, Bool, true, false, ◌||◌, Option, none, some, List, [], ◌∷◌, ◌++◌, String, is_some,
  if◌then◌else◌, any,
}
use nl2data_core.Planning.Expressions.Syntax.{
  IrPredicateExpr, IrAggregateExpr, IrPriorPeriodExpr, IrExpression, field, literal, predicate,
  binary, round, coalesce, nullif, case, date_trunc, aggregate, prior_period, Operands, done,
  operand, Whens, last, when, Default, absent, present,
}

-- `max(…)` over no operand raises; here it is 0, and construction asks for an operand.
unfoldable mutual
  pub expression_depth : IrExpression → ℕ
  expression_depth (field f) = 1
  expression_depth (literal v) = 1
  expression_depth (predicate p) = 1
  expression_depth (binary op l r z) = 1 + max (expression_depth l) (expression_depth r)
  expression_depth (round e scale) = 1 + expression_depth e
  expression_depth (coalesce es) = 1 + operands_depth es
  expression_depth (nullif l r) = 1 + max (expression_depth l) (expression_depth r)
  expression_depth (case ws d) = max (whens_depth ws) (default_depth d)
  expression_depth (date_trunc d) = 2
  expression_depth (aggregate a) = 2
  expression_depth (prior_period p) = 2

  pub operands_depth : Operands → ℕ
  operands_depth done = 0
  operands_depth (operand e es) = max (expression_depth e) (operands_depth es)

  pub whens_depth : Whens → ℕ
  whens_depth last = 1
  whens_depth (when p e ws) = max (1 + expression_depth e) (whens_depth ws)

  pub default_depth : Default → ℕ
  default_depth absent = 1
  default_depth (present e) = 1 + expression_depth e

unfoldable mutual
  pub expression_node_count : IrExpression → ℕ
  expression_node_count (field f) = 1
  expression_node_count (literal v) = 1
  expression_node_count (predicate p) = 1
  expression_node_count (binary op l r z) = 1 + expression_node_count l + expression_node_count r
  expression_node_count (round e scale) = 1 + expression_node_count e
  expression_node_count (coalesce es) = 1 + operands_count es
  expression_node_count (nullif l r) = 1 + expression_node_count l + expression_node_count r
  expression_node_count (case ws d) = 1 + whens_count ws + default_count d
  expression_node_count (date_trunc d) = 2
  expression_node_count (aggregate a) = 2 + (if is_some a.filter then 1 else 0)
  expression_node_count (prior_period p) = 2 + (if is_some p.filter then 1 else 0)

  pub operands_count : Operands → ℕ
  operands_count done = 0
  operands_count (operand e es) = expression_node_count e + operands_count es

  pub whens_count : Whens → ℕ
  whens_count last = 0
  whens_count (when p e ws) = 1 + expression_node_count e + whens_count ws

  pub default_count : Default → ℕ
  default_count absent = 0
  default_count (present e) = 1 + expression_node_count e

-- `_iter_nodes`
unfoldable mutual
  pub iter_nodes : IrExpression → List IrExpression
  iter_nodes (field f) = field f ∷ []
  iter_nodes (literal v) = literal v ∷ []
  iter_nodes (predicate p) = predicate p ∷ []
  iter_nodes (binary op l r z) = binary op l r z ∷ (iter_nodes l ++ iter_nodes r)
  iter_nodes (round e scale) = round e scale ∷ iter_nodes e
  iter_nodes (coalesce es) = coalesce es ∷ operands_nodes es
  iter_nodes (nullif l r) = nullif l r ∷ (iter_nodes l ++ iter_nodes r)
  iter_nodes (case ws d) = case ws d ∷ (whens_nodes ws ++ default_nodes d)
  iter_nodes (date_trunc d) = date_trunc d ∷ []
  iter_nodes (aggregate a) = aggregate a ∷ []
  iter_nodes (prior_period p) = prior_period p ∷ []

  pub operands_nodes : Operands → List IrExpression
  operands_nodes done = []
  operands_nodes (operand e es) = iter_nodes e ++ operands_nodes es

  pub whens_nodes : Whens → List IrExpression
  whens_nodes last = []
  whens_nodes (when p e ws) = iter_nodes e ++ whens_nodes ws

  pub default_nodes : Default → List IrExpression
  default_nodes absent = []
  default_nodes (present e) = iter_nodes e

abbrev pub filter_ids : Option IrPredicateExpr → List String
filter_ids none = []
filter_ids (some p) = p.operand.field_id ∷ []

unfoldable mutual
  pub expression_field_ids : IrExpression → List String
  expression_field_ids (field f) = f.field_id ∷ []
  expression_field_ids (literal v) = []
  expression_field_ids (predicate p) = p.operand.field_id ∷ []
  expression_field_ids (binary op l r z) = expression_field_ids l ++ expression_field_ids r
  expression_field_ids (round e scale) = expression_field_ids e
  expression_field_ids (coalesce es) = operands_field_ids es
  expression_field_ids (nullif l r) = expression_field_ids l ++ expression_field_ids r
  expression_field_ids (case ws d) = whens_field_ids ws ++ default_field_ids d
  expression_field_ids (date_trunc d) = d.operand.field_id ∷ []
  expression_field_ids (aggregate a) = a.operand.field_id ∷ filter_ids a.filter
  expression_field_ids (prior_period p) = p.operand.field_id ∷ filter_ids p.filter

  pub operands_field_ids : Operands → List String
  operands_field_ids done = []
  operands_field_ids (operand e es) = expression_field_ids e ++ operands_field_ids es

  pub whens_field_ids : Whens → List String
  whens_field_ids last = []
  whens_field_ids (when p e ws) =
      p.operand.field_id ∷ (expression_field_ids e ++ whens_field_ids ws)

  pub default_field_ids : Default → List String
  default_field_ids absent = []
  default_field_ids (present e) = expression_field_ids e

unfoldable mutual
  pub expression_has_aggregates : IrExpression → Bool
  expression_has_aggregates (aggregate a) = true
  expression_has_aggregates (field f) = false
  expression_has_aggregates (literal v) = false
  expression_has_aggregates (predicate p) = false
  expression_has_aggregates (date_trunc d) = false
  expression_has_aggregates (prior_period p) = false
  expression_has_aggregates (binary op l r z) =
      expression_has_aggregates l || expression_has_aggregates r
  expression_has_aggregates (nullif l r) =
      expression_has_aggregates l || expression_has_aggregates r
  expression_has_aggregates (round e scale) = expression_has_aggregates e
  expression_has_aggregates (coalesce es) = operands_have_aggregates es
  expression_has_aggregates (case ws d) = whens_have_aggregates ws || default_has_aggregates d

  pub operands_have_aggregates : Operands → Bool
  operands_have_aggregates done = false
  operands_have_aggregates (operand e es) =
      expression_has_aggregates e || operands_have_aggregates es

  pub whens_have_aggregates : Whens → Bool
  whens_have_aggregates last = false
  whens_have_aggregates (when p e ws) = expression_has_aggregates e || whens_have_aggregates ws

  pub default_has_aggregates : Default → Bool
  default_has_aggregates absent = false
  default_has_aggregates (present e) = expression_has_aggregates e

unfoldable pub prior_periods : List IrExpression → List IrPriorPeriodExpr
prior_periods [] = []
prior_periods (prior_period p ∷ es) = p ∷ prior_periods es
prior_periods (_ ∷ es) = prior_periods es

unfoldable pub iter_prior_period_nodes : IrExpression → List IrPriorPeriodExpr
unfolding prior_periods
iter_prior_period_nodes e = prior_periods (iter_nodes e)

unfoldable pub aggregates : List IrExpression → List IrAggregateExpr
aggregates [] = []
aggregates (aggregate a ∷ es) = a ∷ aggregates es
aggregates (_ ∷ es) = aggregates es

unfoldable pub iter_aggregate_nodes : IrExpression → List IrAggregateExpr
unfolding aggregates
iter_aggregate_nodes e = aggregates (iter_nodes e)

-- `node.kind == "prior_period"`
abbrev pub is_prior_period : IrExpression → Bool
is_prior_period (prior_period p) = true
is_prior_period _ = false

unfoldable pub expression_required_capabilities : IrExpression → List String
expression_required_capabilities e =
    if any is_prior_period (iter_nodes e)
    then "computed_expressions" ∷ "prior_period" ∷ []
    else "computed_expressions" ∷ []
