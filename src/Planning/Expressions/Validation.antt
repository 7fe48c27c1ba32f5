-- ===== src/Planning/Expressions/Validation.antt =====
-- What pydantic checks when the nodes of planning/ir/expressions.py are constructed: the field
-- constraints, the validators, and `_check_bounds` over the whole tree below a composite node.
use nl2data_core.Common.{
  ℕ, suc, ◌/◌, ◌%◌, ◌^◌, Bool, true, false, ◌&&◌, not, Option, none, some, leb, ◌==◌, length, all,
}
use nl2data_core.Common.Text.{is_identifier, codes}
use nl2data_core.Planning.Expressions.Syntax.{
  Scalar, PredicateValue, scalar, items, unset, PredicateOp, in_values, is_null, is_not_null,
  IrPredicateExpr, BinaryOp, div, ZeroDivisionPolicy, null_policy, error_policy, IrExpression,
  field, literal, predicate, binary, round, coalesce, nullif, case, date_trunc, aggregate,
  prior_period, Operands, done, operand, Whens, last, when, Default, absent, present,
}
use nl2data_core.Planning.Expressions.Traversal.{expression_depth, expression_node_count}

-- `isfinite`, on the bits of a double: the exponent is not all ones.
is_finite : ℕ → Bool
is_finite bits = not ((bits / 2 ^ 52) % 2048 == 2047)

-- `_check_scalar` returns.
scalar_ok : Scalar → Bool
unfolding is_finite
scalar_ok (Scalar.float bits) = is_finite bits
scalar_ok Scalar.other = false
scalar_ok _ = true

-- `IRLiteralExpr._validate_value`; `_MAX_LITERAL_LENGTH` is 256.
literal_ok : Scalar → Bool
unfolding scalar_ok
literal_ok (Scalar.str s) = leb (length (codes s)) 256
literal_ok v = scalar_ok v

-- `IRPredicateExpr._validate_value`; `_MAX_IN_VALUES` is 16. No validator runs on a default.
predicate_value_ok : PredicateOp → PredicateValue → Bool
unfolding scalar_ok
predicate_value_ok _ unset = true
predicate_value_ok is_null (scalar Scalar.null) = true
predicate_value_ok is_null _ = false
predicate_value_ok is_not_null (scalar Scalar.null) = true
predicate_value_ok is_not_null _ = false
predicate_value_ok in_values (items vs) =
    leb 1 (length vs) && all scalar_ok vs && leb (length vs) 16
predicate_value_ok in_values (scalar v) = false
predicate_value_ok _ (scalar v) = scalar_ok v
predicate_value_ok _ (items vs) = false

predicate_ok : IrPredicateExpr → Bool
unfolding predicate_value_ok
predicate_ok p = is_identifier p.operand.field_id && predicate_value_ok p.op p.value

filter_ok : Option IrPredicateExpr → Bool
filter_ok none = true
filter_ok (some p) = predicate_ok p

-- `_check_bounds` returns: `MAX_EXPRESSION_DEPTH` is 6 and `MAX_EXPRESSION_NODES` is 24.
unfoldable pub check_bounds : IrExpression → Bool
check_bounds e = leb (expression_depth e) 6 && leb (expression_node_count e) 24

-- `IRBinaryExpr._validate_shape`, before the bounds.
policy_ok : BinaryOp → ZeroDivisionPolicy → Bool
policy_ok div _ = true
policy_ok _ error_policy = true
policy_ok _ null_policy = false

operands_length : Operands → ℕ
operands_length done = 0
operands_length (operand e es) = suc (operands_length es)

whens_length : Whens → ℕ
whens_length last = 0
whens_length (when p e ws) = suc (whens_length ws)

conditions_ok : Whens → Bool
conditions_ok last = true
conditions_ok (when p e ws) = predicate_ok p && conditions_ok ws

-- What the construction of one node checks, its children being constructed already.
unfoldable pub node_ok : IrExpression → Bool
unfolding literal_ok predicate_ok filter_ok policy_ok operands_length whens_length conditions_ok
node_ok (field f) = is_identifier f.field_id
node_ok (literal v) = literal_ok v
node_ok (predicate p) = predicate_ok p
node_ok (binary op l r z) = policy_ok op z && check_bounds (binary op l r z)
node_ok (round e scale) = leb scale 6 && check_bounds (round e scale)
node_ok (coalesce es) =
    leb 1 (operands_length es) && leb (operands_length es) 4 && check_bounds (coalesce es)
node_ok (nullif l r) = check_bounds (nullif l r)
node_ok (case ws d) =
    leb 1 (whens_length ws)
    && leb (whens_length ws) 8
    && conditions_ok ws
    && check_bounds (case ws d)
node_ok (date_trunc d) = is_identifier d.operand.field_id
node_ok (aggregate a) = is_identifier a.operand.field_id && filter_ok a.filter
node_ok (prior_period p) = is_identifier p.operand.field_id && filter_ok p.filter

-- A tree whose construction succeeds, from the leaves up.
unfoldable mutual
  pub well_formed : IrExpression → Bool
  well_formed (field f) = node_ok (field f)
  well_formed (literal v) = node_ok (literal v)
  well_formed (predicate p) = node_ok (predicate p)
  well_formed (binary op l r z) = node_ok (binary op l r z) && (well_formed l && well_formed r)
  well_formed (round e scale) = node_ok (round e scale) && well_formed e
  well_formed (coalesce es) = node_ok (coalesce es) && operands_well_formed es
  well_formed (nullif l r) = node_ok (nullif l r) && (well_formed l && well_formed r)
  well_formed (case ws d) = node_ok (case ws d) && (whens_well_formed ws && default_well_formed d)
  well_formed (date_trunc d) = node_ok (date_trunc d)
  well_formed (aggregate a) = node_ok (aggregate a)
  well_formed (prior_period p) = node_ok (prior_period p)

  pub operands_well_formed : Operands → Bool
  operands_well_formed done = true
  operands_well_formed (operand e es) = well_formed e && operands_well_formed es

  pub whens_well_formed : Whens → Bool
  whens_well_formed last = true
  whens_well_formed (when p e ws) = well_formed e && whens_well_formed ws

  pub default_well_formed : Default → Bool
  default_well_formed absent = true
  default_well_formed (present e) = well_formed e
