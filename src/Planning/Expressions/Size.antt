-- ===== src/Planning/Expressions/Size.antt =====
-- Node count and traversal, and the bounds that construction sets.
use nl2data_core.Common.{◌≤◌, ◌≡◌, true, arith, length, length-append}
use nl2data_core.Planning.Expressions.Syntax.{
  IrExpression, field, literal, predicate, binary, round, coalesce, nullif, case, date_trunc,
  aggregate, prior_period, Operands, done, operand, Whens, last, when, Default, absent, present,
}
use nl2data_core.Planning.Expressions.Traversal.{
  expression_depth, expression_node_count, operands_count, whens_count, default_count, iter_nodes,
  operands_nodes, whens_nodes, default_nodes,
}
use nl2data_core.Planning.Expressions.Validation.{check_bounds, node_ok, well_formed}

mutual
  unfolding iter_nodes expression_node_count

  nodes_le : (e : IrExpression) → length (iter_nodes e) ≤ expression_node_count e
  nodes_le (field f) = omega arith
  nodes_le (literal v) = omega arith
  nodes_le (predicate p) = omega arith
  nodes_le (binary op l r z) =
      omega (arith, nodes_le l, nodes_le r, length-append (iter_nodes l) (iter_nodes r))
  nodes_le (round e scale) = omega (arith, nodes_le e)
  nodes_le (coalesce es) = omega (arith, operands_nodes_le es)
  nodes_le (nullif l r) =
      omega (arith, nodes_le l, nodes_le r, length-append (iter_nodes l) (iter_nodes r))
  nodes_le (case ws d) = omega (
    arith,
    whens_nodes_le ws,
    default_nodes_le d,
    length-append (whens_nodes ws) (default_nodes d),
  )
  nodes_le (date_trunc d) = omega arith
  nodes_le (aggregate a) = omega arith
  nodes_le (prior_period p) = omega arith

  operands_nodes_le : (es : Operands) → length (operands_nodes es) ≤ operands_count es
  operands_nodes_le done = omega arith
  operands_nodes_le (operand e es) =
      omega
        (arith, nodes_le e, operands_nodes_le es, length-append (iter_nodes e) (operands_nodes es))

  whens_nodes_le : (ws : Whens) → length (whens_nodes ws) ≤ whens_count ws
  whens_nodes_le last = omega arith
  whens_nodes_le (when p e ws) =
      omega (arith, nodes_le e, whens_nodes_le ws, length-append (iter_nodes e) (whens_nodes ws))

  default_nodes_le : (d : Default) → length (default_nodes d) ≤ default_count d
  default_nodes_le absent = omega arith
  default_nodes_le (present e) = omega (arith, nodes_le e)

-- The traversal yields at most as many nodes as are counted.
pub iter_nodes-le-node_count : (e : IrExpression) → length (iter_nodes e) ≤ expression_node_count e
iter_nodes-le-node_count e = nodes_le e

bounds_of_node_ok :
    (e : IrExpression)
    → node_ok e ≡ true
    → (expression_depth e ≤ 6) × (expression_node_count e ≤ 24)
unfolding node_ok check_bounds expression_depth expression_node_count
bounds_of_node_ok (field f) h = omega arith
bounds_of_node_ok _ h = ground arith

node_ok_of_well_formed : (e : IrExpression) → well_formed e ≡ true → node_ok e ≡ true
unfolding well_formed
node_ok_of_well_formed (field f) h = h
node_ok_of_well_formed _ h = ground arith

-- A tree that can be constructed is bounded in depth and node count, whatever node is at its root,
-- and its traversal is bounded as well.
pub well_formed_bounds :
    (e : IrExpression)
    → well_formed e ≡ true
    → (expression_depth e ≤ 6) × (expression_node_count e ≤ 24) × (length (iter_nodes e) ≤ 24)
well_formed_bounds e h =
    let (shallow, small) = bounds_of_node_ok e (node_ok_of_well_formed e h) in
    (shallow, small, omega (arith, nodes_le e))
