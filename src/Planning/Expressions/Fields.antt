-- ===== src/Planning/Expressions/Fields.antt =====
-- The field ids of a tree are those that the nodes of its traversal name themselves.
use nl2data_core.Common.{
  ◌≡◌, refl, Bool, false, ◌||◌, List, ◌++◌, String, arith, any, any-append, contains, str_eq,
}
use nl2data_core.Planning.Expressions.Syntax.{
  IrExpression, field, literal, predicate, binary, round, coalesce, nullif, case, date_trunc,
  aggregate, prior_period, Operands, done, operand, Whens, last, when, Default, absent, present,
}
use nl2data_core.Planning.Expressions.Traversal.{
  iter_nodes, operands_nodes, whens_nodes, default_nodes, filter_ids, expression_field_ids,
  operands_field_ids, whens_field_ids, default_field_ids,
}

-- Whether a condition of a case expression is over the field.
pub conditions_name : String → Whens → Bool
conditions_name f last = false
conditions_name f (when p e ws) = str_eq f p.operand.field_id || conditions_name f ws

-- Whether a node itself, not one below it, is over the field.
pub names_field : String → IrExpression → Bool
unfolding conditions_name
names_field f (field x) = str_eq f x.field_id
names_field f (predicate p) = str_eq f p.operand.field_id
names_field f (case ws d) = conditions_name f ws
names_field f (date_trunc d) = str_eq f d.operand.field_id
names_field f (aggregate a) = str_eq f a.operand.field_id || contains f (filter_ids a.filter)
names_field f (prior_period p) = str_eq f p.operand.field_id || contains f (filter_ids p.filter)
names_field f _ = false

module _ (f : String) where
  pair :
      (xs ys : List String) (ms ns : List IrExpression)
      → contains f xs ≡ any (names_field f) ms
      → contains f ys ≡ any (names_field f) ns
      → contains f (xs ++ ys) ≡ any (names_field f) (ms ++ ns)
  pair xs ys ms ns hx hy =
      rw (any-append (str_eq f) xs ys, any-append (names_field f) ms ns, hx, hy)

  mutual
    unfolding iter_nodes expression_field_ids names_field

    ids_are :
        (e : IrExpression)
        → contains f (expression_field_ids e) ≡ any (names_field f) (iter_nodes e)
    ids_are (field x) = refl
    ids_are (literal v) = refl
    ids_are (predicate p) = refl
    ids_are (binary op l r z) =
        pair (expression_field_ids l) (expression_field_ids r) (iter_nodes l) (iter_nodes r)
          (ids_are l) (ids_are r)
    ids_are (round e scale) = ids_are e
    ids_are (coalesce es) = operands_ids_are es
    ids_are (nullif l r) =
        pair (expression_field_ids l) (expression_field_ids r) (iter_nodes l) (iter_nodes r)
          (ids_are l) (ids_are r)
    ids_are (case ws d) = ground (
      arith,
      any-append (str_eq f) (whens_field_ids ws) (default_field_ids d),
      any-append (names_field f) (whens_nodes ws) (default_nodes d),
      whens_ids_are ws,
      default_ids_are d,
    )
    ids_are (date_trunc d) = refl
    ids_are (aggregate a) = ground arith
    ids_are (prior_period p) = ground arith

    operands_ids_are :
        (es : Operands)
        → contains f (operands_field_ids es) ≡ any (names_field f) (operands_nodes es)
    operands_ids_are done = refl
    operands_ids_are (operand e es) =
        pair (expression_field_ids e) (operands_field_ids es) (iter_nodes e) (operands_nodes es)
          (ids_are e) (operands_ids_are es)

    whens_ids_are :
        (ws : Whens)
        → contains f (whens_field_ids ws)
          ≡ (conditions_name f ws || any (names_field f) (whens_nodes ws))
    whens_ids_are last = refl
    whens_ids_are (when p e ws) = ground (
      arith,
      any-append (str_eq f) (expression_field_ids e) (whens_field_ids ws),
      any-append (names_field f) (iter_nodes e) (whens_nodes ws),
      ids_are e,
      whens_ids_are ws,
    )

    default_ids_are :
        (d : Default) → contains f (default_field_ids d) ≡ any (names_field f) (default_nodes d)
    default_ids_are absent = refl
    default_ids_are (present e) = ids_are e

-- A field id is among those of a tree exactly when some node of the traversal is over that field.
pub contains-field_ids :
    (f : String) (e : IrExpression)
    → contains f (expression_field_ids e) ≡ any (names_field f) (iter_nodes e)
contains-field_ids f e = ids_are f e
