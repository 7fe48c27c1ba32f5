-- ===== src/Planning/Expressions/Nodes.antt =====
-- Aggregates, prior periods and capabilities of a tree, by the nodes that stand in it.
use mathlib.Core.List.{Memᴰ}
use mathlib.Core.List.Memᴰ
use nl2data_core.Common.{
  ◌≡◌, ◌↔◌, refl, sym, subst, inl, inr, Bool-cases, ◌∙◌, Bool, true, false, List, [], ◌∷◌, arith,
  any, any-append, contains,
}
use nl2data_core.Planning.Expressions.Syntax.{
  IrExpression, IrAggregateExpr, IrPriorPeriodExpr, field, literal, predicate, binary, round,
  coalesce, nullif, case, date_trunc, aggregate, prior_period, Operands, done, operand, Whens, last,
  when, Default, absent, present,
}
use nl2data_core.Planning.Expressions.Traversal.{
  iter_nodes, operands_nodes, whens_nodes, default_nodes, expression_has_aggregates,
  operands_have_aggregates, whens_have_aggregates, default_has_aggregates, is_prior_period,
  expression_required_capabilities,
}
use nl2data_core.Planning.Expressions.Subterms.{Subterm, iter_nodes-Subterm}

abbrev is_aggregate : IrExpression → Bool
is_aggregate (aggregate a) = true
is_aggregate _ = false

mutual
  unfolding iter_nodes expression_has_aggregates

  has_any : (e : IrExpression) → expression_has_aggregates e ≡ any is_aggregate (iter_nodes e)
  has_any (field f) = refl
  has_any (literal v) = refl
  has_any (predicate p) = refl
  has_any (binary op l r z) =
      rw (any-append is_aggregate (iter_nodes l) (iter_nodes r), has_any l, has_any r)
  has_any (round e scale) = has_any e
  has_any (coalesce es) = operands_has_any es
  has_any (nullif l r) =
      rw (any-append is_aggregate (iter_nodes l) (iter_nodes r), has_any l, has_any r)
  has_any (case ws d) = rw (
    any-append is_aggregate (whens_nodes ws) (default_nodes d),
    whens_has_any ws,
    default_has_any d,
  )
  has_any (date_trunc d) = refl
  has_any (aggregate a) = refl
  has_any (prior_period p) = refl

  operands_has_any :
      (es : Operands) → operands_have_aggregates es ≡ any is_aggregate (operands_nodes es)
  operands_has_any done = refl
  operands_has_any (operand e es) =
      rw
        (any-append is_aggregate (iter_nodes e) (operands_nodes es), has_any e, operands_has_any es)

  whens_has_any : (ws : Whens) → whens_have_aggregates ws ≡ any is_aggregate (whens_nodes ws)
  whens_has_any last = refl
  whens_has_any (when p e ws) =
      rw (any-append is_aggregate (iter_nodes e) (whens_nodes ws), has_any e, whens_has_any ws)

  default_has_any : (d : Default) → default_has_aggregates d ≡ any is_aggregate (default_nodes d)
  default_has_any absent = refl
  default_has_any (present e) = has_any e

-- A node that passes a test stands in a tree exactly when the traversal yields one that does.
any-Memᴰ :
    (t : IrExpression → Bool) (es : List IrExpression)
    → (any t es ≡ true) ↔ ((e : IrExpression) × Memᴰ e es × (t e ≡ true))
any-Memᴰ t es = (found es, any_of es)
  where
    found :
        (es : List IrExpression) → any t es ≡ true → (e : IrExpression) × Memᴰ e es × (t e ≡ true)
    found [] h = ground arith
    found (e ∷ es) h = elim (Bool-cases (t e)) [
      | inl yes_here ↦ (e, Memᴰ.head refl, yes_here)
      | inr not_here ↦
          let (x, m, passed) = found es (ground (arith, h, not_here)) in (x, Memᴰ.tail m, passed)
    ]

    any_of :
        (es : List IrExpression) → (e : IrExpression) × Memᴰ e es × (t e ≡ true) → any t es ≡ true
    any_of [] (x, m, passed) = absurd (Memᴰ.not-nil m)
    any_of (e ∷ es) (x, m, passed) = elim (Memᴰ.cases_cons m) [
      | inl same ↦ rw (← same, passed) refl
      | inr rest ↦ rw (any_of es (x, rest, passed)) (ground arith)
    ]

any_node :
    (t : IrExpression → Bool) (e : IrExpression)
    → (any t (iter_nodes e) ≡ true) ↔ ((x : IrExpression) × Subterm e x × (t x ≡ true))
any_node t e =
    let (found, back) = any-Memᴰ t (iter_nodes e) in
    (
      λ h. let (x, m, passed) = found h in (x, (iter_nodes-Subterm e x).0 m, passed),
      λ (x, s, passed). back (x, (iter_nodes-Subterm e x).1 s, passed),
    )

aggregate_of :
    (e : IrExpression) → is_aggregate e ≡ true → (a : IrAggregateExpr) × (aggregate a ≡ e)
aggregate_of (aggregate a) h = (a, refl)
aggregate_of _ h = ground arith

prior_period_of :
    (e : IrExpression) → is_prior_period e ≡ true → (p : IrPriorPeriodExpr) × (prior_period p ≡ e)
prior_period_of (prior_period p) h = (p, refl)
prior_period_of _ h = ground arith

-- A tree is said to have an aggregate exactly when an aggregate stands somewhere in it.
pub has_aggregates-Subterm :
    (e : IrExpression)
    → (expression_has_aggregates e ≡ true) ↔ ((a : IrAggregateExpr) × Subterm e (aggregate a))
has_aggregates-Subterm e =
    let (found, back) = any_node is_aggregate e in
    (
      λ h.
          let (x, s, passed) = found (sym (has_any e) ∙ h) in
          let (a, same) = aggregate_of x passed in (a, subst (Subterm e) (sym same) s),
      λ (a, s). has_any e ∙ back (aggregate a, s, refl),
    )

-- The prior-period capability is required exactly when a prior-period node stands somewhere in the
-- tree, and the expression capability always.
pub required_capabilities-Subterm :
    (e : IrExpression)
    → ((contains "prior_period" (expression_required_capabilities e) ≡ true)
        ↔ ((p : IrPriorPeriodExpr) × Subterm e (prior_period p)))
      × (contains "computed_expressions" (expression_required_capabilities e) ≡ true)
unfolding expression_required_capabilities
required_capabilities-Subterm e =
    let (found, back) = any_node is_prior_period e in
    (
      (
        λ h.
            let (x, s, passed) = found (ground (arith, h)) in
            let (p, same) = prior_period_of x passed in (p, subst (Subterm e) (sym same) s),
        λ (p, s). rw (back (prior_period p, s, refl)) refl,
      ),
      ground arith,
    )
