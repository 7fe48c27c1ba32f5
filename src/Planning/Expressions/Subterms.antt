-- ===== src/Planning/Expressions/Subterms.antt =====
-- The nodes of a tree, described by the fields of the node classes of
-- planning/ir/expressions.py, and the traversal
-- against that description.
use mathlib.Core.List.{Memᴰ}
use mathlib.Core.List.Memᴰ
use nl2data_core.Common.{ℕ, ◌≡◌, ◌↔◌, inl, inr, refl, sym, subst, [], ◌∷◌}
use nl2data_core.Planning.Expressions.Syntax.{
  IrExpression, field, literal, predicate, binary, round, coalesce, nullif, case, date_trunc,
  aggregate, prior_period, Operands, done, operand, Whens, last, when, Default, absent, present,
  BinaryOp, ZeroDivisionPolicy, IrPredicateExpr,
}
use nl2data_core.Planning.Expressions.Traversal.{
  iter_nodes, operands_nodes, whens_nodes, default_nodes,
}

pub data InOperands (c : IrExpression) : Operands → Type 0 where
  first : (es : Operands) → InOperands c (operand c es)
  later : (e : IrExpression) (es : Operands) → InOperands c es → InOperands c (operand e es)

pub data InWhens (c : IrExpression) : Whens → Type 0 where
  first : (p : IrPredicateExpr) (ws : Whens) → InWhens c (when p c ws)
  later :
      (p : IrPredicateExpr) (e : IrExpression) (ws : Whens) → InWhens c ws → InWhens c (when p e ws)

-- The second tree stands in a field of the root of the first: an operand, the result of a branch or
-- the default.
pub data Child : IrExpression → IrExpression → Type 0 where
  binary_left :
      (op : BinaryOp) (l r : IrExpression) (z : ZeroDivisionPolicy) → Child (binary op l r z) l
  binary_right :
      (op : BinaryOp) (l r : IrExpression) (z : ZeroDivisionPolicy) → Child (binary op l r z) r
  rounded : (e : IrExpression) (scale : ℕ) → Child (round e scale) e
  coalesced : (es : Operands) (c : IrExpression) → InOperands c es → Child (coalesce es) c
  nullif_left : (l r : IrExpression) → Child (nullif l r) l
  nullif_right : (l r : IrExpression) → Child (nullif l r) r
  result : (ws : Whens) (d : Default) (c : IrExpression) → InWhens c ws → Child (case ws d) c
  otherwise : (ws : Whens) (c : IrExpression) → Child (case ws (present c)) c

-- The second tree is the first, or stands anywhere below its root.
pub data Subterm : IrExpression → IrExpression → Type 0 where
  self : (e : IrExpression) → Subterm e e
  below : (e c x : IrExpression) → Child e c → Subterm c x → Subterm e x

at_root : (e x : IrExpression) → x ≡ e → Subterm e x
at_root e x same = subst (Subterm e) (sym same) (self e)

alone : (e x : IrExpression) → Memᴰ x (e ∷ []) → Subterm e x
alone e x m = at_root e x (Memᴰ.eq_of_singleton m)

mutual
  unfolding iter_nodes

  sound : (e x : IrExpression) → Memᴰ x (iter_nodes e) → Subterm e x
  sound (field f) x m = alone (field f) x m
  sound (literal v) x m = alone (literal v) x m
  sound (predicate p) x m = alone (predicate p) x m
  sound (date_trunc d) x m = alone (date_trunc d) x m
  sound (aggregate a) x m = alone (aggregate a) x m
  sound (prior_period p) x m = alone (prior_period p) x m
  sound (round e scale) x m = elim (Memᴰ.cases_cons m) [
    | inl same ↦ at_root (round e scale) x same
    | inr m2 ↦ below (round e scale) e x (rounded e scale) (sound e x m2)
  ]
  sound (binary op l r z) x m = elim (Memᴰ.cases_cons m) [
    | inl same ↦ at_root (binary op l r z) x same
    | inr m2 ↦ elim (Memᴰ.append_cases (iter_nodes l) m2) [
      | inl ml ↦ below (binary op l r z) l x (binary_left op l r z) (sound l x ml)
      | inr mr ↦ below (binary op l r z) r x (binary_right op l r z) (sound r x mr)
    ]
  ]
  sound (nullif l r) x m = elim (Memᴰ.cases_cons m) [
    | inl same ↦ at_root (nullif l r) x same
    | inr m2 ↦ elim (Memᴰ.append_cases (iter_nodes l) m2) [
      | inl ml ↦ below (nullif l r) l x (nullif_left l r) (sound l x ml)
      | inr mr ↦ below (nullif l r) r x (nullif_right l r) (sound r x mr)
    ]
  ]
  sound (coalesce es) x m = elim (Memᴰ.cases_cons m) [
    | inl same ↦ at_root (coalesce es) x same
    | inr m2 ↦
        let (c, i, s) = operands_sound es x m2 in below (coalesce es) c x (coalesced es c i) s
  ]
  sound (case ws d) x m = elim (Memᴰ.cases_cons m) [
    | inl same ↦ at_root (case ws d) x same
    | inr m2 ↦ elim (Memᴰ.append_cases (whens_nodes ws) m2) [
      | inl mw ↦ let (c, i, s) = whens_sound ws x mw in below (case ws d) c x (result ws d c i) s
      | inr md ↦ default_sound ws d x md
    ]
  ]

  operands_sound :
      (es : Operands) (x : IrExpression)
      → Memᴰ x (operands_nodes es)
      → (c : IrExpression) × InOperands c es × Subterm c x
  operands_sound done x m = absurd (Memᴰ.not-nil m)
  operands_sound (operand e es) x m = elim (Memᴰ.append_cases (iter_nodes e) m) [
    | inl here ↦ (e, first es, sound e x here)
    | inr rest ↦ let (c, i, s) = operands_sound es x rest in (c, later e es i, s)
  ]

  whens_sound :
      (ws : Whens) (x : IrExpression)
      → Memᴰ x (whens_nodes ws)
      → (c : IrExpression) × InWhens c ws × Subterm c x
  whens_sound last x m = absurd (Memᴰ.not-nil m)
  whens_sound (when p e ws) x m = elim (Memᴰ.append_cases (iter_nodes e) m) [
    | inl here ↦ (e, first p ws, sound e x here)
    | inr rest ↦ let (c, i, s) = whens_sound ws x rest in (c, later p e ws i, s)
  ]

  default_sound :
      (ws : Whens) (d : Default) (x : IrExpression)
      → Memᴰ x (default_nodes d)
      → Subterm (case ws d) x
  default_sound ws absent x m = absurd (Memᴰ.not-nil m)
  default_sound ws (present e) x m = below (case ws (present e)) e x (otherwise ws e) (sound e x m)

first_node : (e : IrExpression) → Memᴰ e (iter_nodes e)
unfolding iter_nodes
first_node (field f) = Memᴰ.head refl
first_node (literal v) = Memᴰ.head refl
first_node (predicate p) = Memᴰ.head refl
first_node (binary op l r z) = Memᴰ.head refl
first_node (round e scale) = Memᴰ.head refl
first_node (coalesce es) = Memᴰ.head refl
first_node (nullif l r) = Memᴰ.head refl
first_node (case ws d) = Memᴰ.head refl
first_node (date_trunc d) = Memᴰ.head refl
first_node (aggregate a) = Memᴰ.head refl
first_node (prior_period p) = Memᴰ.head refl

operand_nodes :
    (c x : IrExpression) (es : Operands)
    → InOperands c es
    → Memᴰ x (iter_nodes c)
    → Memᴰ x (operands_nodes es)
unfolding iter_nodes
operand_nodes c x _ (first es) m = Memᴰ.append_left (operands_nodes es) m
operand_nodes c x _ (later e es i) m = Memᴰ.append_right (iter_nodes e) (operand_nodes c x es i m)

when_nodes :
    (c x : IrExpression) (ws : Whens)
    → InWhens c ws
    → Memᴰ x (iter_nodes c)
    → Memᴰ x (whens_nodes ws)
unfolding iter_nodes
when_nodes c x _ (first p ws) m = Memᴰ.append_left (whens_nodes ws) m
when_nodes c x _ (later p e ws i) m = Memᴰ.append_right (iter_nodes e) (when_nodes c x ws i m)

child_nodes : (e c x : IrExpression) → Child e c → Memᴰ x (iter_nodes c) → Memᴰ x (iter_nodes e)
unfolding iter_nodes
child_nodes _ _ x (binary_left op l r z) m = Memᴰ.tail (Memᴰ.append_left (iter_nodes r) m)
child_nodes _ _ x (binary_right op l r z) m = Memᴰ.tail (Memᴰ.append_right (iter_nodes l) m)
child_nodes _ _ x (rounded e scale) m = Memᴰ.tail m
child_nodes _ _ x (coalesced es c i) m = Memᴰ.tail (operand_nodes c x es i m)
child_nodes _ _ x (nullif_left l r) m = Memᴰ.tail (Memᴰ.append_left (iter_nodes r) m)
child_nodes _ _ x (nullif_right l r) m = Memᴰ.tail (Memᴰ.append_right (iter_nodes l) m)
child_nodes _ _ x (result ws d c i) m =
    Memᴰ.tail (Memᴰ.append_left (default_nodes d) (when_nodes c x ws i m))
child_nodes _ _ x (otherwise ws c) m = Memᴰ.tail (Memᴰ.append_right (whens_nodes ws) m)

complete : (e x : IrExpression) → Subterm e x → Memᴰ x (iter_nodes e)
complete _ _ (self e) = first_node e
complete _ _ (below e c x i s) = child_nodes e c x i (complete c x s)

pub iter_nodes-Subterm : (e x : IrExpression) → Memᴰ x (iter_nodes e) ↔ Subterm e x
iter_nodes-Subterm e x = (sound e x, complete e x)
