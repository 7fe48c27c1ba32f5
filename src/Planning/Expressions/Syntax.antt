-- ===== src/Planning/Expressions/Syntax.antt =====
-- The node classes of planning/ir/expressions.py. A float is its IEEE 754 double as 64 bits. The
-- children of a node stand in lists of their own, since the block is mutually recursive.
use nl2data_core.Common.{ℕ, Bool, Option, List, String}

-- A Python value in a literal or a predicate; `other` is any value that is no JSON scalar.
pub data Scalar : Type 0 where
  str : String → Scalar
  int : Bool → ℕ → Scalar
  float : ℕ → Scalar
  bool : Bool → Scalar
  null : Scalar
  other : Scalar

-- `value` of a predicate: a scalar, a tuple or list, or the default None where none is given.
pub data PredicateValue : Type 0 where
  scalar : Scalar → PredicateValue
  items : List Scalar → PredicateValue
  unset : PredicateValue

pub record IrFieldExpr : Type 0 where
  pub field_id : String

pub data PredicateOp : Type 0 where
  eq ne gt gte lt lte in_values is_null is_not_null : PredicateOp

pub record IrPredicateExpr : Type 0 where
  pub op : PredicateOp
  pub operand : IrFieldExpr
  pub value : PredicateValue

pub data BinaryOp : Type 0 where
  add sub mul div : BinaryOp

pub data ZeroDivisionPolicy : Type 0 where
  null_policy error_policy : ZeroDivisionPolicy

pub data Bucket : Type 0 where
  day week month : Bucket

pub data PeriodBucket : Type 0 where
  prior_week prior_month : PeriodBucket

pub data AggregateFunc : Type 0 where
  count count_distinct sum avg min max : AggregateFunc

pub data PeriodAggregate : Type 0 where
  period_count period_sum : PeriodAggregate

pub record IrDateTruncExpr : Type 0 where
  pub bucket : Bucket
  pub operand : IrFieldExpr

pub record IrAggregateExpr : Type 0 where
  pub func : AggregateFunc
  pub operand : IrFieldExpr
  pub filter : Option IrPredicateExpr

pub record IrPriorPeriodExpr : Type 0 where
  pub aggregate : PeriodAggregate
  pub bucket : PeriodBucket
  pub operand : IrFieldExpr
  pub filter : Option IrPredicateExpr

mutual
  pub data IrExpression : Type 0 where
    field : IrFieldExpr → IrExpression
    literal : Scalar → IrExpression
    predicate : IrPredicateExpr → IrExpression
    binary : BinaryOp → IrExpression → IrExpression → ZeroDivisionPolicy → IrExpression
    round : IrExpression → ℕ → IrExpression
    coalesce : Operands → IrExpression
    nullif : IrExpression → IrExpression → IrExpression
    case : Whens → Default → IrExpression
    date_trunc : IrDateTruncExpr → IrExpression
    aggregate : IrAggregateExpr → IrExpression
    prior_period : IrPriorPeriodExpr → IrExpression

  -- `tuple[IrExpression, ...]`
  pub data Operands : Type 0 where
    done : Operands
    operand : IrExpression → Operands → Operands

  -- `tuple[IRCaseWhen, ...]`
  pub data Whens : Type 0 where
    last : Whens
    when : IrPredicateExpr → IrExpression → Whens → Whens

  -- `IrExpression | None`
  pub data Default : Type 0 where
    absent : Default
    present : IrExpression → Default
