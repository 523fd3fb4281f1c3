-- ===== src/Retry/Errors.antt =====
-- model_errors.go: the kinds of errors. An error's chain is Go's own.
use gepago.Base.{String, Bool, Option, none, some, str_eq, if◌then◌else◌}

-- Errors, `kindError`, and what `errors.As` finds: the kind of the outermost `kindError` of a chain.
pub record ErrorChain : Type 1 where
  pub Error : Type 0
  pub kind_error : String → Error → Error
  pub as_kind_error : Error → Option String

module _ (C : ErrorChain) where
  -- `WithErrorKind`
  unfoldable pub with_error_kind : Option C.Error → String → Option C.Error
  with_error_kind none kind = none
  with_error_kind (some e) kind = if str_eq kind "" then some e else some (C.kind_error kind e)

  -- `PermanentError`, `TransientError` and `BudgetError`
  unfoldable pub permanent_error : Option C.Error → Option C.Error
  unfolding with_error_kind
  permanent_error e = with_error_kind e "permanent"

  unfoldable pub transient_error : Option C.Error → Option C.Error
  unfolding with_error_kind
  transient_error e = with_error_kind e "transient"

  unfoldable pub budget_error : Option C.Error → Option C.Error
  unfolding with_error_kind
  budget_error e = with_error_kind e "budget"

  -- `ErrorKindOf`
  unfoldable pub error_kind_of : Option C.Error → String
  error_kind_of none = ""
  error_kind_of (some e) = elim (C.as_kind_error e) [ some kind ↦ kind | none ↦ "" ]

  -- `IsPermanent`, `IsTransient` and `IsBudget`
  unfoldable pub is_permanent : Option C.Error → Bool
  unfolding error_kind_of
  is_permanent e = str_eq (error_kind_of e) "permanent"

  unfoldable pub is_transient : Option C.Error → Bool
  unfolding error_kind_of
  is_transient e = str_eq (error_kind_of e) "transient"

  unfoldable pub is_budget : Option C.Error → Bool
  unfolding error_kind_of
  is_budget e = str_eq (error_kind_of e) "budget"
