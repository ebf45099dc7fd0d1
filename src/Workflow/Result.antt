-- ===== src/Workflow/Result.antt =====
-- office_connect/core/workflow/errors.py: the codes of the `APIError`s, and functions that may raise.
-- A raise aborts the caller's transaction, so a failing call hands back no database.
pub use office_connect.Base.Attempts.{
  Attempt, ok, err, ◌>>=◌, ◌>>◌, guard, require, >>=-eq-ok, guard-eq-ok, require-eq-ok,
  ok-injective,
}

pub data Error : Type 0 where
  instance_not_found definition_not_published module_disabled stale_version state_conflict : Error
  already_acted not_authorized transition_not_allowed comment_required : Error
  invalid_definition already_published segregation_of_duties : Error
  -- the `NoResultFound` or `MultipleResultsFound` of `.one()`
  not_exactly_one_row : Error
  -- the `AttributeError` of an attribute read from `None`
  attribute_error : Error

-- A call that raises, or its value.
abbrev pub Result {ℓ} : Type ℓ → Type ℓ
Result A = Attempt Error A
