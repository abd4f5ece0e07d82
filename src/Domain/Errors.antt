-- ===== src/Domain/Errors.antt =====
-- internal/domain/errors.go, and the errors that the orchestrator wraps them in by `%w`.
use smart_retry_orchestrator.Common.{String, Bool, true, false, ◌∷◌, []}
use smart_retry_orchestrator.Common.Text.{concat}

pub data Error : Type 0 where
  not_found duplicate_id invalid_input : Error
  -- fmt.Errorf("…: %w", err)
  wrapped : String → Error → Error

-- errors.Is(err, ErrDuplicateID)
unfoldable pub is_duplicate : Error → Bool
is_duplicate duplicate_id = true
is_duplicate (wrapped s e) = is_duplicate e
is_duplicate _ = false

-- errors.Is(err, ErrNotFound)
unfoldable pub is_not_found : Error → Bool
is_not_found not_found = true
is_not_found (wrapped s e) = is_not_found e
is_not_found _ = false

pub data Result {ℓ} (A : Type ℓ) : Type ℓ where
  ok : A → Result A
  err : Error → Result A

-- err.Error()
unfoldable pub error_text : Error → String
unfolding concat
error_text not_found = "not found"
error_text duplicate_id = "duplicate transaction ID"
error_text invalid_input = "invalid input"
error_text (wrapped text e) = concat (text ∷ ": " ∷ error_text e ∷ [])
