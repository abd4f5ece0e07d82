-- ===== src/Api/Requests.antt =====
-- internal/api/request.go: the bodies of requests and their validation.
use smart_retry_orchestrator.Float.{Float64}
use smart_retry_orchestrator.Common.{
  List, String, Bool, false, Option, str_eq, [], ◌∷◌, if◌then◌else◌, ◌||◌, some, length, not, none,
  ◌==◌, ◌++◌, ◌&&◌,
}
use smart_retry_orchestrator.Orchestrator.State.{Env, pure, Action, ◌>>=◌, time_now}
use smart_retry_orchestrator.Domain.Models.{Time, FailureEvent}
use smart_retry_orchestrator.Domain.Enums.{processor_a, processor_b, processor_c}
use smart_retry_orchestrator.Common.Text.{concat}

pub record FailureRequest (F : Type 0) : Type 0 where
  pub transaction_id : String
  pub amount : F
  pub currency : String
  pub failure_code : String
  pub processor : String
  pub card_type : String
  pub bin : String
  pub country : String
  pub timestamp : String

pub record BatchFailureRequest (F : Type 0) : Type 0 where
  pub events : List (FailureRequest F)

pub record RetryOutcomeRequest : Type 0 where
  pub processor : String
  pub success : Bool

-- `if failed { errs = append(errs, message) }`
unfoldable pub append_if : Bool → String → List String → List String
append_if failed message errs = if failed then errs ++ message ∷ [] else errs

-- membership in the keys of a map whose values are all true
abbrev pub is_one_of : List String → String → Bool
is_one_of [] s = false
is_one_of (k ∷ rest) s = str_eq k s || is_one_of rest s

abbrev pub valid_currencies : List String
valid_currencies = "IDR" ∷ "MYR" ∷ "PHP" ∷ "USD" ∷ "EUR" ∷ "GBP" ∷ "SGD" ∷ []

abbrev pub valid_processors : List String
valid_processors = processor_a ∷ processor_b ∷ processor_c ∷ []

module _ {F : Type 0} ⦃fl : Float64 F⦄ where
  -- FailureRequest.Validate
  unfoldable pub validate_failure : FailureRequest F → List String
  unfolding concat
  validate_failure r =
      let errs = append_if (str_eq r.transaction_id "") "transaction_id is required" [] in
      let errs = append_if (fl.le r.amount (fl.lit 0 1)) "amount must be greater than 0" errs in
      let errs = append_if (str_eq r.currency "") "currency is required" errs in
      let errs =
        append_if (not (str_eq r.currency "") && not (is_one_of valid_currencies r.currency))
          (concat ("invalid currency: " ∷ r.currency ∷ [])) errs in
      let errs = append_if (str_eq r.failure_code "") "failure_code is required" errs in
      let errs = append_if (str_eq r.processor "") "processor is required" errs in
      append_if (not (str_eq r.processor "") && not (is_one_of valid_processors r.processor))
        (concat ("invalid processor: " ∷ r.processor ∷ [])) errs

-- BatchFailureRequest.Validate; a nil slice is the empty list
unfoldable pub validate_batch : {F : Type 0} → BatchFailureRequest F → List String
validate_batch r =
    if length r.events == 0 then "events array is required and must not be empty" ∷ [] else []

-- RetryOutcomeRequest.Validate
unfoldable pub validate_outcome : RetryOutcomeRequest → List String
validate_outcome r = append_if (str_eq r.processor "") "processor is required" []

abbrev parsed_or : Time → Option Time → Time
parsed_or ts none = ts
parsed_or ts (some parsed) = parsed

-- ToEvent: `parse_time` is time.Parse with the layout RFC3339, and `none` its error.
module _ {F : Type 0} (parse_time : String → Option Time) where
  unfoldable pub event_at : Time → FailureRequest F → FailureEvent F
  event_at now r = record {
    transaction_id = r.transaction_id;
    amount = r.amount;
    currency = r.currency;
    failure_code = r.failure_code;
    processor = r.processor;
    card_type = r.card_type;
    bin = r.bin;
    country = r.country;
    timestamp = if str_eq r.timestamp "" then now else parsed_or now (parse_time r.timestamp);
    metadata = [];
  }

  unfoldable pub to_event : ⦃env : Env F⦄ → FailureRequest F → Action F (FailureEvent F)
  unfolding pure event_at
  to_event r = do now ← time_now; pure (event_at now r)
