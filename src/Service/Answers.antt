-- ===== src/Service/Answers.antt =====
-- The answers of the endpoints of internal/api/handler.go: a status that the endpoint allows, and a
-- body.
use smart_retry_orchestrator.Api.Responses.{
  respond_json, ResponseWriter, write, respond_error, write_header, Content, set_header,
  raw_content,
}
use smart_retry_orchestrator.Common.{
  Bool, Option, ℕ, String, some, List, if◌then◌else◌, ◌≡◌, none, [], ◌∷◌, true, refl, false, inl,
  Bool-cases, inr, ◌==◌, ◌⊎◌, Option-cases, ◌++◌,
}
use smart_retry_orchestrator.Api.Handlers.{
  serve_file, answer_result, answer_generated, answer_outcome,
}
use smart_retry_orchestrator.Domain.Errors.{
  Result, err, ok, Error, is_not_found, is_duplicate, not_found,
}
use smart_retry_orchestrator.Domain.Models.{ProcessFailureResult, Transaction}
use smart_retry_orchestrator.Float.{Float64}
use smart_retry_orchestrator.Api.Queries.{answer_transaction, answer_missing}
use smart_retry_orchestrator.Api.Routes.{
  Endpoint, get_docs_openapi, new_writer, post_failures, post_test_generate, get_transaction_by_id,
  post_retry_outcome, get_service_health, get_docs, post_failures_batch, get_transactions,
  get_transaction_retries, get_processors_health, get_metrics_recovery, get_metrics_processors,
  get_strategy, post_test_reset,
}
use smart_retry_orchestrator.Api.Web.{Web, Request}
use smart_retry_orchestrator.Service.Endpoints.{headed}

-- The statuses that an endpoint answers with. No request meets a 500.
abbrev pub expected : Endpoint → List ℕ
expected get_service_health = 200 ∷ []
expected get_docs_openapi = 200 ∷ 404 ∷ []
expected get_docs = 200 ∷ []
expected post_failures = 201 ∷ 400 ∷ 409 ∷ []
expected post_failures_batch = 201 ∷ 400 ∷ []
expected post_retry_outcome = 200 ∷ 400 ∷ 404 ∷ []
expected get_transactions = 200 ∷ []
expected get_transaction_by_id = 200 ∷ 404 ∷ []
expected get_transaction_retries = 200 ∷ 404 ∷ []
expected get_processors_health = 200 ∷ []
expected get_metrics_recovery = 200 ∷ 400 ∷ []
expected get_metrics_processors = 200 ∷ 400 ∷ []
expected get_strategy = 200 ∷ []
expected post_test_generate = 201 ∷ []
expected post_test_reset = 200 ∷ []

abbrev pub is_among : ℕ → List ℕ → Bool
is_among code [] = false
is_among code (c ∷ codes) = if code == c then true else is_among code codes

-- An error of ProcessFailure is the duplicate error, which may be wrapped.
abbrev pub IsDuplicateIfError : {A : Type 0} → Result A → Type 0
IsDuplicateIfError (err e) = is_duplicate e ≡ true
IsDuplicateIfError (ok a) = Unit

-- The error of GetTransaction and of UpdateTransaction is the not-found error.
abbrev pub IsMissingIfError : {A : Type 0} → Result A → Type 0
IsMissingIfError (err e) = e ≡ not_found
IsMissingIfError (ok a) = Unit

module _ {F : Type 0} where
  -- Nothing has been written yet.
  pub record IsFresh (w : ResponseWriter F) : Type 0 where
    pub status : w.status ≡ none
    pub content : w.content ≡ []

  -- One of the statuses has been written, and one body after it; or none after it, where the body is
  -- a value that Encode fails for.
  pub record IsAnswered (codes : List ℕ) (encodes : Content F → Bool) (w : ResponseWriter F)
      : Type 0 where
    pub code : ℕ
    pub body : Content F
    pub among : is_among code codes ≡ true
    pub status : w.status ≡ some code
    pub content : (w.content ≡ body ∷ []) ⊎ ((w.content ≡ []) × (encodes body ≡ false))

  content-write_header :
      (code : ℕ) (w : ResponseWriter F) → (write_header code w).content ≡ w.content
  unfolding write_header
  content-write_header code w = elim (Option-cases w.status) [
    | inl e ↦ rw e refl
    | inr (old, e) ↦ rw e refl
  ]

  -- A value that Encode succeeds for is written after what there was, and no other.
  pub content-respond_json :
      (code : ℕ) (c : Content F) (w : ResponseWriter F)
      → (respond_json code c w).content ≡ (if w.encodes c then w.content ++ c ∷ [] else w.content)
  unfolding respond_json write
  content-respond_json code c w = elim (Bool-cases (w.encodes c)) [
    | inl e ↦ rw (e, content-write_header) refl
    | inr e ↦ rw e (content-write_header code w)
  ]

  pub IsAnswered-respond_json :
      (codes : List ℕ) (code : ℕ) (c : Content F) (w : ResponseWriter F)
      → is_among code codes ≡ true
      → IsFresh w
      → IsAnswered codes w.encodes (respond_json code c w)
  unfolding respond_json
  IsAnswered-respond_json codes code c w among f = elim (Bool-cases (w.encodes c)) [
    | inl e ↦ record {
      code = code;
      body = c;
      among = among;
      status = rw (e, write, f.status, write_header) refl;
      content = inl (rw (e, write, f.status, write_header, f.content) refl);
    }
    | inr e ↦ record {
      code = code;
      body = c;
      among = among;
      status = rw (e, f.status, write_header) refl;
      content = inr (rw (e, f.status, write_header, f.content) refl, e);
    }
  ]

  pub IsAnswered-respond_error :
      (codes : List ℕ) (code : ℕ) (text : String) (messages : List String) (w : ResponseWriter F)
      → is_among code codes ≡ true
      → IsFresh w
      → IsAnswered codes w.encodes (respond_error code text messages w)
  unfolding respond_error
  IsAnswered-respond_error codes code text messages w among f =
      IsAnswered-respond_json codes code _ w among f

  -- bytes under a content type of their own
  pub IsAnswered-raw :
      (codes : List ℕ) (code : ℕ) (text kind : String) (w : ResponseWriter F)
      → is_among code codes ≡ true
      → IsFresh w
      → IsAnswered codes w.encodes
          (write (raw_content text) (write_header code (set_header "Content-Type" kind w)))
  unfolding write write_header set_header
  IsAnswered-raw codes code text kind w among f = record {
    code = code;
    body = raw_content text;
    among = among;
    status = rw (f.status, write_header) refl;
    content = inl (rw (f.status, write_header, f.content) refl);
  }

  pub IsAnswered-if :
      (codes : List ℕ) (encodes : Content F → Bool) (b : Bool) (v w : ResponseWriter F)
      → IsAnswered codes encodes v
      → IsAnswered codes encodes w
      → IsAnswered codes encodes (if b then v else w)
  IsAnswered-if codes encodes true v w p q = p
  IsAnswered-if codes encodes false v w p q = q

  pub ruleset answers =
      (IsAnswered-respond_json, IsAnswered-respond_error, IsAnswered-raw, IsAnswered-if)

module _ {F : Type 0} ⦃fl : Float64 F⦄ where
  pub IsAnswered-serve_file :
      (o : Option String) (w : ResponseWriter F)
      → IsFresh w
      → IsAnswered (expected get_docs_openapi) w.encodes (serve_file o w)
  unfolding serve_file
  IsAnswered-serve_file none w f = IsAnswered-respond_error _ 404 _ _ w refl f
  IsAnswered-serve_file (some bytes) w f = IsAnswered-raw _ 200 bytes _ w refl f

  -- the answer to what ProcessFailure returns, where an error of it is the duplicate error
  pub IsAnswered-answer_result :
      (r : Result (ProcessFailureResult F)) (w : ResponseWriter F)
      → IsDuplicateIfError r
      → IsFresh w
      → IsAnswered (expected post_failures) w.encodes (answer_result r w)
  unfolding answer_result
  IsAnswered-answer_result (err e) w h f =
      rw h (IsAnswered-respond_error (expected post_failures) 409 _ _ w refl f)
  IsAnswered-answer_result (ok res) w h f = IsAnswered-respond_json _ 201 _ w refl f

  pub IsAnswered-answer_outcome :
      (r : Result (Unit {0})) (w : ResponseWriter F)
      → IsMissingIfError r
      → IsFresh w
      → IsAnswered (expected post_retry_outcome) w.encodes (answer_outcome r w)
  unfolding answer_outcome is_not_found
  IsAnswered-answer_outcome (err e) w h f =
      rw h (IsAnswered-respond_error (expected post_retry_outcome) 404 _ _ w refl f)
  IsAnswered-answer_outcome (ok u) w h f = IsAnswered-respond_json _ 200 _ w refl f

  -- the answer with the count of the generator, which returns no error
  pub IsAnswered-answer_generated :
      (r : Result ℕ) (w : ResponseWriter F)
      → (n : ℕ) × (r ≡ ok n)
      → IsFresh w
      → IsAnswered (expected post_test_generate) w.encodes (answer_generated r w)
  unfolding answer_generated
  IsAnswered-answer_generated r w (n, e) f =
      rw e (IsAnswered-respond_json (expected post_test_generate) 201 _ w refl f)

  -- the answer to the not-found error, as of GetTransaction
  pub IsAnswered-answer_missing :
      (e : Error) (w : ResponseWriter F)
      → e ≡ not_found
      → IsFresh w
      → IsAnswered (expected get_transaction_by_id) w.encodes (answer_missing e w)
  unfolding answer_missing is_not_found
  IsAnswered-answer_missing e w h f =
      rw h (IsAnswered-respond_error (expected get_transaction_by_id) 404 _ _ w refl f)

  pub IsAnswered-answer_transaction :
      (r : Result (Transaction F)) (w : ResponseWriter F)
      → IsMissingIfError r
      → IsFresh w
      → IsAnswered (expected get_transaction_by_id) w.encodes (answer_transaction r w)
  unfolding answer_transaction
  IsAnswered-answer_transaction (err e) w h f = IsAnswered-answer_missing e w h f
  IsAnswered-answer_transaction (ok tx) w h f = IsAnswered-respond_json _ 200 _ w refl f

  pub headed-IsFresh : (web : Web F) (r : Request) → IsFresh (headed web r)
  unfolding set_header new_writer
  headed-IsFresh web r = record { status = refl; content = refl }
