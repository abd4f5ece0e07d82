-- ===== src/Service/Lookups.antt =====
-- POST /failures, and then GET /transactions/{transactionID} (internal/api/handler.go).
use smart_retry_orchestrator.Float.{Float64}
use smart_retry_orchestrator.Orchestrator.State.{Env, gets, System}
use smart_retry_orchestrator.Api.Queries.{
  get_transaction_handler, answer_transaction, answer_missing,
}
use smart_retry_orchestrator.Classifier.{Classifier}
use smart_retry_orchestrator.Api.Web.{Request, Web}
use smart_retry_orchestrator.Api.Requests.{FailureRequest, event_at}
use smart_retry_orchestrator.Api.Responses.{
  ResponseWriter, respond_json, status_created, result_content, status_ok, transaction_content,
  respond_error, status_not_found,
}
use smart_retry_orchestrator.Common.{
  List, ◌≡◌, some, none, ◌∷◌, [], ◌++◌, ap, Option, refl, sym, ◌∙◌,
}
use smart_retry_orchestrator.Domain.Models.{FailureEvent, Transaction, ProcessFailureResult}
use smart_retry_orchestrator.Store.Refinement.{Represents, get_transaction-Represents, fetched}
use smart_retry_orchestrator.Service.Sound.{IsSound}
use smart_retry_orchestrator.Store.Contents.{find, find_last}
use smart_retry_orchestrator.Api.Validity.{IsAcceptable, validate_failure_iff}
use smart_retry_orchestrator.Service.Submit.{
  IsCreated, event_of, submit_failure_answers, Answered, undecodable, rejected, conflict, created,
}
use smart_retry_orchestrator.Api.Handlers.{submit_failure}
use mathlib.Core.Path.{subst}
use mathlib.Core.Option.{some-injective}

module _ {F : Type 0} ⦃fl : Float64 F⦄ where
  get_transaction_handler-found :
      (r : Request) (w : ResponseWriter F) (s : System F) (ts : List (Transaction F))
      (tx : Transaction F)
      → Represents s.store ts
      → find r.transaction_id ts ≡ some tx
      → get_transaction_handler r w s ≡ (respond_json status_ok (transaction_content tx) w, s)
  unfolding get_transaction_handler answer_transaction gets
  get_transaction_handler-found r w s ts tx rep e =
      rw (get_transaction-Represents s.store ts r.transaction_id rep, fetched, e) refl

  get_transaction_handler-missing :
      (r : Request) (w : ResponseWriter F) (s : System F) (ts : List (Transaction F))
      → Represents s.store ts
      → find r.transaction_id ts ≡ none
      → get_transaction_handler r w s
        ≡ (respond_error status_not_found "NOT_FOUND" ("transaction not found" ∷ []) w, s)
  unfolding get_transaction_handler answer_transaction answer_missing gets
  get_transaction_handler-missing r w s ts rep e =
      rw (get_transaction-Represents s.store ts r.transaction_id rep, fetched, e) refl

  module _ ⦃env : Env F⦄ ⦃cl : Classifier F⦄ (web : Web F) where
    -- What is read back of the request `q`: the answers to both requests agree.
    pub record IsReadBack (q : FailureRequest F) (event : FailureEvent F)
        (w w' posted got : ResponseWriter F) : Type 0 where
      pub result : ProcessFailureResult F
      pub read : Transaction F
      pub answer : posted ≡ respond_json status_created (result_content result) w
      pub answer' : got ≡ respond_json status_ok (transaction_content read) w'
      pub sound : IsSound read
      pub id : read.id ≡ q.transaction_id
      pub event_kept : read.original_event ≡ event
      pub status : result.final_status ≡ read.status

    created-IsReadBack :
        (q : FailureRequest F) (r : Request) (w w' : ResponseWriter F) (s : System F)
        (ts : List (Transaction F)) (out : ResponseWriter F × System F)
        → r.transaction_id ≡ q.transaction_id
        → find q.transaction_id ts ≡ none
        → IsCreated web (event_of web q s) ts w out
        → IsReadBack q (event_of web q s) w w' out.0 (get_transaction_handler r w' out.1).0
    unfolding event_at
    created-IsReadBack q r w w' s ts out same new c =
        let tx = c.stored_one in
        let named : tx.id ≡ q.transaction_id = c.id in
        let found : find r.transaction_id (ts ++ tx ∷ []) ≡ some tx =
          rw (same, ← named) (find_last tx ts (rw named new)) in
        record {
          result = c.result;
          read = tx;
          answer = c.answer;
          answer' = ap (λ x. x.0) (get_transaction_handler-found r w' out.1 _ tx c.stored found);
          sound = c.sound;
          id = named;
          event_kept = c.event_kept;
          status = c.status;
        }

    Answered-IsCreated :
        (q : FailureRequest F) (req : Option (FailureRequest F)) (w : ResponseWriter F)
        (s : System F) (ts : List (Transaction F)) (out : ResponseWriter F × System F)
        → req ≡ some q
        → IsAcceptable q
        → find q.transaction_id ts ≡ none
        → Answered web s ts req w out
        → IsCreated web (event_of web q s) ts w out
    Answered-IsCreated q req w s ts out e good new (undecodable none_read _) =
        absurd (cc (e, none_read))
    Answered-IsCreated q req w s ts out e good new (rejected q' e' bad _) = absurd (
        bad
          ((validate_failure_iff q').1 (subst IsAcceptable (some-injective _ _ (sym e ∙ e')) good)))
    Answered-IsCreated q req w s ts out e good new (conflict q' old e' _ known _) =
        let same = some-injective _ _ (sym e ∙ e') in absurd (cc (new, known, same))
    Answered-IsCreated q req w s ts out e good new (created q' e' _ _ made) =
        subst (λ q. IsCreated web (event_of web q s) ts w out) (some-injective _ _ (sym e' ∙ e))
          made

    -- An acceptable request with a new id is answered with 201, and Encode is given a result; a
    -- following request for the transaction with this id is answered with 200, and Encode is given a
    -- finished transaction that keeps the event of the request and has the status that the result told.
    -- Before, the id was answered with 404.
    pub submit_then_get :
        (q : FailureRequest F) (r r' : Request) (w w' : ResponseWriter F) (s : System F)
        (ts : List (Transaction F))
        → Represents s.store ts
        → web.decode_failure r.body ≡ some q
        → IsAcceptable q
        → find q.transaction_id ts ≡ none
        → r'.transaction_id ≡ q.transaction_id
        → ((get_transaction_handler r' w' s).0
            ≡ respond_error status_not_found "NOT_FOUND" ("transaction not found" ∷ []) w')
          × let (posted, t) = submit_failure web r w s in
            IsReadBack q (event_of web q s) w w' posted (get_transaction_handler r' w' t).0
    submit_then_get q r r' w w' s ts rep e good new same = (
      ap (λ x. x.0) (get_transaction_handler-missing r' w' s ts rep (rw same new)),
      created-IsReadBack q r' w w' s ts (submit_failure web r w s) same new
          (Answered-IsCreated q _ w s ts _ e good new (submit_failure_answers web r w s ts rep)),
    )
