-- ===== src/Service/Submit.antt =====
-- POST /failures: submitFailure of internal/api/handler.go over the orchestrator.
use smart_retry_orchestrator.Float.{Float64}
use smart_retry_orchestrator.Orchestrator.State.{Env, time_now, System}
use smart_retry_orchestrator.Classifier.{Classifier}
use smart_retry_orchestrator.Api.Web.{Web, Request}
use smart_retry_orchestrator.Api.Responses.{
  ResponseWriter, respond_json, respond_error, status_created, status_conflict, result_content,
}
use smart_retry_orchestrator.Api.Requests.{FailureRequest, event_at, to_event, validate_failure}
use smart_retry_orchestrator.Domain.Models.{FailureEvent, Transaction, ProcessFailureResult}
use smart_retry_orchestrator.Common.{
  List, Option, ◌≡◌, String, none, some, [], ◌∷◌, ◌++◌, ◌≢◌, inl, inr, refl,
}
use smart_retry_orchestrator.Api.Handlers.{
  submit_failure, accept_failure, invalid_json, unless_invalid, submit_decoded, invalid_request,
  answer_result,
}
use smart_retry_orchestrator.Store.Refinement.{Represents}
use smart_retry_orchestrator.Api.Validity.{IsAcceptable, validate_failure_iff}
use smart_retry_orchestrator.Service.Failures.{process_failure_cases, Processed}
use smart_retry_orchestrator.Store.Contents.{find}
use smart_retry_orchestrator.Service.Sound.{IsSound}

module _ {F : Type 0} ⦃fl : Float64 F⦄ ⦃env : Env F⦄ ⦃cl : Classifier F⦄ (web : Web F) where
  -- the event that an accepted request becomes: its time is read first
  abbrev pub event_of : FailureRequest F → System F → FailureEvent F
  event_of req s = event_at web.parse_time (env.now s.clock_reads) req

  -- How an accepted request ends.
  pub record IsConflict (s : System F) (w : ResponseWriter F) (r : ResponseWriter F × System F)
      : Type 0 where
    pub answer :
        r.0
        ≡ respond_error status_conflict "DUPLICATE_TRANSACTION"
            ("transaction ID already exists" ∷ [])
            w
    pub kept : r.1.store ≡ s.store

  pub record IsCreated (event : FailureEvent F) (ts : List (Transaction F)) (w : ResponseWriter F)
      (r : ResponseWriter F × System F) : Type 0 where
    pub result : ProcessFailureResult F
    pub stored_one : Transaction F
    pub answer : r.0 ≡ respond_json status_created (result_content result) w
    pub stored : Represents r.1.store (ts ++ stored_one ∷ [])
    pub sound : IsSound stored_one
    pub id : stored_one.id ≡ event.transaction_id
    pub event_kept : stored_one.original_event ≡ event
    pub named : result.transaction_id ≡ event.transaction_id
    pub classified : result.classification ≡ cl.classify event
    pub status : result.final_status ≡ stored_one.status

  -- Any answer to a submitted body: 400 with the system untouched, 409 with the store untouched, or
  -- 201 with one transaction more.
  pub data Answered (s : System F) (ts : List (Transaction F)) (req : Option (FailureRequest F))
      (w : ResponseWriter F) (r : ResponseWriter F × System F) : Type 0 where
    undecodable : req ≡ none → r ≡ (invalid_json w, s) → Answered s ts req w r
    rejected :
        (q : FailureRequest F)
        → req ≡ some q
        → validate_failure q ≢ []
        → r ≡ (invalid_request (validate_failure q) w, s)
        → Answered s ts req w r
    conflict :
        (q : FailureRequest F) (old : Transaction F)
        → req ≡ some q
        → IsAcceptable q
        → find q.transaction_id ts ≡ some old
        → IsConflict s w r
        → Answered s ts req w r
    created :
        (q : FailureRequest F)
        → req ≡ some q
        → IsAcceptable q
        → find q.transaction_id ts ≡ none
        → IsCreated (event_of q s) ts w r
        → Answered s ts req w r

  Answered-accept_failure :
      (q : FailureRequest F) (w : ResponseWriter F) (s : System F) (ts : List (Transaction F))
      → IsAcceptable q
      → Processed (event_of q s) (time_now s).1 ts
      → Answered s ts (some q) w (accept_failure web q w s)
  unfolding accept_failure to_event time_now
  Answered-accept_failure q w s ts ok_q (inl refused) =
      conflict q refused.old refl ok_q refused.known
        (record { answer = rw refused.result (unfold answer_result in refl); kept = refused.kept })
  Answered-accept_failure q w s ts ok_q (inr (tx, res, taken)) =
      created q refl ok_q taken.new (record {
        result = res;
        stored_one = tx;
        answer = rw taken.result (unfold answer_result in refl);
        stored = taken.stored;
        sound = taken.sound;
        id = taken.id;
        event_kept = taken.event_kept;
        named = taken.named;
        classified = taken.classification;
        status = taken.status;
      })

  accepted :
      (q : FailureRequest F) (w : ResponseWriter F) (s : System F) (ts : List (Transaction F))
      → Represents s.store ts
      → (validate_failure q ≡ [])
      → Answered s ts (some q) w (accept_failure web q w s)
  unfolding time_now
  accepted q w s ts r e =
      Answered-accept_failure q w s ts ((validate_failure_iff q).0 e)
        (process_failure_cases (event_of q s) (time_now s).1 ts r)

  checked :
      (q : FailureRequest F) (errs : List String) (w : ResponseWriter F) (s : System F)
      (ts : List (Transaction F))
      → Represents s.store ts
      → validate_failure q ≡ errs
      → Answered s ts (some q) w (unless_invalid web errs (accept_failure web q w) w s)
  unfolding unless_invalid
  checked q [] w s ts rep e = accepted q w s ts rep e
  checked q (x ∷ errs) w s ts rep e = rejected q refl (λ none_left. cc) (rw e refl)

  decoded :
      (req : Option (FailureRequest F)) (w : ResponseWriter F) (s : System F)
      (ts : List (Transaction F))
      → Represents s.store ts
      → Answered s ts req w (submit_decoded web req w s)
  unfolding submit_decoded
  decoded none w s ts rep = undecodable refl refl
  decoded (some q) w s ts rep = checked q (validate_failure q) w s ts rep refl

  -- POST /failures has one of four answers: 400 for a body that is no JSON and 400 with the list of
  -- errors for a request that is not acceptable, both with nothing changed at all, not even the
  -- health tracker; 409 exactly for an acceptable request whose id is stored, with the store
  -- unchanged; and 201 for an acceptable request with a new id, whose finished transaction is then the
  -- last in the store and agrees with the result that Encode is given. There is no 500.
  pub submit_failure_answers :
      (r : Request) (w : ResponseWriter F) (s : System F) (ts : List (Transaction F))
      → Represents s.store ts
      → Answered s ts (web.decode_failure r.body) w (submit_failure web r w s)
  unfolding submit_failure
  submit_failure_answers r w s ts rep = decoded (web.decode_failure r.body) w s ts rep
