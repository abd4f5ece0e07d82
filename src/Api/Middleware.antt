-- ===== src/Api/Middleware.antt =====
-- internal/api/middleware.go. The context value and the log line of a request go nowhere that the
-- program reads, and are left out.
use smart_retry_orchestrator.Api.Responses.{set_header}
use smart_retry_orchestrator.Orchestrator.State.{pure, Env, ◌>>=◌, time_now}
use smart_retry_orchestrator.Api.Web.{HandlerFunc}
use smart_retry_orchestrator.Common.{if◌then◌else◌, str_eq}

module _ {F : Type 0} where
  -- RequestID
  unfoldable pub with_request_id : HandlerFunc F → HandlerFunc F
  unfolding set_header
  with_request_id next r w =
      let id = if str_eq r.header_id "" then r.fresh_id else r.header_id in
      next r (set_header "X-Request-ID" id w)

  -- JSONContentType
  unfoldable pub with_json_content_type : HandlerFunc F → HandlerFunc F
  unfolding set_header
  with_json_content_type next r w = next r (set_header "Content-Type" "application/json" w)

  -- RequestLogger: time.Now, and time.Since after the handler
  unfoldable pub with_request_logger : ⦃env : Env F⦄ → HandlerFunc F → HandlerFunc F
  unfolding pure
  with_request_logger next r w = do start ← time_now; w' ← next r w; end ← time_now; pure w'
