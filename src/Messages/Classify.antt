-- ===== src/Messages/Classify.antt =====
-- services/message_classification.py: the verdict on one attempt. The log event and the text of the
-- error are written to the log only, and left out.
use cueapi_core.Prelude.{
  ℕ, Bool, true, false, ◌&&◌, Option, none, some, leb, ltb, ◌==◌, nat_eq, if◌then◌else◌,
}

pub data Category : Type 0 where
  success retryable terminal : Category

pub data ErrorType : Type 0 where
  auth_failed endpoint_missing method_not_allowed client_error request_timeout rate_limited
        bad_gateway service_unavailable server_error tls_handshake_failed connection_refused
        dns_resolution_failed timeout network transport no_error missing_webhook_config ssrf_blocked
        unexpected_error :
      ErrorType

pub record Classification : Type 0 where
  pub category : Category
  pub error_type : ErrorType
  pub http_status : Option ℕ

abbrev pub verdict : Category → ErrorType → Option ℕ → Classification
verdict c e h = record { category = c; error_type = e; http_status = h }

abbrev pub is_success : Category → Bool
is_success Category.success = true
is_success _ = false

abbrev pub is_retryable : Category → Bool
is_retryable Category.retryable = true
is_retryable _ = false

unfoldable pub classify_response : ℕ → Classification
classify_response status =
    if leb 200 status && ltb status 300
    then verdict Category.success no_error (some status)
    else if status == 408
    then verdict Category.retryable request_timeout (some status)
    else if status == 429
    then verdict Category.retryable rate_limited (some status)
    else if status == 401
    then verdict Category.terminal auth_failed (some status)
    else if status == 404
    then verdict Category.terminal endpoint_missing (some status)
    else if status == 405
    then verdict Category.terminal method_not_allowed (some status)
    else if leb 400 status && ltb status 500
    then verdict Category.terminal client_error (some status)
    else if status == 502
    then verdict Category.retryable bad_gateway (some status)
    else if status == 503
    then verdict Category.retryable service_unavailable (some status)
    else if leb 500 status && ltb status 600
    then verdict Category.retryable server_error (some status)
    else verdict Category.terminal client_error (some status)

-- The __cause__ of a ConnectError.
pub data Cause : Type 0 where
  ssl_error gaierror other_cause : Cause

-- What may be raised, by the class that the chain of isinstance finds first.
pub data Raised : Type 0 where
  timeout_exception : Raised
  connect_error : Cause → Raised
  network_error transport_error request_error other_error : Raised

unfoldable pub classify_exception : Raised → Classification
classify_exception timeout_exception = verdict Category.retryable timeout none
classify_exception (connect_error ssl_error) = verdict Category.retryable tls_handshake_failed none
classify_exception (connect_error gaierror) = verdict Category.retryable dns_resolution_failed none
classify_exception (connect_error other_cause) = verdict Category.retryable connection_refused none
classify_exception network_error = verdict Category.retryable network none
classify_exception transport_error = verdict Category.retryable transport none
classify_exception request_error = verdict Category.retryable transport none
classify_exception other_error = verdict Category.terminal unexpected_error none
