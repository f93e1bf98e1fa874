-- ===== src/Http.antt =====
-- NestJS's HTTP exceptions, which the services throw: the class and the message.
use gas_guard.Prelude.{ℕ, String, Option}

pub data HttpException : Type 0 where
  bad_request unauthorized forbidden not_found conflict : String → HttpException
  -- `new HttpException({ error, message, … }, status)`, with the seconds to wait where it has them
  service_unavailable : String → HttpException
  too_many_requests : String → ℕ → HttpException
  -- ApiKeyExpiredException: when the key expired, and its id
  api_key_expired : Option ℕ → String → HttpException
  -- any other error
  internal_error : String → HttpException

-- The status code that the client sees.
abbrev pub status : HttpException → ℕ
status (bad_request _) = 400
status (unauthorized _) = 401
status (forbidden _) = 403
status (not_found _) = 404
status (conflict _) = 409
status (service_unavailable _) = 503
status (too_many_requests _ _) = 429
status (api_key_expired _ _) = 401
status (internal_error _) = 500
