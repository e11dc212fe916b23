-- ===== src/Errors.antt =====
-- internal/gateway/errors.go: the error codes a friend can see, their HTTP status and type, and
-- the one error value that every rejection path returns. The human sentence is left out.
use infercat.Common.{ℕ, ℤ, pos, Option, none, some, if◌then◌else◌, ltb}

pub data Code : Type 0 where
  storage_failed agent_unavailable image_abandoned image_queue_full image_budget_exhausted : Code
  invalid_key key_paused key_revoked model_not_allowed body_too_large context_too_long : Code
  rate_limited concurrency_limited budget_exhausted queue_timeout upstream_down : Code
  upstream_error audio_budget_exhausted speech_budget_exhausted images_not_supported : Code
  invalid_request not_found client_closed : Code

pub data ErrorType : Type 0 where
  server_error upstream rate_limit authentication permission bad_request : ErrorType

pub record CodeRow : Type 0 where
  pub status : ℕ
  pub typ : ErrorType

abbrev row : ℕ → ErrorType → Option CodeRow
row n t = some (record { status = n; typ = t })

-- `codeTable`; a code that is not in the map has no row.
pub code_table : Code → Option CodeRow
code_table storage_failed = row 500 server_error
code_table agent_unavailable = row 503 upstream
code_table image_abandoned = row 502 upstream
code_table image_queue_full = row 429 rate_limit
code_table image_budget_exhausted = row 429 rate_limit
code_table invalid_key = row 401 authentication
code_table key_paused = row 403 permission
code_table key_revoked = row 403 permission
code_table model_not_allowed = row 403 permission
code_table body_too_large = row 413 bad_request
code_table context_too_long = row 422 bad_request
code_table rate_limited = row 429 rate_limit
code_table concurrency_limited = row 429 rate_limit
code_table budget_exhausted = row 429 rate_limit
code_table queue_timeout = row 503 upstream
code_table upstream_down = row 503 upstream
code_table upstream_error = row 502 upstream
code_table audio_budget_exhausted = row 429 rate_limit
code_table speech_budget_exhausted = row 429 rate_limit
code_table images_not_supported = row 400 bad_request
code_table invalid_request = row 400 bad_request
code_table not_found = row 404 bad_request
code_table client_closed = none

pub record GwError : Type 0 where
  pub code : Code
  pub retry_after : ℕ
  pub limit : ℤ
  pub in_flight : ℤ

-- `errf`, whose message is left out.
abbrev pub errf : Code → ℕ → GwError
errf c retry = record { code = c; retry_after = retry; limit = pos 0; in_flight = pos 0 }

-- `(*gwError).Status`
unfoldable pub error_status : GwError → ℕ
unfolding code_table
error_status e = elim (code_table e.code) [ none ↦ 500 | some r ↦ r.status ]

-- `writeError` sets the header only where there are seconds to wait.
pub retry_header : GwError → Option ℕ
retry_header e = if ltb 0 e.retry_after then some e.retry_after else none
