-- ===== src/Errors/Handler.antt =====
-- The error envelope (src/middleware/errorHandler.js): status, code, whether the message is echoed,
-- and details. Logging is left out.
use splite_backend.Prelude.{
  ℕ, ◌≤◌, ◌<◌, ◌≡◌, ◌↔◌, Bool, true, false, ◌&&◌, Option, none, some, List, [], ◌∷◌, member, arith,
  ltb, leb, ◌==◌, if◌then◌else◌,
}
use splite_backend.Errors.{
  Code, validation_failed, auth_token_invalid, forbidden_role, not_found, rate_limited,
  internal_error, status, Details, Failure, api, plain,
}

-- `echoed` says that the body carries the error's own message and not "Internal Server Error".
pub record Envelope : Type 0 where
  pub http : ℕ
  pub code : Code
  pub echoed : Bool
  pub details : Details

-- `FALLBACK_CODES[statusCode] ?? genericFallback(statusCode)`
fallback_code : ℕ → Code
fallback_code s =
    if s == 400
    then validation_failed
    else if s == 401
    then auth_token_invalid
    else if s == 403
    then forbidden_role
    else if s == 404
    then not_found
    else if s == 429
    then rate_limited
    else if leb 500 s
    then internal_error
    else validation_failed

status_of : Failure → ℕ
status_of (api c d) = status c
status_of (plain none) = 500
status_of (plain (some s)) = if leb 400 s && ltb s 600 then s else 500

code_of : Failure → Code
unfolding status_of fallback_code
code_of (api c d) = c
code_of (plain s) = fallback_code (status_of (plain s))

pub details_of : Failure → Details
details_of (api c d) = d
details_of (plain s) = []

-- `none`: headers were sent, and the error goes to `next`.
unfoldable pub error_handler : Bool → Failure → Option Envelope
unfolding status_of code_of details_of
error_handler true e = none
error_handler false e = some (record {
  http = status_of e;
  code = code_of e;
  echoed = ltb (status_of e) 500;
  details = details_of e;
})

status-range : (c : Code) → (400 ≤ status c) × (status c < 600)
unfolding status
status-range validation_failed = omega arith
status-range _ = omega arith

-- The statuses for which `errorHandler` knows a code of that very status.
abbrev pub fallback_statuses : List ℕ
fallback_statuses = 400 ∷ 401 ∷ 403 ∷ 404 ∷ 429 ∷ 500 ∷ []

-- Every failure that is rendered gets a status from 400 to 599 and the details of an API error or
-- none; the error's own message reaches the client exactly if that status is below 500.
pub error_handler_envelope :
    (e : Failure) {r : Envelope}
    → error_handler false e ≡ some r
    → (400 ≤ r.http)
      × (r.http < 600)
      × ((r.echoed ≡ true) ↔ (r.http < 500))
      × (r.details ≡ details_of e)
unfolding error_handler status_of
error_handler_envelope (api c d) h = ground (arith, status-range c)
error_handler_envelope (plain none) h = ground arith
error_handler_envelope (plain (some s)) h = ground arith

-- A plain error that carries a status from 400 to 599 keeps it, and the code beside it has that
-- status exactly for 400, 401, 403, 404, 429 and 500.
pub error_handler_plain :
    (s : ℕ) {r : Envelope}
    → 400 ≤ s
    → s < 600
    → error_handler false (plain (some s)) ≡ some r
    → (r.http ≡ s) × ((status r.code ≡ r.http) ↔ (member s fallback_statuses ≡ true))
unfolding error_handler status_of code_of fallback_code status
error_handler_plain s lo hi h = ground arith
