-- ===== src/BodyLimit/Stream.antt =====
-- backend/app/web/body_limit.py: what an application is given of a request's body, message by message.
use open_sec_dash.Prelude.{
  ℕ, ◌+◌, ◌≤◌, ◌≡◌, refl, ap, Bool, true, false, ◌||◌, not, List, [], ◌∷◌, ◌==◌, ltb, contains,
  if◌then◌else◌, arith, Bool-cases, inl, inr,
}
use open_sec_dash.Prelude.Text.{Text, text_eq, codes}
use open_sec_dash.BodyLimit.{
  App, receives, sends, finishes, Message, http_request, other_message, Trace, gave, sent, waits,
  finished, too_large, Scope, body_bytes, run, limited_run, limit_for, write_methods,
  length_or_zero, request_body_limit,
}

-- The bytes of the body that the application was given
unfoldable pub given : Trace → ℕ
given (gave m t) = body_bytes m + given t
given (sent n t) = given t
given waits = 0
given finished = 0
given too_large = 0

unfoldable pub total : List Message → ℕ
total [] = 0
total (m ∷ messages) = body_bytes m + total messages

given-limited_run :
    (limit received : ℕ) (app : App) (messages : List Message)
    → received ≤ limit
    → received + given (limited_run limit received app messages) ≤ limit
unfolding given limited_run body_bytes
given-limited_run limit received (receives next) [] h = omega arith
given-limited_run limit received (receives next) (http_request n ∷ messages) h =
    ground (arith, given-limited_run limit (received + n) (next (http_request n)) messages)
given-limited_run limit received (receives next) (other_message ∷ messages) h =
    ground (arith, given-limited_run limit (received + 0) (next other_message) messages)
given-limited_run limit received (sends n app) messages h =
    given-limited_run limit received app messages h
given-limited_run limit received finishes messages h = omega arith

limited_run-eq-run :
    (limit received : ℕ) (app : App) (messages : List Message)
    → received + total messages ≤ limit
    → limited_run limit received app messages ≡ run app messages
unfolding total limited_run run body_bytes
limited_run-eq-run limit received (receives next) [] h = refl
limited_run-eq-run limit received (receives next) (http_request n ∷ messages) h =
    ground (arith, limited_run-eq-run limit (received + n) (next (http_request n)) messages)
limited_run-eq-run limit received (receives next) (other_message ∷ messages) h =
    ground (arith, limited_run-eq-run limit (received + 0) (next other_message) messages)
limited_run-eq-run limit received (sends n app) messages h =
    ap (sent n) (limited_run-eq-run limit received app messages h)
limited_run-eq-run limit received finishes messages h = refl

if-le : (b : Bool) (x y n : ℕ) → x ≤ n → y ≤ n → (if b then x else y) ≤ n
if-le true x y n p q = p
if-le false x y n p q = q

-- The limit of a path is never above that of the middleware.
limit_for-le : (max_bytes : ℕ) (path : Text) → limit_for max_bytes path ≤ max_bytes
unfolding limit_for
limit_for-le max_bytes path =
    if-le (path == codes "/api/events") _ _ max_bytes (omega arith)
      (if-le (path == codes "/api/assets/import") _ max_bytes max_bytes (omega arith) (omega arith))

-- A write request gives the application at most the bytes of its path's limit, which is at most that
-- of the middleware, whatever the client announces and however it splits the body.
pub given-request_body_limit :
    (max_bytes : ℕ) (scope : Scope) (app : App) (messages : List Message)
    → scope.is_http ≡ true
    → contains scope.method write_methods ≡ true
    → (given (request_body_limit max_bytes scope app messages) ≤ limit_for max_bytes scope.path)
      × (limit_for max_bytes scope.path ≤ max_bytes)
unfolding request_body_limit given
given-request_body_limit max_bytes scope app messages http write =
    let limit = limit_for max_bytes scope.path in
    let behind = given-limited_run limit 0 app messages (omega arith) in
    (
      elim (Bool-cases (ltb limit (length_or_zero scope.content_length))) [
        | inl e ↦ rw (http, write, e) (omega arith)
        | inr e ↦ rw (http, write, e) (omega (arith, behind))
      ],
      limit_for-le max_bytes scope.path,
    )

-- A body that neither announces nor has more bytes than the limit passes as if there were no
-- middleware: the application receives and sends the same.
pub request_body_limit-eq-run :
    (max_bytes : ℕ) (scope : Scope) (app : App) (messages : List Message)
    → length_or_zero scope.content_length ≤ limit_for max_bytes scope.path
    → total messages ≤ limit_for max_bytes scope.path
    → request_body_limit max_bytes scope app messages ≡ run app messages
unfolding request_body_limit
request_body_limit-eq-run max_bytes scope app messages announced small =
    let limit = limit_for max_bytes scope.path in
    let same = limited_run-eq-run limit 0 app messages (omega (arith, small)) in
    let below : ltb limit (length_or_zero scope.content_length) ≡ false = ground arith in
    elim (Bool-cases (not scope.is_http || not (contains scope.method write_methods))) [
      | inl e ↦ rw e refl
      | inr e ↦ rw (e, below) same
    ]
