-- ===== src/BodyLimit.antt =====
-- backend/app/web/body_limit.py: no route reads more of a request's body than its limit.
--
-- The application behind the middleware is a tree of what it receives and sends, and it lets
-- RequestBodyTooLarge through. Headers have been read; `none` is a Content-Length that is absent or
-- no number. Limits are those of backend/app/core/input_limits.py.
pub mod Stream
use open_sec_dash.Prelude.{
  ℕ, ◌+◌, ◌*◌, ◌^◌, min, Bool, true, false, not, ◌||◌, Option, none, some, List, [], ◌∷◌, ◌==◌,
  nat_eq, ltb, contains, if◌then◌else◌,
}
use open_sec_dash.Prelude.Text.{Text, text_eq, codes}

abbrev pub max_request_body_bytes : ℕ
max_request_body_bytes = 12 * 1024 * 1024

abbrev pub max_asset_inventory_bytes : ℕ
max_asset_inventory_bytes = 10 * 1024 * 1024

abbrev pub max_event_request_body_bytes : ℕ
max_event_request_body_bytes = 2 * 1024 * 1024 + 128 * 1024

-- A part of the body with its number of bytes, or another message such as a disconnect
pub data Message : Type 0 where
  http_request : ℕ → Message
  other_message : Message

pub record Scope : Type 0 where
  pub is_http : Bool
  pub method : Text
  pub path : Text
  pub content_length : Option ℕ

-- `receives` waits for a message, `sends` gives bytes of the response.
pub data App : Type 0 where
  receives : (Message → App) → App
  sends : ℕ → App → App
  finishes : App

-- What happened: what the application was given, and what it sent. `waits` for a message that has
-- not come, `too_large` is the answer 413.
pub data Trace : Type 0 where
  gave : Message → Trace → Trace
  sent : ℕ → Trace → Trace
  waits finished too_large : Trace

unfoldable pub body_bytes : Message → ℕ
body_bytes (http_request n) = n
body_bytes other_message = 0

-- The application on its own
unfoldable pub run : App → List Message → Trace
run (receives next) [] = waits
run (receives next) (m ∷ messages) = gave m (run (next m) messages)
run (sends n app) messages = sent n (run app messages)
run finishes messages = finished

is_request : Message → Bool
is_request (http_request n) = true
is_request other_message = false

-- The application behind `limited_receive`, with the bytes received so far
unfoldable pub limited_run : ℕ → ℕ → App → List Message → Trace
unfolding is_request
limited_run limit received (receives next) [] = waits
limited_run limit received (receives next) (m ∷ messages) =
    let received' = received + body_bytes m in
    let rest = gave m (limited_run limit received' (next m) messages) in
    if is_request m then (if ltb limit received' then too_large else rest) else rest
limited_run limit received (sends n app) messages = sent n (limited_run limit received app messages)
limited_run limit received finishes messages = finished

unfoldable pub limit_for : ℕ → Text → ℕ
limit_for max_bytes path =
    if path == codes "/api/events"
    then min max_bytes max_event_request_body_bytes
    else if path == codes "/api/assets/import"
    then min max_bytes (max_asset_inventory_bytes + 64 * 1024)
    else max_bytes

abbrev pub write_methods : List Text
write_methods = codes "POST" ∷ codes "PUT" ∷ codes "PATCH" ∷ codes "DELETE" ∷ []

abbrev pub length_or_zero : Option ℕ → ℕ
length_or_zero none = 0
length_or_zero (some n) = n

-- `RequestBodyLimitMiddleware.__call__`
unfoldable pub request_body_limit : ℕ → Scope → App → List Message → Trace
request_body_limit max_bytes scope app messages =
    let limit = limit_for max_bytes scope.path in
    if not scope.is_http || not (contains scope.method write_methods)
    then run app messages
    else if ltb limit (length_or_zero scope.content_length)
    then too_large
    else limited_run limit 0 app messages
