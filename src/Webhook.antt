-- ===== src/Webhook.antt =====
-- src/Webhook.h and src/Webhook.cpp: the queue of webhook jobs and the HTTP post. WinHTTP and the
-- conversion to UTF-16 are the parameter `WinHttp`: what each call answers.
pub mod Post
pub mod Json
use palworld_pal_crosschat.Base.{
  ℕ, ◌+◌, ◌-◌, ◌/◌, Bool, true, false, not, ◌&&◌, ◌||◌, Option, none, some, List, [], ◌∷◌, ◌++◌,
  ltb, leb, ◌==◌, if◌then◌else◌, is_empty, Bytes, codes,
}
use palworld_pal_crosschat.Queues.{WebhookJob, BoundedQueue, push, try_pop, queue_max, empty_queue}

-- The parts that WinHttpCrackUrl finds.
pub record UrlComponents : Type 0 where
  pub is_https : Bool
  pub host_name : List ℕ
  pub port_number : ℕ
  pub url_path : List ℕ
  pub extra_info : List ℕ

-- What the library answers. Each `opens_…` says whether the handle is not null, and `query_status` is
-- `none` where WinHttpQueryHeaders fails.
pub record WinHttp : Type 0 where
  pub multi_byte_to_wide_char : Bytes → List ℕ
  pub crack_url : List ℕ → Option UrlComponents
  pub opens_session : Bool
  pub opens_connection : List ℕ → ℕ → Bool
  pub opens_request : List ℕ → Bool → Bool
  pub sends_request : Bytes → Bool
  pub receives_response : Bool
  pub query_status : Option ℕ

pub record ParsedUrl : Type 0 where
  pub https : Bool
  pub host : List ℕ
  pub port : ℕ
  pub path : List ℕ
  pub valid : Bool

abbrev pub invalid_url : ParsedUrl
invalid_url = record { https = true; host = []; port = 443; path = []; valid = false }

unfoldable pub from_components : Option UrlComponents → ParsedUrl
from_components none = invalid_url
from_components (some c) =
    let path = c.url_path ++ c.extra_info in
    record {
      https = c.is_https;
      host = c.host_name;
      port = c.port_number;
      path = if is_empty path then b'/' ∷ [] else path;
      valid = not (is_empty c.host_name);
    }

unfoldable pub parse_url : WinHttp → Bytes → ParsedUrl
unfolding from_components
parse_url http url =
    let wide = http.multi_byte_to_wide_char url in
    if is_empty wide then invalid_url else from_components (http.crack_url wide)

-- One byte of the loop of `EscapeJsonString`.
abbrev pub escape_byte : ℕ → Bytes
escape_byte ch =
    if ch == b'\\'
    then b'\\' ∷ b'\\' ∷ []
    else if ch == b'"'
    then b'\\' ∷ b'"' ∷ []
    else if ch == b'\n'
    then b'\\' ∷ b'n' ∷ []
    else if ch == b'\r'
    then b'\\' ∷ b'r' ∷ []
    else if ch == b'\t'
    then b'\\' ∷ b't' ∷ []
    else ch ∷ []

unfoldable pub escape_json_string : Bytes → Bytes
escape_json_string [] = []
escape_json_string (ch ∷ input) = escape_byte ch ++ escape_json_string input

abbrev pub json_body : Bytes → Bytes
json_body content = codes "{\"content\":\"" ++ escape_json_string content ++ codes "\"}"

-- The handles of WinHTTP, and what the post does with them.
pub data HttpHandle : Type 0 where
  session connection request : HttpHandle

pub data HttpCall : Type 0 where
  opened : HttpHandle → HttpCall
  sent : Bytes → HttpCall
  closed : HttpHandle → HttpCall

abbrev pub status_ok : Option ℕ → Bool
status_ok none = false
status_ok (some status) = leb 200 status && ltb status 300

unfoldable pub exchange : WinHttp → Bytes → Bool
exchange http body =
    if http.sends_request body && http.receives_response then status_ok http.query_status else false

-- `PostDiscordWebhookSync`: its result, and the calls on handles in order.
unfoldable pub post_discord_webhook : WinHttp → Bytes → Bytes → Bool × List HttpCall
unfolding parse_url escape_json_string exchange
post_discord_webhook http webhook_url content =
    if is_empty webhook_url || is_empty content
    then (false, [])
    else (let url = parse_url http webhook_url in
        if not url.valid
        then (false, [])
        else if not http.opens_session
        then (false, [])
        else if not (http.opens_connection url.host url.port)
        then (false, opened session ∷ closed session ∷ [])
        else if not (http.opens_request url.path url.https)
        then (false, opened session ∷ opened connection ∷ closed connection ∷ closed session ∷ [])
        else (
          exchange http (json_body content),
          opened session
              ∷ opened connection
              ∷ opened request
              ∷ sent (json_body content)
              ∷ closed request
              ∷ closed connection
              ∷ closed session
              ∷ [],
        ))

pub record WebhookWorker : Type 0 where
  pub queue : BoundedQueue WebhookJob
  pub started : Bool
  pub thread_runs : Bool

abbrev pub new_worker : WebhookWorker
new_worker = record { queue = empty_queue queue_max; started = false; thread_runs = false }

unfoldable pub start_worker : WebhookWorker → WebhookWorker
start_worker w = if w.started then w else record w { started = true; thread_runs = true }

-- `Stop` waits until the thread has ended.
unfoldable pub stop_worker : WebhookWorker → WebhookWorker
stop_worker w = if not w.started then w else record w { started = false; thread_runs = false }

unfoldable pub enqueue : WebhookWorker → Bytes → Bytes → WebhookWorker
enqueue w webhook_url content =
    if is_empty webhook_url || is_empty content
    then w
    else record w { queue = push w.queue (record { webhook_url = webhook_url; content = content }) }

-- One round of the thread: the calls of the job it takes, or none while it sleeps.
unfoldable pub worker_round : WinHttp → WebhookWorker → WebhookWorker × List HttpCall
worker_round http w =
    let (job, rest) = try_pop w.queue in
    elim job [
      | none ↦ (w, [])
      | some j ↦ (record w { queue = rest }, (post_discord_webhook http j.webhook_url j.content).1)
    ]
