-- ===== src/Webhook/Post.antt =====
-- The handles and the result of a post.
use palworld_pal_crosschat.Base.{
  ◌≡◌, not, ◌&&◌, Option, none, some, List, [], ◌∷◌, arith, is_empty, Bytes,
}
use palworld_pal_crosschat.Webhook.{
  WinHttp, parse_url, json_body, HttpHandle, session, connection, request, HttpCall, opened, sent,
  closed, exchange, status_ok, post_discord_webhook,
}

-- The calls on handles keep to a stack: a handle is closed only when it is the last one still open.
unfoldable pub open_after : List HttpHandle → List HttpCall → Option (List HttpHandle)
open_after handles [] = some handles
open_after handles (opened h ∷ calls) = open_after (h ∷ handles) calls
open_after handles (sent body ∷ calls) = open_after handles calls
open_after [] (closed h ∷ calls) = none
open_after (session ∷ handles) (closed session ∷ calls) = open_after handles calls
open_after (connection ∷ handles) (closed connection ∷ calls) = open_after handles calls
open_after (request ∷ handles) (closed request ∷ calls) = open_after handles calls
open_after (_ ∷ _) (closed _ ∷ calls) = none

-- Whatever the library answers, a post closes every handle that it opened, the last opened first, and
-- leaves none open; and it returns `true` exactly when the address and the text are not empty, the
-- address is valid, all three handles open, the body is sent, and the status is one of 200 to 299.
pub post_discord_webhook_lem :
    (http : WinHttp) (webhook_url content : Bytes)
    → let url = parse_url http webhook_url in
      (open_after [] (post_discord_webhook http webhook_url content).1 ≡ some [])
      × ((post_discord_webhook http webhook_url content).0 ≡ (
          not (is_empty webhook_url)
          && not (is_empty content)
          && url.valid
          && http.opens_session
          && http.opens_connection url.host url.port
          && http.opens_request url.path url.https
          && http.sends_request (json_body content)
          && http.receives_response
          && status_ok http.query_status))
unfolding post_discord_webhook open_after exchange
post_discord_webhook_lem http webhook_url content = (ground arith, ground arith)
