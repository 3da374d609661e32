-- ===== src/Client/Send.antt =====
-- client.go, Do, Get, Head and Post. What net/http's Client does with a request is the parameter
-- `exchange`, what http.NewRequest returns is `new_request`.
use httpkit.Prelude.{
  ℕ, ℤ, Bool, true, false, String, List, [], ◌∷◌, map, Option, none, some, is_some, lookup, put,
  or_else, if◌then◌else◌,
}
use httpkit.Text.{to_lower}
use httpkit.Jar.{CookieJar}
use httpkit.Connect.{Header, DialerError}
use httpkit.ClientOptions.{RedirectFunc, HttpClientConfig}
use httpkit.Client.{HttpClient, ClientTransport, Request, Response}

pub data Sent : Type 0 where
  response : Response → Sent
  send_failed : ℕ → Sent
  send_panicked : Sent

-- http.Client.Do: with the redirect function, the timeout, the jar and the transport of the
-- client, a request ends in a result, and leaves a jar and a transport.
abbrev pub Exchange : Type 0
Exchange =
    Option RedirectFunc
    → ℤ
    → Option CookieJar
    → ClientTransport
    → Request
    → (Option CookieJar × ClientTransport) × Sent

-- The errors of the readers and dumps of the debug mode.
pub record DebugAnswers : Type 0 where
  pub read_request_body : Option ℕ
  pub dump_request : Option ℕ
  pub dump_response : Option ℕ
  pub read_response_body : Option ℕ

-- `nothing` is a return of nil and nil; `blocked` is a call that never gets the lock.
pub data DoResult : Type 0 where
  responded : Response → DoResult
  failed : ℕ → DoResult
  proxy_refused : DialerError → DoResult
  nothing panicked blocked : DoResult

-- Whether a call returns to its caller.
unfoldable pub returns : DoResult → Bool
returns panicked = false
returns blocked = false
returns _ = true

pub record Done : Type 0 where
  pub client : HttpClient
  pub request : Request
  pub result : DoResult

-- http.NewRequest: a request, or an error.
pub data NewRequest : Type 0 where
  made_request : Request → NewRequest
  bad_request : ℕ → NewRequest

-- The header that is sent: nil and empty ones are replaced by the defaults.
abbrev pub is_empty : Option Header → Bool
is_empty none = true
is_empty (some []) = true
is_empty (some (_ ∷ _)) = false

abbrev pub header_or : Option Header → Option Header → Option Header
header_or defaults h = if is_empty h then defaults else h

abbrev pub order_of : Option (List String) → List String
order_of none = []
order_of (some names) = names

unfoldable pub all_to_lower : List String → List String
all_to_lower list = map to_lower list

-- The order of the header is written in lower case, which panics on a nil map.
unfoldable pub lower_order : String → Option Header → Option Header
unfolding all_to_lower
lower_order key none = none
lower_order key (some h) = some (put key (all_to_lower (order_of (lookup key h))) h)

abbrev pub or_empty : Option Header → Header
or_empty none = []
or_empty (some h) = h

-- req.Header.Set("Content-Type", …); the header of a new request is not nil.
abbrev pub set_content_type : String → Request → Request
set_content_type content_type req = record req {
  header = some (put "Content-Type" (content_type ∷ []) (or_empty req.header));
}

unfoldable pub prepare : String → Option Header → Option Header → Option Header
unfolding lower_order
prepare key defaults h = lower_order key (header_or defaults h)

-- What the deferred function makes of a panic.
abbrev pub recovered : Bool → DoResult
recovered catch_panics = if catch_panics then nothing else panicked

-- The first error of the debug mode before and after the request.
abbrev pub debug_before : Bool → Request → DebugAnswers → Option ℕ
debug_before debug req a =
    if debug
    then (if is_some req.body then or_else a.read_request_body a.dump_request else a.dump_request)
    else none

abbrev pub debug_after : Bool → Response → DebugAnswers → Option ℕ
debug_after debug resp a =
    if debug
    then (if resp.has_body then or_else a.dump_response a.read_response_body else a.dump_response)
    else none

abbrev pub failed_or : Option ℕ → DoResult → DoResult
failed_or none r = r
failed_or (some e) r = failed e

unfoldable pub sent_result : HttpClientConfig → DebugAnswers → Sent → DoResult
sent_result c a (response r) = failed_or (debug_after c.debug r a) (responded r)
sent_result c a (send_failed e) = failed e
sent_result c a send_panicked = recovered c.catch_panics

unfoldable pub received :
    HttpClient → Request → DebugAnswers → (Option CookieJar × ClientTransport) × Sent → Done
unfolding sent_result
received c req a ((j, t), s) = record {
  client = record c { jar = j; transport = t };
  request = req;
  result = sent_result c.config a s;
}

-- `Do` once the header was prepared.
unfoldable pub issue : Exchange → HttpClient → Request → DebugAnswers → Option ℕ → Done
unfolding received
issue exchange c req a (some e) = record { client = c; request = req; result = failed e }
issue exchange c req a none =
    received c req a (exchange c.check_redirect c.timeout c.jar c.transport req)

unfoldable pub prepared : Exchange → HttpClient → Request → DebugAnswers → Option Header → Done
unfolding issue
prepared exchange c req a none = record {
  client = record c { header_locked = true };
  request = record req { header = none };
  result = recovered c.config.catch_panics;
}
prepared exchange c req a (some h) =
    issue exchange c (record req { header = some h }) a (debug_before c.config.debug req a)

abbrev pub typed : String → NewRequest → NewRequest
typed content_type (bad_request e) = bad_request e
typed content_type (made_request req) = made_request (set_content_type content_type req)

module _ (key : String) (exchange : Exchange) where
  -- `Do`; `key` is http.HeaderOrderKey.
  unfoldable pub do_request : HttpClient → Request → DebugAnswers → Done
  unfolding prepared prepare
  do_request c req a =
      if c.header_locked
      then record { client = c; request = req; result = blocked }
      else prepared exchange c req a (prepare key c.config.default_headers req.header)

  unfoldable pub do_new : HttpClient → DebugAnswers → NewRequest → HttpClient × DoResult
  unfolding do_request
  do_new c a (bad_request e) = (c, failed e)
  do_new c a (made_request req) = ((do_request c req a).client, (do_request c req a).result)

  module _ (new_request : String → String → Option ℕ → NewRequest) where
    unfoldable pub get : HttpClient → DebugAnswers → String → HttpClient × DoResult
    unfolding do_new
    get c a url = do_new c a (new_request "GET" url none)

    unfoldable pub head : HttpClient → DebugAnswers → String → HttpClient × DoResult
    unfolding do_new
    head c a url = do_new c a (new_request "HEAD" url none)

    unfoldable pub post :
        HttpClient → DebugAnswers → String → String → Option ℕ → HttpClient × DoResult
    unfolding do_new
    post c a url content_type body = do_new c a (typed content_type (new_request "POST" url body))
