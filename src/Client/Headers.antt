-- ===== src/Client/Headers.antt =====
-- client.go, Do and Post: the header that is sent, and what becomes of the lock that guards it.
use httpkit.Prelude.{
  ◌≡◌, refl, if_true, if_false, inl, inr, true, false, String, map, Option, none, some, lookup, put,
  lookup-put, Bool-cases, ◌==◌, ℕ, if◌then◌else◌,
}
use httpkit.Text.{to_lower}
use httpkit.Connect.{Header}
use httpkit.Client.{HttpClient, Request}
use httpkit.Client.Send.{
  Exchange, DebugAnswers, blocked, Sent, response, send_failed, send_panicked, sent_result,
  recovered, NewRequest, made_request, bad_request, is_empty, header_or, order_of, lower_order,
  prepare, do_request, post, prepared, issue, received, set_content_type, typed, do_new,
  all_to_lower, debug_before,
}

-- The client with other default headers.
abbrev pub with_defaults : HttpClient → Option Header → HttpClient
with_defaults c d = record c { config = record c.config { default_headers = d } }

module _ (key : String) (exchange : Exchange) where
  pub do_request_free :
      (c : HttpClient) (req : Request) (a : DebugAnswers)
      → c.header_locked ≡ false
      → do_request key exchange c req a
        ≡ prepared exchange c req a (prepare key c.config.default_headers req.header)
  unfolding do_request
  do_request_free c req a e = if_false c.header_locked _ _ e

  issued :
      (c : HttpClient) (req : Request) (a : DebugAnswers) (o : Option ℕ)
      → o ≡ none
      → issue exchange c req a o
        ≡ received c req a (exchange c.check_redirect c.timeout c.jar c.transport req)
  unfolding issue
  issued c req a none e = refl
  issued c req a (some x) e = cc

  -- Where the lock of the headers is free, there is a header to send and the debug mode reads the
  -- request without an error, what `Do` hands to net/http's Client, and leaves in the request, is
  -- the request with its own header, or with the default headers where that is nil or empty, in
  -- which the order of the headers is in lower case and every other entry as it was. The jar, the
  -- transport and the result of `Do` are those of that exchange.
  pub do_request-header :
      (c : HttpClient) (req : Request) (a : DebugAnswers) (base : Header)
      → c.header_locked ≡ false
      → header_or c.config.default_headers req.header ≡ some base
      → debug_before c.config.debug req a ≡ none
      → (h : Header) × ((k : String)
          → lookup k h ≡ (
              if key == k then some (map to_lower (order_of (lookup key base))) else lookup k base))
        × (let sent : Request = record req { header = some h } in
            let out = exchange c.check_redirect c.timeout c.jar c.transport sent in
            do_request key exchange c req a ≡ record {
              client = record c { jar = out.0.0; transport = out.0.1 };
              request = sent;
              result = sent_result c.config a out.1;
            })
  unfolding prepare lower_order all_to_lower prepared received
  do_request-header c req a base free e quiet =
      let h = put key (map to_lower (order_of (lookup key base))) base in
      (
        h,
        λ k. lookup-put key k _ base,
        rw (do_request_free c req a free) (
            rw e (
              issued c (record req { header = some h }) a (debug_before c.config.debug req a)
                quiet)),
      )

  -- Without default headers a request without headers makes `Do` panic while it holds the lock:
  -- the panic is caught or not, and every later `Do` of the client waits for ever.
  pub do_request_blocks :
      (c : HttpClient) (req later : Request) (a b : DebugAnswers)
      → c.header_locked ≡ false
      → c.config.default_headers ≡ none
      → is_empty req.header ≡ true
      → ((do_request key exchange c req a).result ≡ recovered c.config.catch_panics)
        × ((do_request key exchange (do_request key exchange c req a).client later b).result
            ≡ blocked)
  unfolding do_request prepare lower_order prepared
  do_request_blocks c req later a b free none_set empty =
      rw (do_request_free c req a free) (rw empty (rw none_set (refl, refl)))

  sent_result-with_defaults :
      (c : HttpClient) (a : DebugAnswers) (d : Option Header) (s : Sent)
      → sent_result (with_defaults c d).config a s ≡ sent_result c.config a s
  unfolding sent_result
  sent_result-with_defaults c a d (response r) = refl
  sent_result-with_defaults c a d (send_failed e) = refl
  sent_result-with_defaults c a d send_panicked = refl

  issue-with_defaults :
      (c : HttpClient) (req : Request) (a : DebugAnswers) (d : Option Header) (o : Option ℕ)
      → (issue exchange (with_defaults c d) req a o).result ≡ (issue exchange c req a o).result
  unfolding issue received
  issue-with_defaults c req a d (some e) = refl
  issue-with_defaults c req a d none = sent_result-with_defaults c a d _

  prepared-with_defaults :
      (c : HttpClient) (req : Request) (a : DebugAnswers) (d : Option Header) (o : Option Header)
      → (prepared exchange (with_defaults c d) req a o).result
        ≡ (prepared exchange c req a o).result
  unfolding prepared
  prepared-with_defaults c req a d none = refl
  prepared-with_defaults c req a d (some h) =
      issue-with_defaults c (record req { header = some h }) a d _

  pub do_request_locked :
      (c : HttpClient) (req : Request) (a : DebugAnswers)
      → c.header_locked ≡ true
      → do_request key exchange c req a ≡ record { client = c; request = req; result = blocked }
  unfolding do_request
  do_request_locked c req a e = if_true c.header_locked _ _ e

  do_request-with_defaults :
      (c : HttpClient) (req : Request) (a : DebugAnswers) (d : Option Header)
      → is_empty req.header ≡ false
      → (do_request key exchange (with_defaults c d) req a).result
        ≡ (do_request key exchange c req a).result
  unfolding do_request prepare
  do_request-with_defaults c req a d own = elim (Bool-cases c.header_locked) [
    | inl locked ↦
        rw (do_request_locked c req a locked, do_request_locked (with_defaults c d) req a locked)
          refl
    | inr free ↦
        rw (do_request_free c req a free, do_request_free (with_defaults c d) req a free)
          (rw own (prepared-with_defaults c req a d (lower_order key req.header)))
  ]

  do_typed-with_defaults :
      (c : HttpClient) (a : DebugAnswers) (content_type : String) (d : Option Header)
      (r : NewRequest)
      → (do_new key exchange (with_defaults c d) a (typed content_type r)).1
        ≡ (do_new key exchange c a (typed content_type r)).1
  unfolding do_new put
  do_typed-with_defaults c a content_type d (bad_request e) = refl
  do_typed-with_defaults c a content_type d (made_request req) =
      do_request-with_defaults c (set_content_type content_type req) a d refl

  module _ (new_request : String → String → Option ℕ → NewRequest) where
    -- `Post` sets the content type itself, so its request has a header, and the default headers of
    -- the client never play a part in what it returns.
    pub post_ignores_defaults :
        (c : HttpClient) (a : DebugAnswers) (url content_type : String) (body : Option ℕ)
        (d : Option Header)
        → (post key exchange new_request (with_defaults c d) a url content_type body).1
          ≡ (post key exchange new_request c a url content_type body).1
    unfolding post
    post_ignores_defaults c a url content_type body d =
        do_typed-with_defaults c a content_type d (new_request "POST" url body)
