-- ===== src/Connect/Open.antt =====
-- connect.go, DialContext: which connections are open after a dial.
use httpkit.Prelude.{
  ℕ, ◌≡◌, refl, ◌∙◌, Bool, true, false, ◌||◌, ◌&&◌, not, String, List, [], ◌∷◌, ◌++◌, Option, none,
  some, eqb, ◌==◌, Bool-cases, inl, inr, if◌then◌else◌, arith,
}
use httpkit.Connect.{CachedConn, ConnectDialer}
use httpkit.Connect.Tunnel.{
  Event, dialed, tls_dialed, closed, deadline_set, deadline_cleared, Tunnel, http1_tunnel,
  http2_tunnel, failed, Reply, broken, status, Dialed, connected, refused, Answers, connect_http1,
  connect_http2, http1_reply, http1_write, http1_deadline, Dial, h2_answered, h2_new, over_protocol,
  before, http_proxy, https_handshake, https_proxy, new_connection, cached_answered, from_cache,
  dial_context,
}

module _ (n : ℕ) where
  -- Whether a connection is open after an event, and after a list of them.
  unfoldable pub event_open : Event → Bool → Bool
  event_open (dialed raw) b = b || eqb raw n
  event_open (tls_dialed raw) b = b || eqb raw n
  event_open (closed raw) b = not (eqb raw n) && b
  event_open (deadline_set raw) b = b
  event_open (deadline_cleared raw) b = b

  unfoldable pub open_after : List Event → Bool → Bool
  unfolding event_open
  open_after [] b = b
  open_after (e ∷ es) b = open_after es (event_open e b)

  -- Whether a tunnel runs over the connection.
  unfoldable pub is_over : Tunnel → Bool
  is_over (http1_tunnel raw) = eqb raw n
  is_over (http2_tunnel raw) = eqb raw n
  is_over (failed e) = false

  -- The events and the tunnel agree, for connections that are open before exactly where `b` says.
  abbrev Agrees : Bool → List Event × Tunnel → Type 0
  Agrees b r = open_after r.0 b ≡ is_over r.1

  connect_http2-Agrees : (raw : ℕ) (r : Reply) → Agrees (eqb raw n) (connect_http2 raw r)
  unfolding connect_http2 open_after is_over
  connect_http2-Agrees raw (broken e) = ground arith
  connect_http2-Agrees raw (status s) = elim (Bool-cases (eqb s 200)) [
    | inl ok ↦ rw ok refl
    | inr bad ↦ rw bad (ground arith)
  ]

  http1_reply-Agrees : (raw : ℕ) (r : Reply) → Agrees (eqb raw n) (http1_reply raw r)
  unfolding http1_reply open_after is_over
  http1_reply-Agrees raw (broken e) = ground arith
  http1_reply-Agrees raw (status s) = elim (Bool-cases (eqb s 200)) [
    | inl ok ↦ rw ok refl
    | inr bad ↦ rw bad (ground arith)
  ]

  http1_write-Agrees :
      (raw : ℕ) (w : Option ℕ) (r : Reply) → Agrees (eqb raw n) (http1_write raw w r)
  unfolding http1_write open_after is_over
  http1_write-Agrees raw (some e) r = ground arith
  http1_write-Agrees raw none r = http1_reply-Agrees raw r

  http1_deadline-Agrees :
      (raw : ℕ) (d w : Option ℕ) (r : Reply) → Agrees (eqb raw n) (http1_deadline raw d w r)
  unfolding http1_deadline open_after is_over
  http1_deadline-Agrees raw (some e) w r = ground arith
  http1_deadline-Agrees raw none w r = http1_write-Agrees raw w r

  open_after-append :
      (xs ys : List Event) (b : Bool) → open_after (xs ++ ys) b ≡ open_after ys (open_after xs b)
  unfolding open_after
  open_after-append [] ys b = refl
  open_after-append (x ∷ xs) ys b = open_after-append xs ys (event_open x b)

  abbrev DialAgrees : Bool → Dial → Type 0
  DialAgrees b d = open_after d.events b ≡ is_over d.tunnel

  h2_answered-Agrees :
      (c : ConnectDialer) (raw : ℕ) (a : Answers) (r : List Event × Tunnel)
      → Agrees (eqb raw n) r
      → DialAgrees (eqb raw n) (h2_answered c raw a r)
  unfolding h2_answered open_after is_over
  h2_answered-Agrees c raw a (es, failed e) h =
      rw (open_after-append es (closed raw ∷ []) (eqb raw n)) (rw h (ground arith))
  h2_answered-Agrees c raw a (es, http1_tunnel r) h = h
  h2_answered-Agrees c raw a (es, http2_tunnel r) h = h

  h2_new-Agrees :
      (c : ConnectDialer) (raw : ℕ) (a : Answers) (o : Option ℕ)
      → DialAgrees (eqb raw n) (h2_new c raw a o)
  unfolding h2_new open_after is_over
  h2_new-Agrees c raw a (some e) = ground arith
  h2_new-Agrees c raw a none = h2_answered-Agrees c raw a _ (connect_http2-Agrees raw a.reply)

  over_protocol-Agrees :
      (c : ConnectDialer) (a : Answers) (raw : ℕ) (protocol : String)
      → DialAgrees (eqb raw n) (over_protocol c a raw protocol)
  unfolding over_protocol connect_http1 open_after is_over
  over_protocol-Agrees c a raw protocol =
      elim (Bool-cases (protocol == "" || protocol == "http/1.1")) [
        | inl h1 ↦ rw h1 (http1_deadline-Agrees raw a.set_deadline a.write a.reply)
        | inr not_h1 ↦ rw not_h1 (elim (Bool-cases (protocol == "h2")) [
          | inl h2 ↦ rw h2 (h2_new-Agrees c raw a a.new_client_conn)
          | inr other ↦ rw other (ground arith)
        ])
      ]

  before-Agrees :
      (es : List Event) (d : Dial) (b : Bool)
      → DialAgrees (open_after es b) d
      → DialAgrees b (before es d)
  before-Agrees es d b h = open_after-append es d.events b ∙ h

  http_proxy-Agrees :
      (c : ConnectDialer) (a : Answers) (o : Dialed) → DialAgrees false (http_proxy c a o)
  unfolding http_proxy open_after is_over
  http_proxy-Agrees c a (refused e) = refl
  http_proxy-Agrees c a (connected raw) = over_protocol-Agrees c a raw ""

  https_handshake-Agrees :
      (c : ConnectDialer) (a : Answers) (raw : ℕ) (o : Option ℕ)
      → o ≡ none
      → DialAgrees (eqb raw n) (https_handshake c a raw o)
  unfolding https_handshake
  https_handshake-Agrees c a raw none h = over_protocol-Agrees c a raw a.negotiated_protocol
  https_handshake-Agrees c a raw (some e) h = cc

  https_proxy-Agrees :
      (c : ConnectDialer) (a : Answers) (o : Dialed)
      → a.tls_handshake ≡ none
      → DialAgrees false (https_proxy c a o)
  unfolding https_proxy open_after is_over
  https_proxy-Agrees c a (refused e) h = refl
  https_proxy-Agrees c a (connected raw) h = https_handshake-Agrees c a raw a.tls_handshake h

  new_connection-Agrees :
      (c : ConnectDialer) (a : Answers)
      → a.tls_handshake ≡ none
      → DialAgrees false (new_connection c a)
  unfolding new_connection open_after is_over
  new_connection-Agrees c a h = elim (Bool-cases (c.proxy_url.scheme == "http")) [
    | inl http ↦ rw http (http_proxy-Agrees c a a.dial)
    | inr not_http ↦ rw not_http (elim (Bool-cases (c.proxy_url.scheme == "https")) [
      | inl https ↦ rw https (https_proxy-Agrees c a a.dial h)
      | inr other ↦ rw other refl
    ])
  ]

  cached_answered-Agrees :
      (c : ConnectDialer) (a : Answers) (b : Bool) (r : List Event × Tunnel)
      → a.tls_handshake ≡ none
      → Agrees b r
      → DialAgrees b (cached_answered c a r)
  unfolding cached_answered is_over
  cached_answered-Agrees c a b (es, failed e) h k =
      open_after-append es (new_connection c a).events b ∙ (rw k (new_connection-Agrees c a h))
  cached_answered-Agrees c a b (es, http1_tunnel raw) h k = k
  cached_answered-Agrees c a b (es, http2_tunnel raw) h k = k

  -- Whether the dial takes up the connection from the cache.
  unfoldable pub is_cached : Answers → Option CachedConn → Bool
  is_cached a none = false
  is_cached a (some k) = a.can_take_new_request && eqb k.raw_conn n

  abbrev pub taken_up : ConnectDialer → Answers → Bool
  taken_up c a = c.enable_h2_conn_reuse && is_cached a c.cached_h2

  choice-Agrees :
      (reuse b : Bool) (d d' : Dial)
      → DialAgrees b d
      → DialAgrees false d'
      → DialAgrees (reuse && b) (if reuse then d else d')
  choice-Agrees true b d d' h h' = h
  choice-Agrees false b d d' h h' = h'

  from_cache-Agrees :
      (c : ConnectDialer) (a : Answers) (o : Option CachedConn)
      → a.tls_handshake ≡ none
      → DialAgrees (is_cached a o) (from_cache c a o)
  unfolding from_cache is_cached
  from_cache-Agrees c a none h = new_connection-Agrees c a h
  from_cache-Agrees c a (some k) h =
      choice-Agrees a.can_take_new_request (eqb k.raw_conn n) _ _
        (cached_answered-Agrees c a _ (connect_http2 k.raw_conn a.cached_reply) h
          (connect_http2-Agrees k.raw_conn a.cached_reply))
        (new_connection-Agrees c a h)

  -- Where the connections that tls.Dial returns have passed their handshake, the only connection
  -- that is open after `DialContext`, of those that it made or took up from its cache, is the one
  -- under the tunnel that it returns; after an error there is none.
  pub dial_context-open :
      (c : ConnectDialer) (a : Answers)
      → a.tls_handshake ≡ none
      → open_after (dial_context c a).events (taken_up c a) ≡ is_over (dial_context c a).tunnel
  unfolding dial_context
  dial_context-open c a h =
      choice-Agrees c.enable_h2_conn_reuse (is_cached a c.cached_h2) _ _
        (from_cache-Agrees c a c.cached_h2 h) (new_connection-Agrees c a h)
