-- ===== src/RoundTripper/Reach.antt =====
-- roundtripper.go: the states that requests and the dials of the transports lead to, and what all
-- of them satisfy. The storage of pins is fixed.
use httpkit.Prelude.{◌≡◌, refl, String, none, some, arith, lookup, put, lookup-put, eq_iff}
use httpkit.Http.{Url}
use httpkit.Pinner.{HpkpStorage}
use httpkit.Transport.{Transport}
use httpkit.TlsDial.{RoundTripper, Answers, Protocols, Dialed, dial, dial_tls}
use httpkit.TlsDial.Effects.{dial_tls-DialCase}
use httpkit.TlsDial.Invariant.{
  IsStashed, IsPinned, IsStashed-of_case, IsPinned-of_case, keeps_of_case, config_of_case,
}
use httpkit.RoundTripper.{Outcome, round_trip_request}
use httpkit.RoundTripper.Cases.{
  RequestCase, cached, plain, negotiated, unexpected, dial_error, bad_scheme,
  round_trip_request-RequestCase,
}

module _ (h : HpkpStorage) (p : Protocols) (storage : h.Storage) where
  -- A request, or a dial of a transport: over TLS, or plain.
  pub data Step (rt : RoundTripper) : RoundTripper → Type 0 where
    request :
        (answers : Answers) (u : Url) → Step rt (round_trip_request h p storage rt answers u).0
    tls_dial :
        (answers : Answers) (network host : String)
        → Step rt (dial_tls h p storage rt answers network host).0
    plain_dial : (answer : Dialed) (network host : String) → Step rt (dial rt answer network host).0

  pub data Reach (rt : RoundTripper) : RoundTripper → Type 0 where
    here : Reach rt rt
    next : {s t : RoundTripper} → Reach rt s → Step s t → Reach rt t

  -- What one step keeps.
  pub record Keeps (rt rt' : RoundTripper) : Type 0 where
    pub stashed : IsStashed rt → IsStashed rt'
    pub pinned : IsPinned h p storage rt → IsPinned h p storage rt'
    pub transports :
        (a : String) (t : Transport)
        → lookup a rt.cached_transports ≡ some t
        → lookup a rt'.cached_transports ≡ some t
    pub config : rt'.config ≡ rt.config
    pub pins : rt'.certificate_pins ≡ rt.certificate_pins

  Keeps-refl : (rt : RoundTripper) → Keeps rt rt
  Keeps-refl rt = record {
    stashed = λ s. s;
    pinned = λ s. s;
    transports = λ a t e. e;
    config = refl;
    pins = refl;
  }

  Keeps-trans : {a b c : RoundTripper} → Keeps a b → Keeps b c → Keeps a c
  Keeps-trans k l = record {
    stashed = λ s. l.stashed (k.stashed s);
    pinned = λ s. l.pinned (k.pinned s);
    transports = λ a t e. l.transports a t (k.transports a t e);
    config = rw l.config k.config;
    pins = rw l.pins k.pins;
  }

  Keeps-dial_tls :
      (rt : RoundTripper) (answers : Answers) (network host : String)
      → Keeps rt (dial_tls h p storage rt answers network host).0
  Keeps-dial_tls rt answers network host =
      let c = dial_tls-DialCase h p storage rt answers network host in
      let fixed = config_of_case h p storage rt answers network host _ c in
      record {
        stashed = λ s a. IsStashed-of_case h p storage rt answers network host _ a c s;
        pinned = λ s a x. IsPinned-of_case h p storage rt answers network host _ a x c s;
        transports = λ a t. keeps_of_case h p storage rt answers network host _ a t c;
        config = fixed.0;
        pins = fixed.1;
      }

  -- A transport is added only for an address that has none.
  Keeps-put :
      (rt : RoundTripper) (a : String) (t : Transport)
      → lookup a rt.cached_transports ≡ none
      → Keeps rt (record rt { cached_transports = put a t rt.cached_transports })
  Keeps-put rt a t missing = record {
    stashed = λ s b k. ground (arith, s b, lookup-put a b t rt.cached_transports);
    pinned = λ s. s;
    transports = λ b x e. ground (arith, eq_iff a b, lookup-put a b t rt.cached_transports);
    config = refl;
    pins = refl;
  }

  Keeps-request :
      (rt : RoundTripper) (answers : Answers) (u : Url) (r : RoundTripper × Outcome)
      → RequestCase h p storage rt answers u r
      → Keeps rt r.0
  Keeps-request rt answers u r (cached t _ e) = rw e (Keeps-refl rt)
  Keeps-request rt answers u r (plain missing _ e) = rw e (Keeps-put rt _ _ missing)
  Keeps-request rt answers u r (negotiated _ _ _ e) = rw e (Keeps-dial_tls rt answers _ _)
  Keeps-request rt answers u r (unexpected _ _ _ _ e) = rw e (Keeps-dial_tls rt answers _ _)
  Keeps-request rt answers u r (dial_error _ _ _ _ _ e) = rw e (Keeps-dial_tls rt answers _ _)
  Keeps-request rt answers u r (bad_scheme _ _ _ e) = rw e (Keeps-refl rt)

  Keeps-dial :
      (rt : RoundTripper) (answer : Dialed) (network host : String)
      → Keeps rt (dial rt answer network host).0
  unfolding dial
  Keeps-dial rt answer network host = record {
    stashed = λ s. s;
    pinned = λ s. s;
    transports = λ a t e. e;
    config = refl;
    pins = refl;
  }

  Keeps-Step : {rt rt' : RoundTripper} → Step rt rt' → Keeps rt rt'
  Keeps-Step {rt} (request answers u) =
      Keeps-request rt answers u _ (round_trip_request-RequestCase h p storage rt answers u)
  Keeps-Step {rt} (tls_dial answers network host) = Keeps-dial_tls rt answers network host
  Keeps-Step {rt} (plain_dial answer network host) = Keeps-dial rt answer network host

  -- Whatever happens between two states, the later one has every transport of the earlier.
  pub Keeps-Reach : {rt rt' : RoundTripper} → Reach rt rt' → Keeps rt rt'
  Keeps-Reach {rt} here = Keeps-refl rt
  Keeps-Reach (next r s) = Keeps-trans (Keeps-Reach r) (Keeps-Step s)
