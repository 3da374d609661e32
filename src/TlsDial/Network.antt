-- ===== src/TlsDial/Network.antt =====
-- roundtripper.go, dialTLS: over which network a connection is dialled, and what becomes of it.
use httpkit.Prelude.{
  ℕ, ◌≡◌, Bool, true, false, ◌||◌, ◌&&◌, not, String, [], ◌∷◌, ◌++◌, none, some, lookup, ◌==◌,
}
use httpkit.Pinner.{PinError}
use httpkit.Transport.{Transport, http1, http2, TransportConfig}
use httpkit.TlsDial.{
  RoundTripper, Protocols, Conn, RawConn, protocol_negotiated, bad_pin, handshake_failed,
  dial_context, closed, DialResult, conn, error,
}

-- The versions of IP that a network of the net package admits.
abbrev pub admits_ipv4 : String → Bool
admits_ipv4 network = not (network == "tcp6")

abbrev pub admits_ipv6 : String → Bool
admits_ipv6 network = not (network == "tcp4")

-- A disabled version is not dialled, except IPv4 where both are disabled.
abbrev pub Respects : TransportConfig → String → Type 0
Respects c network =
    (admits_ipv6 network ≡ not c.disable_ipv6)
    × (admits_ipv4 network ≡ (not c.disable_ipv4 || c.disable_ipv6))

abbrev pub is_http2 : Transport → Bool
is_http2 (http2 _) = true
is_http2 _ = false

abbrev pub is_http1 : Transport → Bool
is_http1 (http1 _) = true
is_http1 _ = false

-- A transport for HTTP/2 where the peer chose that, and one for HTTP/1 where it chose neither that
-- nor HTTP/3.
abbrev pub Suits : Protocols → String → Transport → Type 0
Suits p negotiated t =
    (is_http2 t ≡ (negotiated == p.next_proto_tls))
    × (is_http1 t ≡ (not (negotiated == p.next_proto_tls) && not (negotiated == p.next_proto_h3)))

-- What becomes of a connection: it is closed where the handshake fails; it is returned, or stashed
-- for the transport that is built; where the pins do not match it is neither, and stays open.
pub data Fate (p : Protocols) (rt : RoundTripper) (raw : RawConn) (network addr : String)
    (r : RoundTripper × DialResult) : Type 0 where
  is_closed :
      (e : ℕ)
      → r.1 ≡ error (handshake_failed e)
      → r.0.trace ≡ rt.trace ++ dial_context network addr ∷ closed raw ∷ []
      → Fate p rt raw network addr r
  is_returned :
      (c : Conn)
      → r.1 ≡ conn c
      → c.raw ≡ raw
      → r.0.trace ≡ rt.trace ++ dial_context network addr ∷ []
      → Fate p rt raw network addr r
  is_stashed :
      (c : Conn) (t : Transport)
      → lookup addr rt.cached_transports ≡ none
      → lookup addr r.0.cached_transports ≡ some t
      → Suits p c.connection_state.negotiated_protocol t
      → r.1 ≡ error protocol_negotiated
      → lookup addr r.0.cached_connections ≡ some c
      → c.raw ≡ raw
      → r.0.trace ≡ rt.trace ++ dial_context network addr ∷ []
      → Fate p rt raw network addr r
  is_lost :
      (e : PinError)
      → r.1 ≡ error (bad_pin e)
      → r.0.cached_connections ≡ rt.cached_connections
      → r.0.trace ≡ rt.trace ++ dial_context network addr ∷ []
      → Fate p rt raw network addr r
