-- ===== src/Lib.antt =====
-- httpkit: an HTTP client that looks like a browser on the wire. A request goes from the client to
-- the round tripper, which keeps one transport for each address, determined by the protocol that
-- TLS negotiates on a first connection; the connection is checked against certificate pins and its
-- bytes are counted. Connections are made by a dialer, directly or through a proxy. Cookies are
-- kept by a jar, and the TLS fingerprint comes from a profile or from a JA3 string.
--
-- Which file models which part:
--   Jar            jar.go: the cookie jar, as a map from host keys to slices. `cookies` and
--                  `set_cookies` return the jar with what the code writes through shared slices.
--                  Jar/Store is the map that a jar implements.
--   Logger         logger.go: a logger as the lines that each level prints.
--   Bandwidth      bandwidth/: the counters, each an int64 kept modulo 2 ^ 64; the steps that are
--                  atomic are separate operations, so that every interleaving is a list of them.
--   Pinner         pinner.go: `init` and `pin`. The storage of the hpkp package is the record
--                  `HpkpStorage` of its operations, over any type of storages.
--   Mapper, Ja3    mapper.go, ja3.go: the tables of names, and `string_to_spec` (stringToSpec) and
--                  `spec_from_ja3_string` (GetSpecFactoryFromJa3String). An index out of range is
--                  the result `panic`. The numbers of the tls package are the record `TlsIds`.
--   Profiles, Tls  profiles/: the profile, and the types of the tls and http2 packages that it
--                  holds. The children of Profiles hold those of a browser or of an app each, over
--                  the numbers and presets of utls (Profiles/Constants); Profiles/Table is
--                  MappedTLSClients, by name, and Profiles/Hello what RFC 8446 asks of
--                  the ClientHello of a profile.
--   Transport      roundtripper.go: the transports that are built for HTTP/1, HTTP/2 and HTTP/3.
--   TlsDial        roundtripper.go, dialTLS: what the network, the handshake and the peer answer
--                  is the argument `Answers`; what is done to connections is the field `trace`.
--   RoundTripper   roundtripper.go: RoundTrip, getTransport, getDialTLSAddr, newRoundTripper. A
--                  request ends in `Outcome`: handed to a transport, failed, or a panic.
--                  RoundTripper/Threads is the same code as threads that share the round tripper
--                  and its two locks, where a thread does one access to what is shared at a time.
--   Connect        connect.go: the dialer of a proxy URL. Connect/Tunnel is DialContext, with the
--                  answers of the proxy as an argument and the events on connections as a list;
--                  Connect/Dialers and Connect/Http2Conn are the calls that the small wrappers make.
--   ClientOptions  client_options.go: the configuration as a record, the options as a data type.
--   Client         client.go: the state of a client. Client/Send is Do, Get, Head and Post, with what
--                  net/http's Client does with a request as the argument `exchange`, and a call that
--                  panics or waits for ever as a result of its own. Client/Proxy is NewHttpClient,
--                  SetProxy and DoWithProxy; they pass along the storage of pins, which is global.
--                  Client/Default is ProvideDefaultClient, and Client/Cookies has the
--                  calls of a client for its cookies.
--   Http, Text     the fields and functions of net/url, fhttp, strings, strconv and net that the
--                  program uses, over code points; Prelude holds shared helpers.
--
-- Every function is total: loops over slices and maps are structural recursion, and no fuel is
-- used; the threads of a round tripper are a relation. Go maps are association lists with one
-- entry for a key, and a nil slice is the empty one. Durations and sizes are integers.
-- Of the locks, those of a round tripper are modelled, and that of a client's headers, which a panic
-- can leave held; each operation of the other parts is one step, except for the counters. Not
-- modelled: the transports themselves, TLS, the network, formatting of log lines, and the hook
-- DialTLS of a connect dialer, which the program never sets.
pub mod Prelude
pub mod Text
pub mod Http
pub mod Logger
pub mod Jar
pub mod Tls
pub mod Profiles
pub mod Pinner
pub mod Transport
pub mod TlsDial
pub mod RoundTripper
pub mod Bandwidth
pub mod Mapper
pub mod Ja3
pub mod Connect
pub mod ClientOptions
pub mod Client
