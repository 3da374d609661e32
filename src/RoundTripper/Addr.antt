-- ===== src/RoundTripper/Addr.antt =====
-- roundtripper.go, getDialTLSAddr: the address under which a request's transport is cached.
use httpkit.Prelude.{◌≡◌, refl, String, none, some, Option-cases, inl, inr}
use httpkit.Text.{
  has_code, split_host_port, join_host_port, NoBrackets, IsPort, split_host_port-join_host_port,
  split_host_port_clean,
}
use httpkit.Http.{Url}
use httpkit.RoundTripper.{host_port_or, get_dial_tls_addr}

abbrev pub with_host : String → Url
with_host host = record { scheme = "https"; host = host }

https-IsPort : IsPort "443"
unfolding has_code
https-IsPort = ((refl, refl), refl)

addr_of_split :
    (u : Url) (host port : String)
    → split_host_port u.host ≡ some (host, port)
    → get_dial_tls_addr u ≡ join_host_port host port
unfolding get_dial_tls_addr
addr_of_split u host port e = rw (e, host_port_or) refl

addr_of_bare :
    (u : Url) → split_host_port u.host ≡ none → get_dial_tls_addr u ≡ join_host_port u.host "443"
unfolding get_dial_tls_addr
addr_of_bare u e = rw (e, host_port_or) refl

joined_idem :
    (host port : String)
    → NoBrackets host
    → IsPort port
    → get_dial_tls_addr (with_host (join_host_port host port)) ≡ join_host_port host port
joined_idem host port h q =
    addr_of_split (with_host (join_host_port host port)) host port
      (split_host_port-join_host_port host port h q)

-- A request with an explicit port 443 and one without a port have one address.
pub get_dial_tls_addr_default_port :
    (host : String)
    → NoBrackets host
    → split_host_port host ≡ none
    → get_dial_tls_addr (with_host host) ≡ get_dial_tls_addr (with_host (join_host_port host "443"))
get_dial_tls_addr_default_port host h e =
    rw (addr_of_bare (with_host host) e) (rw (joined_idem host "443" h https-IsPort) refl)

-- The address of an address is the address itself, for every host without brackets.
pub get_dial_tls_addr_idem :
    (u : Url)
    → NoBrackets u.host
    → get_dial_tls_addr (with_host (get_dial_tls_addr u)) ≡ get_dial_tls_addr u
get_dial_tls_addr_idem u h = elim (Option-cases (split_host_port u.host)) [
  | inl bare ↦ rw (addr_of_bare u bare) (joined_idem u.host "443" h https-IsPort)
  | inr ((host, port), e) ↦
      let (h', q) = split_host_port_clean u.host host port e in
      rw (addr_of_split u host port e) (joined_idem host port h' q)
]
