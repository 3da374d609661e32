-- ===== src/Connect/Dialers.antt =====
-- connect.go: the dialers for no proxy and for a SOCKS5 proxy.
use httpkit.Prelude.{ℕ, ◌≡◌, refl, String, Option}
use httpkit.Connect.{NetDialer, ProxyAuth}

-- A call of net.Dialer or of the dialer that proxy.SOCKS5 returned; a context is a number.
pub data Call : Type 0 where
  net_dial : NetDialer → (network addr : String) → Call
  net_dial_context : NetDialer → ℕ → (network addr : String) → Call
  socks_dial : String → Option ProxyAuth → NetDialer → (network addr : String) → Call

-- The calls that `Dial` and `DialContext` make, whose results they return.
unfoldable pub direct_dial : NetDialer → String → String → Call
direct_dial d network addr = net_dial d network addr

unfoldable pub direct_dial_context : NetDialer → ℕ → String → String → Call
direct_dial_context d ctx network addr = net_dial_context d ctx network addr

unfoldable pub socks_dial_context :
    String → Option ProxyAuth → NetDialer → ℕ → String → String → Call
socks_dial_context host auth d ctx network addr = socks_dial host auth d network addr

-- A SOCKS5 dial does not depend on its context: it is not cancelled with the request.
socks_dial_context-eq :
    (host : String) (auth : Option ProxyAuth) (d : NetDialer) (ctx ctx' : ℕ) (network addr : String)
    → socks_dial_context host auth d ctx network addr
      ≡ socks_dial_context host auth d ctx' network addr
unfolding socks_dial_context
socks_dial_context-eq host auth d ctx ctx' network addr = refl
