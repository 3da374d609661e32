-- ===== src/RoundTripper/Failure.antt =====
-- roundtripper.go, RoundTrip: what a request that fails leaves behind.
use httpkit.Prelude.{◌≡◌, Bool, false, none, lookup, ◌==◌, ◌&&◌}
use httpkit.Text.{to_lower}
use httpkit.Http.{Url}
use httpkit.Pinner.{HpkpStorage}
use httpkit.Transport.{Transport}
use httpkit.TlsDial.{RoundTripper, Answers, Protocols, Error, DialResult, conn, error}
use httpkit.RoundTripper.{Outcome, failed, get_dial_tls_addr, is_bad_pin}

-- Apart from what it did to connections, a round tripper is as before.
pub record IsUnchanged (rt rt' : RoundTripper) : Type 0 where
  pub transports : rt'.cached_transports ≡ rt.cached_transports
  pub connections : rt'.cached_connections ≡ rt.cached_connections
  pub handler : rt'.has_bad_pin_handler ≡ rt.has_bad_pin_handler
  pub config : rt'.config ≡ rt.config

abbrev error_of : Error → DialResult → Error
error_of d (error e) = e
error_of d (conn c) = d

abbrev error_or : Error → Outcome → Error
error_or d (failed e _) = e
error_or d _ = d

abbrev called : Outcome → Bool
called (failed _ b) = b
called _ = false

module _ (h : HpkpStorage) (p : Protocols) (storage : h.Storage) (rt : RoundTripper)
    (answers : Answers) (u : Url) where
  -- What is known of a failed request.
  abbrev pub Fails : RoundTripper → Error → Bool → Type 0
  Fails rt' e called_handler =
      (lookup (get_dial_tls_addr u) rt'.cached_transports ≡ none)
      × ((to_lower u.scheme == "http") ≡ false)
      × IsUnchanged rt rt'
      × (called_handler ≡ (is_bad_pin e && rt.has_bad_pin_handler))
