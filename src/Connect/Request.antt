-- ===== src/Connect/Request.antt =====
-- connect.go, DialContext: the header of the CONNECT request.
use httpkit.Prelude.{
  ◌≡◌, refl, ◌∙◌, ap, String, List, [], ◌∷◌, Option, none, some, lookup, lookup-put, or_else, arith,
}
use httpkit.Connect.{Header, ConnectDialer}
use httpkit.Connect.Tunnel.{merge_headers, header_or_empty, request_header}

lookup-merge_headers :
    (over base : Header) (k : String)
    → lookup k (merge_headers over base) ≡ or_else (lookup k over) (lookup k base)
unfolding merge_headers lookup
lookup-merge_headers [] base k = refl
lookup-merge_headers ((j, v) ∷ over) base k =
    ground (arith, lookup-put j k v (merge_headers over base), lookup-merge_headers over base k)

or_else-none : (o : Option (List String)) → or_else o none ≡ o
or_else-none none = refl
or_else-none (some a) = refl

-- The CONNECT request carries, for every key, the header of the context if that has one, and
-- otherwise the default header of the dialer.
pub lookup-request_header :
    (c : ConnectDialer) (ctx : Option Header) (k : String)
    → lookup k (request_header c ctx)
      ≡ or_else (lookup k (header_or_empty ctx)) (lookup k (header_or_empty c.default_header))
unfolding request_header lookup
lookup-request_header c ctx k =
    lookup-merge_headers (header_or_empty ctx) _ k
    ∙ ap (or_else (lookup k (header_or_empty ctx)))
        (lookup-merge_headers (header_or_empty c.default_header) [] k ∙ or_else-none _)
