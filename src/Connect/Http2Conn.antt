-- ===== src/Connect/Http2Conn.antt =====
-- connect.go: http2Conn, the connection through an HTTP/2 proxy: a pipe into the body of the
-- CONNECT request, and the body of its response.
use httpkit.Prelude.{ℕ, ◌≡◌, refl, List, [], ◌∷◌, ◌++◌, Option, none, some, or_else}

-- The three parts, each known by a number.
pub record Http2Conn : Type 0 where
  pub conn : ℕ
  pub pipe : ℕ
  pub out : ℕ

abbrev pub new_http2_conn : ℕ → ℕ → ℕ → Http2Conn
new_http2_conn c piped_req_body resp_body = record {
  conn = c;
  pipe = piped_req_body;
  out = resp_body;
}

-- A call on a part; the numbers are lengths of what is asked for, or given.
pub data Call : Type 0 where
  read : (part n : ℕ) → Call
  write : (part n : ℕ) → Call
  close : (part : ℕ) → Call

module _ (result : Call → Option ℕ) where
  -- Each method: the calls that it makes, and the error that it returns, `result` being theirs.
  unfoldable pub read_conn : Http2Conn → ℕ → List Call × Option ℕ
  read_conn h n = (read h.out n ∷ [], result (read h.out n))

  unfoldable pub write_conn : Http2Conn → ℕ → List Call × Option ℕ
  write_conn h n = (write h.pipe n ∷ [], result (write h.pipe n))

  abbrev last_error : Option ℕ → Option ℕ → Option ℕ
  last_error first none = first
  last_error first (some e) = some e

  last_error-eq : (a b : Option ℕ) → last_error a b ≡ or_else b a
  last_error-eq a none = refl
  last_error-eq a (some e) = refl

  unfoldable pub close_both : Http2Conn → List Call × Option ℕ
  close_both h =
      (close h.pipe ∷ close h.out ∷ [], last_error (result (close h.pipe)) (result (close h.out)))

  unfoldable pub close_conn : Http2Conn → List Call × Option ℕ
  close_conn h = (close h.conn ∷ [], result (close h.conn))

  unfoldable pub close_write : Http2Conn → List Call × Option ℕ
  close_write h = (close h.pipe ∷ [], result (close h.pipe))

  unfoldable pub close_read : Http2Conn → List Call × Option ℕ
  close_read h = (close h.out ∷ [], result (close h.out))

  -- `Close` is `CloseWrite` and then `CloseRead`, whatever the first returns; it fails where one
  -- of them does, and the connection under both stays open.
  pub close_both-eq :
      (h : Http2Conn)
      → ((close_both h).0 ≡ (close_write h).0 ++ (close_read h).0)
        × ((close_both h).1 ≡ or_else (close_read h).1 (close_write h).1)
  unfolding close_both close_write close_read
  close_both-eq h = (refl, last_error-eq (result (close h.pipe)) (result (close h.out)))
