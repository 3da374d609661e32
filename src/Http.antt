-- ===== src/Http.antt =====
-- The fields that the program reads of the types of net/url and fhttp.
use httpkit.Prelude.{String, ℤ}

-- url.URL
pub record Url : Type 0 where
  pub scheme : String
  pub host : String

-- http.Cookie
pub record Cookie : Type 0 where
  pub name : String
  pub value : String
  pub max_age : ℤ
