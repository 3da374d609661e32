-- ===== src/Profiles.antt =====
-- profiles/profiles.go: what a browser profile holds.
pub mod Constants
pub mod ChromeEarly
pub mod ChromeLater
pub mod ChromeNewer
pub mod ChromeLatest
pub mod SafariPresets
pub mod SafariIos
pub mod FirefoxEarly
pub mod FirefoxPresets
pub mod FirefoxLater
pub mod FirefoxNewer
pub mod FirefoxLatest
pub mod Opera
pub mod Zalando
pub mod Nike
pub mod Mms
pub mod MeshIos
pub mod MeshAndroid
pub mod Confirmed
pub mod OkhttpEarly
pub mod Okhttp
pub mod Table
pub mod Hello
pub mod WellFormed
pub mod Announced
mod Tests
use httpkit.Prelude.{ℕ, String, List, Option}
use httpkit.Tls.{ClientHelloId, SettingId, PriorityParam, Priority}

-- A nil map or slice is `none`, where the code tests for it.
pub record ClientProfile : Type 0 where
  pub client_hello_id : ClientHelloId
  pub header_priority : Option PriorityParam
  pub settings : Option (List (SettingId × ℕ))
  pub priorities : List Priority
  pub pseudo_header_order : Option (List String)
  pub settings_order : List SettingId
  pub connection_flow : ℕ

unfoldable pub new_client_profile :
    ClientHelloId
    → Option (List (SettingId × ℕ))
    → List SettingId
    → Option (List String)
    → ℕ
    → List Priority
    → Option PriorityParam
    → ClientProfile
new_client_profile id settings order pseudo flow priorities priority = record {
  client_hello_id = id;
  header_priority = priority;
  settings = settings;
  priorities = priorities;
  pseudo_header_order = pseudo;
  settings_order = order;
  connection_flow = flow;
}
