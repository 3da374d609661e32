-- ===== src/Profiles/Opera.antt =====
-- profiles/internal_browser_profiles.go: the profiles of Opera.
use httpkit.Prelude.{[], ◌∷◌, some, none}
use httpkit.Tls.{
  header_table_size, initial_window_size, max_concurrent_streams, max_header_list_size,
}
use httpkit.Profiles.{ClientProfile}
use httpkit.Profiles.Constants.{Constants}

module _ (c : Constants) where
  open c use {hello_opera_89, hello_opera_90, hello_opera_91}

  unfoldable pub opera_89 : ClientProfile
  opera_89 = record {
    client_hello_id = hello_opera_89;
    header_priority = none;
    settings = some (
        (header_table_size, 65536)
        ∷ (max_concurrent_streams, 1000)
        ∷ (initial_window_size, 6291456)
        ∷ (max_header_list_size, 262144)
        ∷ []);
    priorities = [];
    pseudo_header_order = some (":method" ∷ ":authority" ∷ ":scheme" ∷ ":path" ∷ []);
    settings_order =
        header_table_size ∷ max_concurrent_streams ∷ initial_window_size ∷ max_header_list_size
        ∷ [];
    connection_flow = 15663105;
  }

  unfoldable pub opera_90 : ClientProfile
  opera_90 = record {
    client_hello_id = hello_opera_90;
    header_priority = none;
    settings = some (
        (header_table_size, 65536)
        ∷ (max_concurrent_streams, 1000)
        ∷ (initial_window_size, 6291456)
        ∷ (max_header_list_size, 262144)
        ∷ []);
    priorities = [];
    pseudo_header_order = some (":method" ∷ ":authority" ∷ ":scheme" ∷ ":path" ∷ []);
    settings_order =
        header_table_size ∷ max_concurrent_streams ∷ initial_window_size ∷ max_header_list_size
        ∷ [];
    connection_flow = 15663105;
  }

  unfoldable pub opera_91 : ClientProfile
  opera_91 = record {
    client_hello_id = hello_opera_91;
    header_priority = none;
    settings = some (
        (header_table_size, 65536)
        ∷ (max_concurrent_streams, 1000)
        ∷ (initial_window_size, 6291456)
        ∷ (max_header_list_size, 262144)
        ∷ []);
    priorities = [];
    pseudo_header_order = some (":method" ∷ ":authority" ∷ ":scheme" ∷ ":path" ∷ []);
    settings_order =
        header_table_size ∷ max_concurrent_streams ∷ initial_window_size ∷ max_header_list_size
        ∷ [];
    connection_flow = 15663105;
  }
