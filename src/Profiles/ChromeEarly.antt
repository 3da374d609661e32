-- ===== src/Profiles/ChromeEarly.antt =====
-- profiles/internal_browser_profiles.go: the profiles of the presets Chrome 103 to 112.
use httpkit.Prelude.{[], ◌∷◌, some, none}
use httpkit.Tls.{
  enable_push, header_table_size, initial_window_size, max_concurrent_streams, max_header_list_size,
}
use httpkit.Profiles.{ClientProfile}
use httpkit.Profiles.Constants.{Constants}

module _ (c : Constants) where
  open c use {
    hello_chrome_103, hello_chrome_104, hello_chrome_105, hello_chrome_106, hello_chrome_107,
    hello_chrome_108, hello_chrome_109, hello_chrome_110, hello_chrome_111, hello_chrome_112,
  }

  unfoldable pub chrome_103 : ClientProfile
  chrome_103 = record {
    client_hello_id = hello_chrome_103;
    header_priority = none;
    settings = some (
        (header_table_size, 65536)
        ∷ (max_concurrent_streams, 1000)
        ∷ (initial_window_size, 6291456)
        ∷ (max_header_list_size, 262144)
        ∷ []);
    priorities = [];
    pseudo_header_order = some (":method" ∷ ":authority" ∷ ":scheme" ∷ ":path" ∷ []);
    settings_order =
        header_table_size ∷ max_concurrent_streams ∷ initial_window_size ∷ max_header_list_size
        ∷ [];
    connection_flow = 15663105;
  }

  unfoldable pub chrome_104 : ClientProfile
  chrome_104 = record {
    client_hello_id = hello_chrome_104;
    header_priority = none;
    settings = some (
        (header_table_size, 65536)
        ∷ (max_concurrent_streams, 1000)
        ∷ (initial_window_size, 6291456)
        ∷ (max_header_list_size, 262144)
        ∷ []);
    priorities = [];
    pseudo_header_order = some (":method" ∷ ":authority" ∷ ":scheme" ∷ ":path" ∷ []);
    settings_order =
        header_table_size ∷ max_concurrent_streams ∷ initial_window_size ∷ max_header_list_size
        ∷ [];
    connection_flow = 15663105;
  }

  unfoldable pub chrome_105 : ClientProfile
  chrome_105 = record {
    client_hello_id = hello_chrome_105;
    header_priority = none;
    settings = some (
        (header_table_size, 65536)
        ∷ (max_concurrent_streams, 1000)
        ∷ (initial_window_size, 6291456)
        ∷ (max_header_list_size, 262144)
        ∷ []);
    priorities = [];
    pseudo_header_order = some (":method" ∷ ":authority" ∷ ":scheme" ∷ ":path" ∷ []);
    settings_order =
        header_table_size ∷ max_concurrent_streams ∷ initial_window_size ∷ max_header_list_size
        ∷ [];
    connection_flow = 15663105;
  }

  unfoldable pub chrome_106 : ClientProfile
  chrome_106 = record {
    client_hello_id = hello_chrome_106;
    header_priority = none;
    settings = some (
        (header_table_size, 65536)
        ∷ (enable_push, 0)
        ∷ (max_concurrent_streams, 1000)
        ∷ (initial_window_size, 6291456)
        ∷ (max_header_list_size, 262144)
        ∷ []);
    priorities = [];
    pseudo_header_order = some (":method" ∷ ":authority" ∷ ":scheme" ∷ ":path" ∷ []);
    settings_order =
        header_table_size ∷ enable_push ∷ max_concurrent_streams ∷ initial_window_size
        ∷ max_header_list_size ∷ [];
    connection_flow = 15663105;
  }

  unfoldable pub chrome_107 : ClientProfile
  chrome_107 = record {
    client_hello_id = hello_chrome_107;
    header_priority = none;
    settings = some (
        (header_table_size, 65536)
        ∷ (enable_push, 0)
        ∷ (max_concurrent_streams, 1000)
        ∷ (initial_window_size, 6291456)
        ∷ (max_header_list_size, 262144)
        ∷ []);
    priorities = [];
    pseudo_header_order = some (":method" ∷ ":authority" ∷ ":scheme" ∷ ":path" ∷ []);
    settings_order =
        header_table_size ∷ enable_push ∷ max_concurrent_streams ∷ initial_window_size
        ∷ max_header_list_size ∷ [];
    connection_flow = 15663105;
  }

  unfoldable pub chrome_108 : ClientProfile
  chrome_108 = record {
    client_hello_id = hello_chrome_108;
    header_priority = none;
    settings = some (
        (header_table_size, 65536)
        ∷ (enable_push, 0)
        ∷ (max_concurrent_streams, 1000)
        ∷ (initial_window_size, 6291456)
        ∷ (max_header_list_size, 262144)
        ∷ []);
    priorities = [];
    pseudo_header_order = some (":method" ∷ ":authority" ∷ ":scheme" ∷ ":path" ∷ []);
    settings_order =
        header_table_size ∷ enable_push ∷ max_concurrent_streams ∷ initial_window_size
        ∷ max_header_list_size ∷ [];
    connection_flow = 15663105;
  }

  unfoldable pub chrome_109 : ClientProfile
  chrome_109 = record {
    client_hello_id = hello_chrome_109;
    header_priority = none;
    settings = some (
        (header_table_size, 65536)
        ∷ (enable_push, 0)
        ∷ (max_concurrent_streams, 1000)
        ∷ (initial_window_size, 6291456)
        ∷ (max_header_list_size, 262144)
        ∷ []);
    priorities = [];
    pseudo_header_order = some (":method" ∷ ":authority" ∷ ":scheme" ∷ ":path" ∷ []);
    settings_order =
        header_table_size ∷ enable_push ∷ max_concurrent_streams ∷ initial_window_size
        ∷ max_header_list_size ∷ [];
    connection_flow = 15663105;
  }

  unfoldable pub chrome_110 : ClientProfile
  chrome_110 = record {
    client_hello_id = hello_chrome_110;
    header_priority = none;
    settings = some (
        (header_table_size, 65536)
        ∷ (enable_push, 0)
        ∷ (max_concurrent_streams, 1000)
        ∷ (initial_window_size, 6291456)
        ∷ (max_header_list_size, 262144)
        ∷ []);
    priorities = [];
    pseudo_header_order = some (":method" ∷ ":authority" ∷ ":scheme" ∷ ":path" ∷ []);
    settings_order =
        header_table_size ∷ enable_push ∷ max_concurrent_streams ∷ initial_window_size
        ∷ max_header_list_size ∷ [];
    connection_flow = 15663105;
  }

  unfoldable pub chrome_111 : ClientProfile
  chrome_111 = record {
    client_hello_id = hello_chrome_111;
    header_priority = none;
    settings = some (
        (header_table_size, 65536)
        ∷ (enable_push, 0)
        ∷ (max_concurrent_streams, 1000)
        ∷ (initial_window_size, 6291456)
        ∷ (max_header_list_size, 262144)
        ∷ []);
    priorities = [];
    pseudo_header_order = some (":method" ∷ ":authority" ∷ ":scheme" ∷ ":path" ∷ []);
    settings_order =
        header_table_size ∷ enable_push ∷ max_concurrent_streams ∷ initial_window_size
        ∷ max_header_list_size ∷ [];
    connection_flow = 15663105;
  }

  unfoldable pub chrome_112 : ClientProfile
  chrome_112 = record {
    client_hello_id = hello_chrome_112;
    header_priority = none;
    settings = some (
        (header_table_size, 65536)
        ∷ (enable_push, 0)
        ∷ (max_concurrent_streams, 1000)
        ∷ (initial_window_size, 6291456)
        ∷ (max_header_list_size, 262144)
        ∷ []);
    priorities = [];
    pseudo_header_order = some (":method" ∷ ":authority" ∷ ":scheme" ∷ ":path" ∷ []);
    settings_order =
        header_table_size ∷ enable_push ∷ max_concurrent_streams ∷ initial_window_size
        ∷ max_header_list_size ∷ [];
    connection_flow = 15663105;
  }
