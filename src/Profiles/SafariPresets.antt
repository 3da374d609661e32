-- ===== src/Profiles/SafariPresets.antt =====
-- profiles/internal_browser_profiles.go: the profiles of the Safari presets.
use httpkit.Prelude.{[], ◌∷◌, some, none}
use httpkit.Tls.{initial_window_size, max_concurrent_streams}
use httpkit.Profiles.{ClientProfile}
use httpkit.Profiles.Constants.{Constants}

module _ (c : Constants) where
  open c use {
    hello_ios_15_5, hello_ios_15_6, hello_ios_16_0, hello_ipad_15_6, hello_safari_15_6_1,
    hello_safari_16_0,
  }

  unfoldable pub safari_15_6_1 : ClientProfile
  safari_15_6_1 = record {
    client_hello_id = hello_safari_15_6_1;
    header_priority = none;
    settings = some ((initial_window_size, 4194304) ∷ (max_concurrent_streams, 100) ∷ []);
    priorities = [];
    pseudo_header_order = some (":method" ∷ ":scheme" ∷ ":path" ∷ ":authority" ∷ []);
    settings_order = initial_window_size ∷ max_concurrent_streams ∷ [];
    connection_flow = 10485760;
  }

  unfoldable pub safari_16_0 : ClientProfile
  safari_16_0 = record {
    client_hello_id = hello_safari_16_0;
    header_priority = none;
    settings = some ((initial_window_size, 4194304) ∷ (max_concurrent_streams, 100) ∷ []);
    priorities = [];
    pseudo_header_order = some (":method" ∷ ":scheme" ∷ ":path" ∷ ":authority" ∷ []);
    settings_order = initial_window_size ∷ max_concurrent_streams ∷ [];
    connection_flow = 10485760;
  }

  unfoldable pub safari_ipad_15_6 : ClientProfile
  safari_ipad_15_6 = record {
    client_hello_id = hello_ipad_15_6;
    header_priority = none;
    settings = some ((initial_window_size, 2097152) ∷ (max_concurrent_streams, 100) ∷ []);
    priorities = [];
    pseudo_header_order = some (":method" ∷ ":scheme" ∷ ":path" ∷ ":authority" ∷ []);
    settings_order = initial_window_size ∷ max_concurrent_streams ∷ [];
    connection_flow = 10485760;
  }

  unfoldable pub safari_ios_15_5 : ClientProfile
  safari_ios_15_5 = record {
    client_hello_id = hello_ios_15_5;
    header_priority = none;
    settings = some ((initial_window_size, 2097152) ∷ (max_concurrent_streams, 100) ∷ []);
    priorities = [];
    pseudo_header_order = some (":method" ∷ ":scheme" ∷ ":path" ∷ ":authority" ∷ []);
    settings_order = initial_window_size ∷ max_concurrent_streams ∷ [];
    connection_flow = 10485760;
  }

  unfoldable pub safari_ios_15_6 : ClientProfile
  safari_ios_15_6 = record {
    client_hello_id = hello_ios_15_6;
    header_priority = none;
    settings = some ((initial_window_size, 2097152) ∷ (max_concurrent_streams, 100) ∷ []);
    priorities = [];
    pseudo_header_order = some (":method" ∷ ":scheme" ∷ ":path" ∷ ":authority" ∷ []);
    settings_order = initial_window_size ∷ max_concurrent_streams ∷ [];
    connection_flow = 10485760;
  }

  unfoldable pub safari_ios_16_0 : ClientProfile
  safari_ios_16_0 = record {
    client_hello_id = hello_ios_16_0;
    header_priority = none;
    settings = some ((initial_window_size, 2097152) ∷ (max_concurrent_streams, 100) ∷ []);
    priorities = [];
    pseudo_header_order = some (":method" ∷ ":scheme" ∷ ":path" ∷ ":authority" ∷ []);
    settings_order = initial_window_size ∷ max_concurrent_streams ∷ [];
    connection_flow = 10485760;
  }
