-- ===== src/Profiles/FirefoxPresets.antt =====
-- profiles/internal_browser_profiles.go: the profiles of the presets Firefox 106 to 110.
use httpkit.Prelude.{[], ◌∷◌, some, false}
use httpkit.Tls.{header_table_size, initial_window_size, max_frame_size}
use httpkit.Profiles.{ClientProfile}
use httpkit.Profiles.Constants.{Constants}

module _ (c : Constants) where
  open c use {hello_firefox_106, hello_firefox_108, hello_firefox_110}

  unfoldable pub firefox_106 : ClientProfile
  firefox_106 = record {
    client_hello_id = hello_firefox_106;
    header_priority = some (record { stream_dep = 13; exclusive = false; weight = 41 });
    settings =
        some (
          (header_table_size, 65536)
          ∷ (initial_window_size, 131072)
          ∷ (max_frame_size, 16384)
          ∷ []);
    priorities =
        (record {
          stream_id = 3;
          priority_param = record { stream_dep = 0; exclusive = false; weight = 200 };
        })
        ∷ (record {
          stream_id = 5;
          priority_param = record { stream_dep = 0; exclusive = false; weight = 100 };
        })
        ∷ (record {
          stream_id = 7;
          priority_param = record { stream_dep = 0; exclusive = false; weight = 0 };
        })
        ∷ (record {
          stream_id = 9;
          priority_param = record { stream_dep = 7; exclusive = false; weight = 0 };
        })
        ∷ (record {
          stream_id = 11;
          priority_param = record { stream_dep = 3; exclusive = false; weight = 0 };
        })
        ∷ (record {
          stream_id = 13;
          priority_param = record { stream_dep = 0; exclusive = false; weight = 240 };
        })
        ∷ [];
    pseudo_header_order = some (":method" ∷ ":path" ∷ ":authority" ∷ ":scheme" ∷ []);
    settings_order = header_table_size ∷ initial_window_size ∷ max_frame_size ∷ [];
    connection_flow = 12517377;
  }

  unfoldable pub firefox_108 : ClientProfile
  firefox_108 = record {
    client_hello_id = hello_firefox_108;
    header_priority = some (record { stream_dep = 13; exclusive = false; weight = 41 });
    settings =
        some (
          (header_table_size, 65536)
          ∷ (initial_window_size, 131072)
          ∷ (max_frame_size, 16384)
          ∷ []);
    priorities =
        (record {
          stream_id = 3;
          priority_param = record { stream_dep = 0; exclusive = false; weight = 200 };
        })
        ∷ (record {
          stream_id = 5;
          priority_param = record { stream_dep = 0; exclusive = false; weight = 100 };
        })
        ∷ (record {
          stream_id = 7;
          priority_param = record { stream_dep = 0; exclusive = false; weight = 0 };
        })
        ∷ (record {
          stream_id = 9;
          priority_param = record { stream_dep = 7; exclusive = false; weight = 0 };
        })
        ∷ (record {
          stream_id = 11;
          priority_param = record { stream_dep = 3; exclusive = false; weight = 0 };
        })
        ∷ (record {
          stream_id = 13;
          priority_param = record { stream_dep = 0; exclusive = false; weight = 240 };
        })
        ∷ [];
    pseudo_header_order = some (":method" ∷ ":path" ∷ ":authority" ∷ ":scheme" ∷ []);
    settings_order = header_table_size ∷ initial_window_size ∷ max_frame_size ∷ [];
    connection_flow = 12517377;
  }

  unfoldable pub firefox_110 : ClientProfile
  firefox_110 = record {
    client_hello_id = hello_firefox_110;
    header_priority = some (record { stream_dep = 13; exclusive = false; weight = 41 });
    settings =
        some (
          (header_table_size, 65536)
          ∷ (initial_window_size, 131072)
          ∷ (max_frame_size, 16384)
          ∷ []);
    priorities =
        (record {
          stream_id = 3;
          priority_param = record { stream_dep = 0; exclusive = false; weight = 200 };
        })
        ∷ (record {
          stream_id = 5;
          priority_param = record { stream_dep = 0; exclusive = false; weight = 100 };
        })
        ∷ (record {
          stream_id = 7;
          priority_param = record { stream_dep = 0; exclusive = false; weight = 0 };
        })
        ∷ (record {
          stream_id = 9;
          priority_param = record { stream_dep = 7; exclusive = false; weight = 0 };
        })
        ∷ (record {
          stream_id = 11;
          priority_param = record { stream_dep = 3; exclusive = false; weight = 0 };
        })
        ∷ (record {
          stream_id = 13;
          priority_param = record { stream_dep = 0; exclusive = false; weight = 240 };
        })
        ∷ [];
    pseudo_header_order = some (":method" ∷ ":path" ∷ ":authority" ∷ ":scheme" ∷ []);
    settings_order = header_table_size ∷ initial_window_size ∷ max_frame_size ∷ [];
    connection_flow = 12517377;
  }
