-- ===== src/RoundTripper/Threads/Tests.antt =====
-- roundtripper.go as threads at a concrete client: the theorems' instances.
use httpkit.Prelude.{◌≤◌, ◌≡◌, refl, List, [], ◌∷◌, none, some, true, lookup, put, ◌==◌}
use httpkit.Pinner.{init, pin}
use httpkit.Pinner.Sample.{mem_storage, has_pin}
use httpkit.Text.{to_lower}
use httpkit.TlsDial.{u_client, conn, dial_tls}
use httpkit.TlsDial.Invariant.{IsStashed}
use httpkit.RoundTripper.{new_round_tripper, round_trip_request, get_transport, get_dial_tls_addr}
use httpkit.RoundTripper.Reach.{Reach}
use httpkit.RoundTripper.Tests.{
  protocols, stored_pins, rt0, rt1, stashed, answers, https_url, http_url, rt0-IsNew,
  nothing_cached,
}
use httpkit.RoundTripper.Threads.{
  Request, Shared, Pc, entering, checking, dialing, transport, finished, dialed_tls, move, Run,
  start, later, here,
}
use httpkit.RoundTripper.Threads.Counting.{total, first}
use httpkit.RoundTripper.Threads.Locks.{holds_transports, in_dial}
use httpkit.RoundTripper.Threads.Progress.{is_running, IsFresh, Run-exclusive}
use httpkit.RoundTripper.Threads.NoPanic.{
  no_thread, a_request, IsStart, IsCalm, Run-IsCalm, Run-Ended,
}
use httpkit.RoundTripper.Threads.Alone.{free, held, Alone, round_trip_request-Alone}
use httpkit.RoundTripper.Threads.Atomic.{Run-Reach, Run-pinned}
use httpkit.RoundTripper.Threads.Race.{writes_transports, reads_transports, Run-race}

abbrev over_https : Request
over_https = record { url = https_url; answers = answers; later = some answers }

abbrev over_http : Request
over_http = record { url = http_url; answers = answers; later = none }

abbrev threads : List Pc
threads = entering over_https ∷ entering over_http ∷ []

abbrev one_step : List Pc
one_step = checking over_https ∷ entering over_http ∷ []

-- The first request has the lock of the transports, and the second waits for it.
run : Run mem_storage protocols stored_pins (λ _. true) (free rt0) threads (held rt0) one_step
unfolding move
run = later start (here refl)

begun : IsStart (free rt0) threads
begun = record {
  new = rt0-IsNew;
  transports_unlocked = refl;
  unlocked = refl;
  threads = a_request over_https (a_request over_http no_thread);
}

fresh : IsFresh (free rt0) threads
unfolding total
fresh = record {
  transports_unlocked = refl;
  unlocked = refl;
  outside_transports = refl;
  outside_dial = refl;
}

rt0-IsStashed : IsStashed rt0
unfolding new_round_tripper lookup
rt0-IsStashed addr k = cc

http_scheme : (to_lower http_url.scheme == "http") ≡ true
unfolding to_lower
http_scheme = refl

nothing_stashed : lookup "shop.com:443" rt0.cached_connections ≡ none
unfolding new_round_tripper lookup
nothing_stashed = refl

pinned :
    pin mem_storage stored_pins rt0.certificate_pins
      (u_client rt0 answers 5 "shop.com:443").config.server_name
      (u_client rt0 answers 5 "shop.com:443").connection_state.peer_fingerprints
    ≡ none
unfolding new_round_tripper init pin has_pin lookup put u_client
pinned = refl

-- After the request, its transport dials and gets the stashed connection.
abbrev dialed : Pc
dialed = dialed_tls (conn stashed)

served :
    Run mem_storage protocols stored_pins
      (λ _. true)
      (free rt0)
      (entering over_https ∷ [])
      (free (dial_tls mem_storage protocols stored_pins rt1 answers "tcp" "shop.com:443").0)
      (dialed ∷ [])
unfolding move round_trip_request get_transport dial_tls new_round_tripper init pin has_pin lookup
    put to_lower get_dial_tls_addr
served =
    later
      (later
        (later
          (later
            (later
              (later
                (later
                  (later
                    (later
                      (later
                        (later
                          (later (later (later (later start (here refl)) (here refl)) (here refl))
                            (here refl))
                          (here refl))
                        (here refl))
                      (here refl))
                    (here refl))
                  (here refl))
                (here refl))
              (here refl))
            (here refl))
          (here refl))
        (here refl))
      (here refl)

alone : IsStart (free rt0) (entering over_https ∷ [])
alone = record {
  new = rt0-IsNew;
  transports_unlocked = refl;
  unlocked = refl;
  threads = a_request over_https no_thread;
}

Run-exclusive_example : (total in_dial one_step ≤ 1) × (total holds_transports one_step ≤ 1)
Run-exclusive_example = Run-exclusive mem_storage protocols stored_pins (λ _. true) fresh run

Run-IsCalm_example : IsCalm dialed
Run-IsCalm_example =
    Run-IsCalm mem_storage protocols stored_pins (λ _. true) dialed alone served first

Run-Ended_example :
    (m : Shared) × (ts : List Pc) × Run mem_storage protocols stored_pins
      (λ _. true)
      (held rt0)
      one_step
      m
      ts
    × (total is_running ts ≡ 0)
Run-Ended_example = Run-Ended mem_storage protocols stored_pins (λ _. true) begun run

Run-pinned_example :
    pin mem_storage stored_pins rt0.certificate_pins stashed.config.server_name
      stashed.connection_state.peer_fingerprints
    ≡ none
Run-pinned_example =
    Run-pinned mem_storage protocols stored_pins (λ _. true) stashed alone served first

Run-Reach_example :
    Reach mem_storage protocols stored_pins rt0
      (dial_tls mem_storage protocols stored_pins rt1 answers "tcp" "shop.com:443").0
Run-Reach_example = Run-Reach mem_storage protocols stored_pins (λ _. true) alone served refl

round_trip_request-Alone_example :
    let x = round_trip_request mem_storage protocols stored_pins rt0 answers http_url in
    Alone mem_storage protocols stored_pins
      (λ _. true)
      (free rt0)
      (entering over_http)
      (free x.0)
      (finished x.1)
round_trip_request-Alone_example =
    round_trip_request-Alone mem_storage protocols stored_pins (λ _. true) rt0 over_http
      rt0-IsStashed refl

Run-race_example :
    (m : Shared) × (p q : Pc) × Run mem_storage protocols stored_pins
      (λ _. true)
      (free rt0)
      (entering over_http ∷ dialing transport answers "tcp" "shop.com:443" ∷ [])
      m
      (p ∷ q ∷ [])
    × (writes_transports p ≡ true)
    × (reads_transports q ≡ true)
Run-race_example =
    Run-race mem_storage protocols stored_pins (λ _. true) rt0 over_http answers "tcp"
      "shop.com:443" 5 nothing_cached http_scheme nothing_stashed refl refl pinned
