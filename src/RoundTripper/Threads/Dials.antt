-- ===== src/RoundTripper/Threads/Dials.antt =====
-- roundtripper.go as threads: what the steps of `dialTLS` do for the other threads.
use httpkit.Prelude.{
  ℕ, ◌≡◌, refl, Bool, true, String, [], ◌∷◌, ◌++◌, Option, none, some, lookup, put, lookup-put,
  lookup-remove, eq_iff, subst, arith, if◌then◌else◌,
}
use httpkit.Pinner.{HpkpStorage, PinError}
use httpkit.Transport.{Transport}
use httpkit.TlsDial.{
  Protocols, RoundTripper, Answers, Conn, conn, Error, error, protocol_negotiated, bad_pin,
  dial_failed, handshake_failed, invalid_url_scheme, Dialed, connected, refused, closed,
}
use httpkit.TlsDial.Invariant.{IsStashed}
use httpkit.RoundTripper.Threads.{
  with_rt, after_looking, after_pin, after_handshake, after_connecting, Caller, request, transport,
  Shared, looking, connecting, building, stashing, unlocking,
}
use httpkit.RoundTripper.Threads.Facts.{
  has_transport, MayDial, MayBuild, MayStash, IsServed, IsFine,
}
use httpkit.RoundTripper.Threads.Good.{Good, quiet, adds}

module _ (h : HpkpStorage) (pr : Protocols) (storage : h.Storage)
    (closes_idle : Transport → Bool) where
  pub looking-Good :
      (m : Shared) (caller : Caller) (answers : Answers) (network addr : String) (o : Option Conn)
      → IsStashed m.rt
      → MayDial m.rt caller addr
      → lookup addr m.rt.cached_connections ≡ o
      → let r = after_looking h pr storage closes_idle m caller answers network addr o in
        Good m (looking caller answers network addr) r.0 r.1
  unfolding after_looking
  looking-Good m (request r) answers network addr (some c) s (e, f) k =
      let q = s addr (rw k refl) in absurd (cc)
  looking-Good m transport answers network addr (some c) s f k = record {
    stashed = λ a q. s a (ground (arith, lookup-remove addr a m.rt.cached_connections));
    fine = tt;
    grows = record { kept = λ a q. q; same = λ q. refl };
  }
  looking-Good m (request r) answers network addr none s f k =
      quiet h pr storage closes_idle m _ _ _ s refl refl f
  looking-Good m transport answers network addr none s f k =
      quiet h pr storage closes_idle m _ _ _ s refl refl f

  -- An error other than "protocol negotiated".
  unlocking-IsFine :
      (rt : RoundTripper) (caller : Caller) (addr : String) (e : Error)
      → IsServed (error e)
      → IsFine rt (unlocking caller addr (error e))
  unlocking-IsFine rt (request r) addr (bad_pin _) f = tt
  unlocking-IsFine rt (request r) addr (dial_failed _) f = tt
  unlocking-IsFine rt (request r) addr (handshake_failed _) f = tt
  unlocking-IsFine rt (request r) addr (invalid_url_scheme _) f = tt
  unlocking-IsFine rt (request r) addr protocol_negotiated f = elim f [ ]
  unlocking-IsFine rt transport addr e f = f

  module _ (m : Shared) (caller : Caller) (answers : Answers) (network addr : String)
      (s : IsStashed m.rt) (f : MayDial m.rt caller addr) where
    after_pin-Good :
        (c : Conn) (e : Option PinError)
        → Good m
            (connecting caller answers network addr)
            m
            (after_pin h pr storage closes_idle caller answers addr c e)
    unfolding after_pin
    after_pin-Good c none = quiet h pr storage closes_idle m m _ _ s refl refl f
    after_pin-Good c (some e) =
        quiet h pr storage closes_idle m m _ _ s refl refl (unlocking-IsFine m.rt caller addr _ tt)

    after_handshake-Good :
        (c : Conn) (e : Option ℕ)
        → let r = after_handshake h pr storage closes_idle m caller answers addr c e in
          Good m (connecting caller answers network addr) r.0 r.1
    unfolding after_handshake
    after_handshake-Good c none = after_pin-Good c _
    after_handshake-Good c (some e) = quiet h pr storage closes_idle m _ _ _ s refl refl (
        unlocking-IsFine (record m.rt { trace = m.rt.trace ++ closed c.raw ∷ [] }) caller addr _ tt)

    pub connecting-Good :
        (d : Dialed)
        → let r = after_connecting h pr storage closes_idle m caller answers addr d in
          Good m (connecting caller answers network addr) r.0 r.1
    unfolding after_connecting
    connecting-Good (refused e) =
        quiet h pr storage closes_idle m m _ _ s refl refl (unlocking-IsFine m.rt caller addr _ tt)
    connecting-Good (connected n) = after_handshake-Good _ answers.handshake_error

  pub testing-IsFine :
      (rt : RoundTripper) (caller : Caller) (answers : Answers) (addr : String) (c : Conn)
      → MayDial rt caller addr
      → IsFine rt (
          if has_transport rt addr
          then unlocking caller addr (conn c)
          else building caller answers addr c)
  testing-IsFine rt (request r) answers addr c (e, f) = rw f (e, f)
  testing-IsFine rt transport answers addr c f = rw f tt

  pub building-Good :
      (m : Shared) (caller : Caller) (answers : Answers) (addr : String) (c : Conn) (t : Transport)
      → IsStashed m.rt
      → MayBuild m.rt caller addr
      → Good m
          (building caller answers addr c)
          (with_rt m (record m.rt { cached_transports = put addr t m.rt.cached_transports }))
          (stashing caller answers addr c)
  building-Good m (request r) answers addr c t s (e, f) =
      adds h pr storage closes_idle m _ _ addr t refl s (λ k. (e, k))
  building-Good m transport answers addr c t s f = elim f [ ]

  pub stashing-Good :
      (m : Shared) (caller : Caller) (answers : Answers) (addr : String) (c : Conn)
      → IsStashed m.rt
      → MayStash m.rt caller addr
      → Good m
          (stashing caller answers addr c)
          (with_rt m (record m.rt { cached_connections = put addr c m.rt.cached_connections }))
          (unlocking caller addr (error protocol_negotiated))
  stashing-Good m (request r) answers addr c s (e, f) = record {
    stashed =
        λ a k. ground (arith, s a, eq_iff addr a, lookup-put addr a c m.rt.cached_connections);
    fine = subst (λ a. has_transport m.rt a ≡ true) e f;
    grows = record { kept = λ a k. k; same = λ k. refl };
  }
  stashing-Good m transport answers addr c s f = elim f [ ]
