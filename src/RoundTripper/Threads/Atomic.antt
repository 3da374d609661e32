-- ===== src/RoundTripper/Threads/Atomic.antt =====
-- roundtripper.go as threads: an interleaving has the effect of whole calls, one after the other.
use httpkit.Prelude.{◌≡◌, refl, sym, subst, Bool, false, List, [], ◌∷◌, none, arith}
use httpkit.Pinner.{HpkpStorage, pin}
use httpkit.Transport.{Transport}
use httpkit.TlsDial.{Protocols, Conn, DialResult, conn}
use httpkit.RoundTripper.Reach.{Reach}
use httpkit.RoundTripper.NoPanic.{dial_tls-pinned}
use httpkit.RoundTripper.Threads.{dialed_tls, Shared, Pc, Run, start, later}
use httpkit.RoundTripper.Threads.Counting.{total, Has, le-total, stepped}
use httpkit.RoundTripper.Threads.Locks.{in_dial, bit}
use httpkit.RoundTripper.Threads.Invariant.{Run-Inv}
use httpkit.RoundTripper.Threads.Progress.{Inv-of_fresh, Run-exclusive}
use httpkit.RoundTripper.Threads.NoPanic.{
  AreStarts, no_thread, a_request, a_close, IsStart, fresh, Run-AllFine,
}
use httpkit.RoundTripper.Threads.Rest.{rest, AllShape, move-AllShape}
use httpkit.RoundTripper.Threads.Linear.{dials, IsReturned, Linear, Shape-Linear}

starts_silent : (ts : List Pc) → AreStarts ts → (q : Pc) → Has q ts → dials q ≡ 0
starts_silent [] no_thread q a = elim a [ ]
starts_silent (p ∷ ts) (a_request r s) q Has.first = refl
starts_silent (p ∷ ts) (a_request r s) q (Has.rest a) = starts_silent ts s q a
starts_silent (p ∷ ts) (a_close s) q Has.first = refl
starts_silent (p ∷ ts) (a_close s) q (Has.rest a) = starts_silent ts s q a

module _ (h : HpkpStorage) (pr : Protocols) (storage : h.Storage)
    (closes_idle : Transport → Bool) where
  Run-Linear :
      {m : Shared} {ts : List Pc} {m' : Shared} {ts' : List Pc}
      → IsStart m ts
      → Run h pr storage closes_idle m ts m' ts'
      → Linear h pr storage closes_idle m.rt m' ts'
  Run-Linear {m} {ts} i start = record {
    idle = λ _. Reach.here;
    busy = λ q a in_it.
        let nobody = (fresh h pr storage closes_idle i).outside_dial in
        absurd (omega (arith, le-total in_dial a, nobody));
    results = λ q a told. let silent = starts_silent ts i.threads q a in absurd (omega arith);
  }
  Run-Linear {m} i (later {m'} {m''} {ts'} {ts''} r st) =
      let (p, p', e, has, sum, beside) = stepped h pr storage closes_idle st in
      let before = Run-exclusive h pr storage closes_idle (fresh h pr storage closes_idle i) r in
      let after =
        Run-exclusive h pr storage closes_idle (fresh h pr storage closes_idle i) (later r st) in
      Shape-Linear h pr storage closes_idle m.rt m' m'' ts' ts'' p p' (Run-Linear i r) has
        (Run-AllFine h pr storage closes_idle i r).1 before.0 after.0 before.1 sum beside
        (subst (AllShape h pr storage closes_idle m' p) e
          (move-AllShape h pr storage closes_idle m' p))

  -- However the requests and the calls of CloseIdleConnections of a new round tripper interleave,
  -- where a transport dials only the address of its own request, whenever no thread is inside
  -- `dialTLS` the round tripper is in a state that whole calls lead to, one after the other.
  pub Run-Reach :
      {m : Shared} {ts : List Pc} {m' : Shared} {ts' : List Pc}
      → IsStart m ts
      → Run h pr storage closes_idle m ts m' ts'
      → m'.locked ≡ false
      → Reach h pr storage m.rt m'.rt
  Run-Reach {ts' = ts'} i r unlocked =
      let inv =
        Run-Inv h pr storage closes_idle
          (Inv-of_fresh h pr storage closes_idle (fresh h pr storage closes_idle i)) r in
      (Run-Linear i r).idle (subst (λ b. total in_dial ts' ≡ bit b) unlocked inv.dial)

  -- What a transport's dial returns is what a whole `dialTLS` returns in a state that whole calls
  -- lead to, however the threads interleave.
  pub Run-IsReturned :
      {m : Shared} {ts : List Pc} {m' : Shared} {ts' : List Pc} (d : DialResult)
      → IsStart m ts
      → Run h pr storage closes_idle m ts m' ts'
      → Has (dialed_tls d) ts'
      → IsReturned h pr storage closes_idle m.rt d
  unfolding rest
  Run-IsReturned d i r a = (Run-Linear i r).results (dialed_tls d) a (omega arith)

  -- However the requests and the calls of CloseIdleConnections of a new round tripper interleave,
  -- where a transport dials only the address of its own request, with a storage of pins that does not
  -- change, a connection that `dialTLS` gives to a transport has passed the pins.
  pub Run-pinned :
      {m : Shared} {ts : List Pc} {m' : Shared} {ts' : List Pc} (c : Conn)
      → IsStart m ts
      → Run h pr storage closes_idle m ts m' ts'
      → Has (dialed_tls (conn c)) ts'
      → pin h storage m.rt.certificate_pins c.config.server_name
          c.connection_state.peer_fingerprints
        ≡ none
  Run-pinned {m} c i r a =
      let (s, answers, network, addr, reached, told) = Run-IsReturned (conn c) i r a in
      dial_tls-pinned h pr storage m.rt s answers network addr c i.new reached (sym told)
