-- ===== src/RoundTripper/Threads/Linear.antt =====
-- roundtripper.go as threads: how a step of a thread keeps up with whole calls.
use httpkit.Prelude.{
  ℕ, ◌+◌, ◌≤◌, ◌<◌, ◌≡◌, refl, sym, ap, subst, Bool, false, inl, inr, String, List, [], ◌∷◌, lookup,
  is_some, arith, Option-cases,
}
use httpkit.Pinner.{HpkpStorage}
use httpkit.Transport.{Transport}
use httpkit.TlsDial.{Protocols, RoundTripper, Answers, DialResult, dial_tls}
use httpkit.RoundTripper.{round_trip_request, get_transport, of_transport}
use httpkit.RoundTripper.Reach.{Reach, next, request, tls_dial}
use httpkit.RoundTripper.Threads.{Request, addr_of, putting, returned, dialed_tls, Shared, Pc}
use httpkit.RoundTripper.Threads.Counting.{total, Has, le-total, zero_cases, IsBeside}
use httpkit.RoundTripper.Threads.Locks.{in_dial, holds_transports}
use httpkit.RoundTripper.Threads.Facts.{IsFine, MayPut}
use httpkit.RoundTripper.Threads.NoPanic.{AllFine}
use httpkit.RoundTripper.Threads.Rest.{
  put_http, has_result, rest, Shape, outside, puts, enters, inside, leaves,
}
use httpkit.RoundTripper.Threads.Commute.{Commutes, rest-Commutes}

IsFine-of : (rt : RoundTripper) (ts : List Pc) (p : Pc) → AllFine rt ts → Has p ts → IsFine rt p
IsFine-of rt [] p f a = elim a [ ]
IsFine-of rt (q ∷ ts) p (f, fs) Has.first = f
IsFine-of rt (q ∷ ts) p (f, fs) (Has.rest a) = IsFine-of rt ts p fs a

-- What holds of the threads that a number tells, where it does not tell the one that stepped.
elsewhere :
    (P : Pc → Type 0) (f : Pc → ℕ) (p p' : Pc) (ts ts' : List Pc)
    → ((q : Pc) → Has q ts' → IsBeside p p' ts q)
    → f p' ≡ 0
    → ((q : Pc) → Has q ts → ((g : Pc → ℕ) → (g q + g p ≤ total g ts)) → 0 < f q → P q)
    → (q : Pc) → Has q ts'
    → 0 < f q
    → P q
elsewhere P f p p' ts ts' beside out other q a i = elim (beside q a) [
  | inl same ↦ let e = ap f same in absurd (omega arith)
  | inr (b, bound) ↦ other q b bound i
]

-- A thread inside `dialTLS`, or with the result of its dial.
abbrev pub dials : Pc → ℕ
dials q = in_dial q + has_result q

module _ (h : HpkpStorage) (pr : Protocols) (storage : h.Storage)
    (closes_idle : Transport → Bool) where
  -- The whole call of a plain HTTP request that finds no transport.
  plain_request :
      (s : RoundTripper) (r : Request)
      → MayPut s r
      → (round_trip_request h pr storage s r.answers r.url).0 ≡ put_http s r
  unfolding round_trip_request get_transport of_transport
  plain_request s r (http, f) = elim (Option-cases (lookup (addr_of r) s.cached_transports)) [
    | inl missing ↦ rw (missing, round_trip_request) (rw http refl)
    | inr (t, found) ↦ absurd (cc)
  ]

  -- What a whole dial returns, in a state that whole calls lead to.
  abbrev pub IsReturned : RoundTripper → DialResult → Type 0
  IsReturned from d =
      (s : RoundTripper) × (answers : Answers) × (network addr : String) × Reach h pr storage from s
      × (d ≡ (dial_tls h pr storage s answers network addr).1)

  -- A result that is there does not depend on the state any more.
  result_fixed :
      (rt rt' : RoundTripper) (q : Pc)
      → 0 < has_result q
      → (rest h pr storage closes_idle rt q).1 ≡ (rest h pr storage closes_idle rt' q).1
  unfolding rest
  result_fixed rt rt' (returned r d) e = refl
  result_fixed rt rt' (dialed_tls d) e = refl
  result_fixed rt rt' q e = absurd (omega arith)

  -- Outside `dialTLS` the state is one of whole calls; inside, it is one once the thread is out.
  pub record Linear (from : RoundTripper) (m : Shared) (ts : List Pc) : Type 0 where
    pub idle : total in_dial ts ≡ 0 → Reach h pr storage from m.rt
    pub busy :
        (q : Pc)
        → Has q ts
        → 0 < in_dial q
        → Reach h pr storage from (rest h pr storage closes_idle m.rt q).0
    pub results :
        (q : Pc) → Has q ts → 0 < dials q → IsReturned from (rest h pr storage closes_idle m.rt q).1

  module _ (from : RoundTripper) (m m' : Shared) (ts ts' : List Pc) (p p' : Pc)
      (linear : Linear from m ts) (has : Has p ts) (fine : AllFine m.rt ts)
      (few : total in_dial ts ≤ 1) (few' : total in_dial ts' ≤ 1)
      (held : total holds_transports ts ≤ 1)
      (sum : (f : Pc → ℕ) → (total f ts' + f p ≡ total f ts + f p'))
      (beside : (q : Pc) → Has q ts' → IsBeside p p' ts q) where
    abbrev left_by : RoundTripper → Pc → RoundTripper × DialResult
    left_by = rest h pr storage closes_idle

    abbrev IsWhole : RoundTripper → Type 0
    IsWhole = Reach h pr storage from

    abbrev Leaves : Pc → Type 0
    Leaves q = IsWhole (left_by m'.rt q).0

    abbrev Tells : Pc → Type 0
    Tells q = IsReturned from (left_by m'.rt q).1

    keeps_telling : (q : Pc) → Has q ts → in_dial q ≡ 0 → 0 < dials q → Tells q
    keeps_telling q b out i =
        subst (IsReturned from) (result_fixed m.rt m'.rt q (omega arith)) (linear.results q b i)

    outside-Linear :
        in_dial p ≡ 0 → in_dial p' ≡ 0 → has_result p' ≡ 0 → m'.rt ≡ m.rt → Linear from m' ts'
    outside-Linear a c n e = record {
      idle = λ nobody. subst IsWhole (sym e) (linear.idle (omega (arith, sum in_dial)));
      busy =
          elsewhere Leaves in_dial p p' ts ts' beside c
            (λ q b _ i. subst (λ s. IsWhole (left_by s q).0) (sym e) (linear.busy q b i));
      results =
          elsewhere Tells dials p p' ts ts' beside (omega arith) (λ q b _ i.
            subst (λ s. IsReturned from (left_by s q).1) (sym e) (linear.results q b i));
    }

    module _ (r : Request) (is : p ≡ putting r) (e : m'.rt ≡ put_http m.rt r) where
      may : MayPut m.rt r
      may = subst (IsFine m.rt) is (IsFine-of m.rt ts p fine has)

      unaffected :
          (q : Pc)
          → Has q ts
          → ((g : Pc → ℕ) → (g q + g p ≤ total g ts))
          → 0 < in_dial q
          → Commutes m.rt r (λ s. left_by s q)
      unaffected q b bound i =
          let holder : holds_transports p ≡ 1 = ap holds_transports is in
          rest-Commutes h pr storage closes_idle m.rt r q (IsFine-of m.rt ts q fine b) i
            (omega (arith, bound holds_transports, holder, held))

      put-Leaves :
          (q : Pc) → Has q ts → ((g : Pc → ℕ) → (g q + g p ≤ total g ts)) → 0 < in_dial q → Leaves q
      put-Leaves q b bound i =
          let (commutes, _, kept) = unaffected q b bound i in
          let then : MayPut (left_by m.rt q).0 r =
            (may.0, subst (λ x. is_some (lookup (addr_of r) x) ≡ false) (sym kept) may.1) in
          subst (λ x. IsWhole (left_by x q).0) (sym e)
            (subst IsWhole (sym commutes) (
              subst IsWhole (plain_request (left_by m.rt q).0 r then)
                (next (linear.busy q b i) (request r.answers r.url))))

      put-Tells :
          (q : Pc) → Has q ts → ((g : Pc → ℕ) → (g q + g p ≤ total g ts)) → 0 < dials q → Tells q
      put-Tells q b bound i = elim (zero_cases (in_dial q)) [
        | inl out ↦ keeps_telling q b out i
        | inr busy ↦
            let (_, same, _) = unaffected q b bound busy in
            subst (λ x. IsReturned from (left_by x q).1) (sym e)
              (subst (IsReturned from) (sym same) (linear.results q b i))
      ]

      puts-Linear : in_dial p' ≡ 0 → has_result p' ≡ 0 → Linear from m' ts'
      puts-Linear c n =
          let out : in_dial p ≡ 0 = ap in_dial is in
          record {
            idle = λ nobody. subst IsWhole (sym e) (
                subst IsWhole (plain_request m.rt r may)
                  (next (linear.idle (omega (arith, sum in_dial))) (request r.answers r.url)));
            busy = elsewhere Leaves in_dial p p' ts ts' beside c put-Leaves;
            results = elsewhere Tells dials p p' ts ts' beside (omega arith) put-Tells;
          }

    pub Shape-Linear : Shape h pr storage closes_idle m p m' p' → Linear from m' ts'
    Shape-Linear (outside a c n e) = outside-Linear a c n e
    Shape-Linear (puts r is c n e) = puts-Linear r is e c n
    Shape-Linear (enters answers network addr a c e same) =
        let nobody : total in_dial ts ≡ 0 = omega (arith, sum in_dial) in
        record {
          idle = λ quiet. absurd (omega (arith, sum in_dial));
          busy = λ q b i. elim (beside q b) [
            | inl is ↦ subst Leaves (sym is) (
                subst IsWhole (ap (λ x. x.0) (sym same))
                  (next (linear.idle nobody) (tls_dial answers network addr)))
            | inr (d, _) ↦ absurd (omega (arith, le-total in_dial d))
          ];
          results = λ q b i. elim (beside q b) [
            | inl is ↦
                subst Tells (sym is)
                  (m.rt, answers, network, addr, linear.idle nobody, ap (λ x. x.1) same)
            | inr (d, _) ↦ keeps_telling q d (omega (arith, le-total in_dial d)) i
          ];
        }
    Shape-Linear (inside a c same) = record {
      idle = λ quiet. absurd (omega (arith, sum in_dial, le-total in_dial has));
      busy = λ q b i. elim (beside q b) [
        | inl is ↦
            subst Leaves (sym is)
              (subst IsWhole (ap (λ x. x.0) (sym same)) (linear.busy p has (omega arith)))
        | inr (d, bound) ↦ absurd (omega (arith, bound in_dial))
      ];
      results = λ q b i. elim (beside q b) [
        | inl is ↦ subst Tells (sym is) (
            subst (IsReturned from) (ap (λ x. x.1) (sym same)) (linear.results p has (omega arith)))
        | inr (d, bound) ↦ keeps_telling q d (omega (arith, bound in_dial)) i
      ];
    }
    Shape-Linear (leaves a c e told) = record {
      idle = λ _. subst IsWhole (sym e) (linear.busy p has (omega arith));
      busy =
          elsewhere Leaves in_dial p p' ts ts' beside c
            (λ q b bound i. absurd (omega (arith, bound in_dial)));
      results = λ q b i. elim (beside q b) [
        | inl is ↦
            subst Tells (sym is)
              (subst (IsReturned from) (sym told) (linear.results p has (omega arith)))
        | inr (d, bound) ↦ keeps_telling q d (omega (arith, bound in_dial)) i
      ];
    }
