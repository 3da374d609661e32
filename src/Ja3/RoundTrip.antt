-- ===== src/Ja3/RoundTrip.antt =====
-- ja3.go, stringToSpec: what is read back from a JA3 string that was written from numbers.
use httpkit.Prelude.{
  ℕ, ◌^◌, ◌<◌, ◌≡◌, refl, String, Char, List, [], ◌∷◌, map, Option, some, arith, All, eq_iff,
  if◌then◌else◌, eqb,
}
use httpkit.Text.{
  split, IsFree, join, split-join, join-IsFree, decimal, decimal-IsFree, decimal-ne,
  parse_uint-decimal,
}
use httpkit.Tls.{TlsIds, TlsExtension, grease}
use httpkit.Ja3.{
  ok, Ja3Lists, map_all, parse_number, map_extension, ExtMap, ext_lookup, ext_map, drop_empty,
  string_to_spec,
}

abbrev comma : Char
comma = Char.char b',' tt

abbrev dash : Char
dash = Char.char b'-' tt

abbrev pub Below : ℕ → List ℕ → Type 0
Below top ns = All (λ n. n < top) ns

-- Numbers in decimal, joined by dashes.
unfoldable pub render_part : List ℕ → String
render_part ns = join dash (map decimal ns)

-- The version, the ciphers, the extensions, the curves and the point formats.
unfoldable pub render : ℕ → List ℕ → List ℕ → List ℕ → List ℕ → String
unfolding render_part
render version ciphers extensions curves points = join comma (
    decimal version
    ∷ render_part ciphers
    ∷ render_part extensions
    ∷ render_part curves
    ∷ render_part points
    ∷ [])

-- What an extension's number stands for: GREASE, or an entry of the map.
unfoldable pub extension_of : TlsIds → ExtMap → ℕ → Option TlsExtension
extension_of ids m id = if eqb id ids.grease_placeholder then some grease else ext_lookup id m

decimals-IsFree : (sep : ℕ) (ns : List ℕ) → sep < 48 → All (IsFree sep) (map decimal ns)
decimals-IsFree sep [] h = tt
decimals-IsFree sep (n ∷ ns) h = (decimal-IsFree sep n h, decimals-IsFree sep ns h)

render_part-IsFree : (ns : List ℕ) → IsFree b',' (render_part ns)
unfolding render_part
render_part-IsFree ns =
    join-IsFree b',' dash (map decimal ns) (omega arith) (decimals-IsFree b',' ns (omega arith))

split-render_part : (n : ℕ) (ns : List ℕ) → split b'-' (render_part (n ∷ ns)) ≡ map decimal (n ∷ ns)
unfolding render_part
split-render_part n ns =
    split-join dash (decimal n) (map decimal ns) (decimals-IsFree b'-' (n ∷ ns) (omega arith))

split-render :
    (v : ℕ) (cs es qs ps : List ℕ)
    → split b',' (render v cs es qs ps)
      ≡ decimal v ∷ render_part cs ∷ render_part es ∷ render_part qs ∷ render_part ps ∷ []
unfolding render
split-render v cs es qs ps =
    split-join comma (decimal v)
      (render_part cs ∷ render_part es ∷ render_part qs ∷ render_part ps ∷ [])
      (
        decimal-IsFree b',' v (omega arith),
        (
          render_part-IsFree cs,
          (render_part-IsFree es, (render_part-IsFree qs, (render_part-IsFree ps, tt))),
        ),
      )

drop_empty-decimals :
    (n : ℕ) (ns : List ℕ) → drop_empty (map decimal (n ∷ ns)) ≡ map decimal (n ∷ ns)
drop_empty-decimals n [] = ground (arith, decimal-ne n, eq_iff (decimal n) "")
drop_empty-decimals n (m ∷ ns) = refl

drop_empty-render_part : (ns : List ℕ) → drop_empty (split b'-' (render_part ns)) ≡ map decimal ns
drop_empty-render_part [] = unfold render_part in unfold join in unfold split in refl
drop_empty-render_part (n ∷ ns) = rw (split-render_part n ns) (drop_empty-decimals n ns)

parse_number-decimal :
    (bits n : ℕ) → n < 2 ^ bits → 2 ^ bits < 10 ^ 5 → parse_number bits (decimal n) ≡ ok n
unfolding parse_number
parse_number-decimal bits n h k = rw (parse_uint-decimal bits n (omega arith) h) refl

map_all-decimals :
    (bits : ℕ) (ns : List ℕ)
    → Below (2 ^ bits) ns
    → 2 ^ bits < 10 ^ 5
    → map_all (parse_number bits) (map decimal ns) ≡ ok ns
unfolding map_all
map_all-decimals bits [] h k = refl
map_all-decimals bits (n ∷ ns) (p, h) k =
    rw (parse_number-decimal bits n p k) (rw (map_all-decimals bits ns h k) refl)

map_extension-decimal :
    (ids : TlsIds) (m : ExtMap) (n : ℕ) (e : TlsExtension)
    → n < 2 ^ 16
    → extension_of ids m n ≡ some e
    → map_extension ids m (decimal n) ≡ ok e
unfolding map_extension extension_of
map_extension-decimal ids m n e h k = rw (parse_number-decimal 16 n h (omega arith)) (ground arith)

map_all-extensions :
    (ids : TlsIds) (m : ExtMap) (ns : List ℕ) (es : List TlsExtension)
    → Below (2 ^ 16) ns
    → map (extension_of ids m) ns ≡ map some es
    → map_all (map_extension ids m) (map decimal ns) ≡ ok es
unfolding map_all
map_all-extensions ids m [] [] h k = refl
map_all-extensions ids m [] (e ∷ es) h k = cc
map_all-extensions ids m (n ∷ ns) [] h k = cc
map_all-extensions ids m (n ∷ ns) (e ∷ es) (p, h) k =
    rw (map_extension-decimal ids m n e p (ground arith))
      (rw (map_all-extensions ids m ns es h (ground arith)) refl)

-- A JA3 string written from numbers in range, with at least one cipher and one extension, all
-- extensions known, gives back its ciphers, and its extensions with the curves and point formats
-- of the string, in their order.
pub string_to_spec-render :
    (ids : TlsIds) (l : Ja3Lists) (v c e : ℕ) (cs es qs ps : List ℕ) (exts : List TlsExtension)
    → Below (2 ^ 16) (c ∷ cs)
    → Below (2 ^ 16) (e ∷ es)
    → Below (2 ^ 16) qs
    → Below (2 ^ 8) ps
    → map (extension_of ids (ext_map ids l qs ps)) (e ∷ es) ≡ map some exts
    → string_to_spec ids l (render v (c ∷ cs) (e ∷ es) qs ps)
      ≡ ok (record {
        cipher_suites = c ∷ cs;
        compression_methods = ids.compression_none ∷ [];
        extensions = exts;
      })
unfolding string_to_spec
string_to_spec-render ids l v c e cs es qs ps exts hc he hq hp known =
    rw (split-render v (c ∷ cs) (e ∷ es) qs ps) (
      simp (
        drop_empty-render_part qs,
        map_all-decimals 16 qs hq (omega arith),
        drop_empty-render_part ps,
        map_all-decimals 8 ps hp (omega arith),
        split-render_part e es,
        map_all-extensions ids (ext_map ids l qs ps) (e ∷ es) exts he known,
        split-render_part c cs,
        map_all-decimals 16 (c ∷ cs) hc (omega arith),
      ))
