-- ===== src/Preconditions/Etag.antt =====
-- `isETagEqual` and quotation marks.
use yig.Prelude.{◌≡◌, refl, ap, arith, true, [], ◌∷◌, ◌++◌}
use yig.Types.{Bytes}
use yig.Preconditions.{
  is_etag_equal, canonicalize_etag, trim_prefix, trim_suffix, bytes_eq, quote_sign,
}

trim_suffix-append : (e : Bytes) → trim_suffix (e ++ quote_sign ∷ []) ≡ e
unfolding trim_suffix
trim_suffix-append [] = refl
trim_suffix-append (c ∷ []) = refl
trim_suffix-append (c ∷ d ∷ cs) = ap (λ l. c ∷ l) (trim_suffix-append (d ∷ cs))

bytes_eq_refl : (e : Bytes) → bytes_eq e e ≡ true
unfolding bytes_eq
bytes_eq_refl [] = refl
bytes_eq_refl (c ∷ cs) = ground (arith, bytes_eq_refl cs)

-- An ETag with a quotation mark at neither end.
abbrev pub IsBare : Bytes → Type 0
IsBare e = canonicalize_etag e ≡ e

abbrev pub quoted : Bytes → Bytes
quoted e = quote_sign ∷ e ++ quote_sign ∷ []

canonicalize_etag-quoted : (e : Bytes) → canonicalize_etag (quoted e) ≡ e
unfolding canonicalize_etag trim_prefix
canonicalize_etag-quoted e = trim_suffix-append e

-- An ETag without quotation marks at its ends equals itself with them, on either side.
pub is_etag_equal-quoted :
    (e : Bytes)
    → IsBare e
    → (is_etag_equal e (quoted e) ≡ true) × (is_etag_equal (quoted e) e ≡ true)
unfolding is_etag_equal
is_etag_equal-quoted e bare =
    let same = canonicalize_etag-quoted e in
    (rw (bare, same) (bytes_eq_refl e), rw (same, bare) (bytes_eq_refl e))
