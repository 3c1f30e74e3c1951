-- ===== src/Api/Cors/Origin.antt =====
-- What an allowed host with one star allows (api/datatype/cors.go).
use Prim.Native.Nat.{zero, suc}
use yig.Prelude.{
  subst, take_all, ℕ, ◌≡◌, ◌↔◌, ◌≤◌, ◌+◌, ◌-◌, refl, sym, ◌∙◌, ap, true, [], ◌∷◌, ◌++◌, arith,
  length, take, drop, is_prefix, length-append, drop-append_ge, take_split, append_assoc, suc,
}
use yig.Types.{Bytes}
use yig.Preconditions.{bytes_eq}
use yig.Api.Cors.{has_suffix, match_host}

pub bytes_eq_sound : (x y : Bytes) → bytes_eq x y ≡ true → x ≡ y
unfolding bytes_eq
bytes_eq_sound [] [] h = refl
bytes_eq_sound [] (b ∷ bs) h = absurd (ground arith)
bytes_eq_sound (a ∷ x) [] h = absurd (ground arith)
bytes_eq_sound (a ∷ x) (b ∷ y) h = ground (arith, bytes_eq_sound x y)

bytes_eq_refl : (x : Bytes) → bytes_eq x x ≡ true
unfolding bytes_eq
bytes_eq_refl [] = refl
bytes_eq_refl (a ∷ x) = ground (arith, bytes_eq_refl x)

is_prefix-append : (x y : Bytes) → is_prefix x (x ++ y) ≡ true
is_prefix-append [] y = refl
is_prefix-append (a ∷ x) y = ground (arith, is_prefix-append x y)

-- A prefix of a list is one of each beginning that is long enough.
is_prefix-take :
    (x host : Bytes) (n : ℕ)
    → is_prefix x host ≡ true
    → length x ≤ n
    → (rest : Bytes) × (take n host ≡ x ++ rest)
is_prefix-take [] host n h le = (take n host, refl)
is_prefix-take (a ∷ x) [] n h le = absurd (ground arith)
is_prefix-take (a ∷ x) (c ∷ host) zero h le = absurd (omega arith)
is_prefix-take (a ∷ x) (c ∷ host) (suc n) h le =
    let same : a ≡ c = ground arith in
    let (rest, e) = is_prefix-take x host n (ground arith) (omega arith) in
    (rest, rw (same, e) refl)

has_suffix-drop :
    (host after : Bytes)
    → has_suffix host after ≡ true
    → (length after ≤ length host) × (drop (length host - length after) host ≡ after)
unfolding has_suffix
has_suffix-drop host after h =
    (ground arith, bytes_eq_sound (drop (length host - length after) host) after (ground arith))

has_suffix-append : (x after : Bytes) → has_suffix (x ++ after) after ≡ true
unfolding has_suffix
has_suffix-append x after =
    rw
      (
        length-append x after,
        drop-append_ge (length x + length after - length after) 0 x after (omega arith),
        bytes_eq_refl after,
      )
      (ground arith)

cut_piece :
    (host after : Bytes) (n : ℕ)
    → n + length after ≡ length host
    → drop n host ≡ after
    → host ≡ take n host ++ after
cut_piece host after n long e =
    sym (take_all (length host) host (omega arith))
    ∙ sym (take_split n (length after) (length host) host (sym long))
    ∙ ap (λ l. take n host ++ take (length after) l) e
    ∙ ap (λ l. take n host ++ l) (take_all (length after) after (omega arith))

-- A host that is as long as the two pieces around the star or longer matches exactly if it begins
-- with the one and ends with the other, whatever is between them.
pub match_host-between :
    (before after host : Bytes)
    → length before + length after ≤ length host
    → (match_host (before ∷ after ∷ []) host ≡ true)
      ↔ ((middle : Bytes) × (host ≡ before ++ middle ++ after))
unfolding match_host
match_host-between before after host long = (
  λ h.
      let (fits, end) = has_suffix-drop host after (ground arith) in
      let (middle, begin) =
        is_prefix-take before host (length host - length after) (ground arith) (omega arith) in
      (
        middle,
        cut_piece host after (length host - length after) (omega arith) end
            ∙ ap (λ l. l ++ after) begin,
      ),
  λ (middle, e).
      let ends : has_suffix (before ++ middle ++ after) after ≡ true =
        has_suffix-append (before ++ middle) after in
      let begins : is_prefix before (before ++ middle ++ after) ≡ true =
        subst (λ l. is_prefix before l ≡ true) (sym (append_assoc before middle after))
          (is_prefix-append before (middle ++ after)) in
      rw (e, begins, ends) refl,
)
