-- ===== src/Html/Attr.antt =====
-- html_escape_attr: an attribute value of letters, digits, other bytes and character references.
use cosmic.Prelude.{
  ℕ, ◌+◌, ◌/◌, ◌%◌, ◌<◌, ◌≡◌, ◌≢◌, sym, ap, ◌∙◌, Bool, true, ◌||◌, List, [], ◌∷◌, ◌++◌, ◌==◌, arith,
  leb, ◌&&◌, if◌then◌else◌, Bool-cases, inl, inr,
}
use cosmic.Html.{attr_plain, attr_write, reference, escape_attr, all_bytes}
use cosmic.Html.Runs.{written, each, copied, all_bytes-each, each-injective}

-- The bytes of an escaped attribute value, by their codes: 128 and more, `0` to `9`, `A` to `Z`, `a`
-- to `z`, `#`, `&` and `;`; so no space, quote, `<`, `>`, `=` or backquote.
abbrev pub is_attr_text : ℕ → Bool
is_attr_text c =
    leb 128 c
    || (leb 48 c && leb c 57)
    || (leb 65 c && leb c 90)
    || (leb 97 c && leb c 122)
    || c == 35
    || c == 38
    || c == 59

escape_attr-each : (s : List ℕ) → escape_attr s ≡ each attr_write s
unfolding escape_attr
escape_attr-each s = copied attr_write attr_plain (λ c h. ground arith) s

-- The references by their number of digits.
abbrev digit : ℕ → ℕ
digit d = b'0' + d

reference_digits :
    (c : ℕ)
    → c < 128
    → reference c ≡ (
        if c / 10 == 0
        then b'&' ∷ b'#' ∷ digit c ∷ b';' ∷ []
        else if c / 100 == 0
        then b'&' ∷ b'#' ∷ digit (c / 10) ∷ digit (c % 10) ∷ b';' ∷ []
        else b'&' ∷ b'#' ∷ digit (c / 100) ∷ digit (c / 10 % 10) ∷ digit (c % 10) ∷ b';' ∷ [])
unfolding reference
reference_digits c h = ground arith

written_attr-safe : (c : ℕ) → all_bytes is_attr_text (written attr_write c) ≡ true
unfolding all_bytes
written_attr-safe c = elim (Bool-cases (attr_plain c)) [
  | inl e ↦ ground arith
  | inr e ↦ ground (arith, reference_digits c)
]

-- An escaped attribute value holds only bytes of the codes 48 to 57, 65 to 90 and 97 to 122
-- (digits and letters), 128 and more, and 35, 38 and 59 (`#`, `&` and `;`).
pub escape_attr-safe : (s : List ℕ) → all_bytes is_attr_text (escape_attr s) ≡ true
escape_attr-safe s =
    ap (all_bytes is_attr_text) (escape_attr-each s)
    ∙ all_bytes-each attr_write is_attr_text written_attr-safe s

-- The references of two bytes are told apart, however many digits they have.
reference-apart :
    (x y : ℕ) (xs ys : List ℕ)
    → x < 128
    → y < 128
    → reference x ++ xs ≡ reference y ++ ys
    → (x ≡ y) × (xs ≡ ys)
reference-apart x y xs ys p q h = ground (arith, reference_digits x, reference_digits y)

written_attr-apart :
    (x y : ℕ) (xs ys : List ℕ)
    → written attr_write x ++ xs ≡ written attr_write y ++ ys
    → (x ≡ y) × (xs ≡ ys)
written_attr-apart x y xs ys h = elim (Bool-cases (attr_plain x)) [
  | inl px ↦ elim (Bool-cases (attr_plain y)) [
    | inl py ↦ ground arith
    | inr qy ↦ ground (arith, reference_digits y)
  ]
  | inr qx ↦ elim (Bool-cases (attr_plain y)) [
    | inl py ↦ ground (arith, reference_digits x)
    | inr qy ↦ ground (arith, reference-apart x y xs ys)
  ]
]

written_attr-byte : (x : ℕ) (xs : List ℕ) → written attr_write x ++ xs ≢ []
unfolding reference
written_attr-byte x xs = ground arith

-- Two strings with the same attribute escape are equal.
pub escape_attr-injective : (s t : List ℕ) → escape_attr s ≡ escape_attr t → s ≡ t
escape_attr-injective s t h =
    each-injective attr_write written_attr-apart written_attr-byte s t
      (sym (escape_attr-each s) ∙ h ∙ escape_attr-each t)
