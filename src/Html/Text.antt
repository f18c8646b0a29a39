-- ===== src/Html/Text.antt =====
-- html_escape: what it writes closes and opens no markup, and says what the text was.
use cosmic.Prelude.{
  ℕ, ◌≡◌, ◌≢◌, sym, ap, ◌∙◌, Bool, true, false, not, ◌||◌, none, some, List, [], ◌++◌, ◌==◌, arith,
}
use cosmic.Html.{text_entity, escape, all_bytes}
use cosmic.Html.Runs.{written, each, copied, all_bytes-each, each-injective}

-- Every byte is written by itself, the five of markup as entities.
pub escape-each : (s : List ℕ) → escape s ≡ each text_entity s
unfolding escape
escape-each s = copied text_entity _ keeps s
  where
    keeps :
        (c : ℕ)
        → (elim (text_entity c) as (λ _. Bool) [ none ↦ true | some _ ↦ false ]) ≡ true
        → text_entity c ≡ none
    keeps c h = ground arith

-- A byte that can neither end a quoted attribute value nor open or close a tag.
abbrev pub is_inert : ℕ → Bool
is_inert c = not (c == b'<' || c == b'>' || c == b'"' || c == b'\'')

written-is_inert : (c : ℕ) → all_bytes is_inert (written text_entity c) ≡ true
unfolding all_bytes
written-is_inert c = ground arith

-- The text escape of any string holds no `<`, no `>` and neither quote.
pub escape-is_inert : (s : List ℕ) → all_bytes is_inert (escape s) ≡ true
escape-is_inert s =
    ap (all_bytes is_inert) (escape-each s) ∙ all_bytes-each text_entity is_inert written-is_inert s

written-apart :
    (x y : ℕ) (xs ys : List ℕ)
    → written text_entity x ++ xs ≡ written text_entity y ++ ys
    → (x ≡ y) × (xs ≡ ys)
written-apart x y xs ys h = ground arith

written-byte : (x : ℕ) (xs : List ℕ) → written text_entity x ++ xs ≢ []
written-byte x xs = ground arith

-- Two strings with the same text escape are equal.
pub escape-injective : (s t : List ℕ) → escape s ≡ escape t → s ≡ t
escape-injective s t h =
    each-injective text_entity written-apart written-byte s t
      (sym (escape-each s) ∙ h ∙ escape-each t)
