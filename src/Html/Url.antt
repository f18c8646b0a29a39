-- ===== src/Html/Url.antt =====
-- push_url_escaped: percent escapes, and that they read back.
use cosmic.Prelude.{
  ℕ, ◌+◌, ◌-◌, ◌*◌, ◌/◌, ◌%◌, ◌<◌, ◌≡◌, refl, ap, ◌∙◌, Bool, false, ◌&&◌, List, [], ◌∷◌, ◌++◌, ◌==◌,
  leb, arith, if◌then◌else◌, Bool-cases, inl, inr,
}
use cosmic.Prelude.Text.{AreBytes}
use cosmic.Html.{url_write, url_escaped, is_url_unreserved, is_dots, upper_hex}
use cosmic.Html.Runs.{written, each, copied}

abbrev hex_value : ℕ → ℕ
hex_value c = if leb b'A' c then c - b'A' + 10 else c - b'0'

-- A reader of percent escapes: after no escape, after its `%`, and after its first digit.
pub data Reading : Type 0 where
  plain : Reading
  percent : Reading
  digit : ℕ → Reading

pub unescape_from : Reading → List ℕ → List ℕ
unescape_from state [] = []
unescape_from plain (c ∷ rest) =
    let escaped = unescape_from percent rest in
    let literal = unescape_from plain rest in if c == b'%' then escaped else c ∷ literal
unescape_from percent (c ∷ rest) = unescape_from (digit (hex_value c)) rest
unescape_from (digit high) (c ∷ rest) = (high * 16 + hex_value c) ∷ unescape_from plain rest

pub unescape : List ℕ → List ℕ
unescape s = unescape_from plain s

pub url_escaped-each :
    (dot_rule : Bool) (s : List ℕ)
    → (dot_rule && is_dots s) ≡ false
    → url_escaped dot_rule s ≡ each url_write s
unfolding url_escaped
url_escaped-each dot_rule s h =
    rw (url_escaped, h) (copied url_write is_url_unreserved (λ c e. ground arith) s)

hex-hex : (d : ℕ) → d < 16 → hex_value (upper_hex d) ≡ d
hex-hex d h = ground arith

unescape-written :
    (c : ℕ) (rest : List ℕ)
    → c < 256
    → unescape_from plain (written url_write c ++ rest) ≡ c ∷ unescape_from plain rest
unfolding unescape_from
unescape-written c rest h = elim (Bool-cases (is_url_unreserved c)) [
  | inl e ↦ ground arith
  | inr e ↦ ground (arith, hex-hex (c / 16), hex-hex (c % 16))
]

unescape-each : (s : List ℕ) → AreBytes s → unescape (each url_write s) ≡ s
unfolding unescape unescape_from
unescape-each [] h = refl
unescape-each (c ∷ rest) h =
    unescape-written c (each url_write rest) h.0 ∙ ap (λ l. c ∷ l) (unescape-each rest h.1)

-- A string of bytes, which is no dot segment where the dot rule holds, reads back from its
-- percent escape.
pub unescape-url_escaped :
    (dot_rule : Bool) (s : List ℕ)
    → AreBytes s
    → (dot_rule && is_dots s) ≡ false
    → unescape (url_escaped dot_rule s) ≡ s
unescape-url_escaped dot_rule s bytes h =
    ap unescape (url_escaped-each dot_rule s h) ∙ unescape-each s bytes
