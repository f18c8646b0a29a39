-- ===== src/Json/Strings.antt =====
-- put_string: what it writes is a string of JSON that reads back.
use mathlib.Core.List.{append_assoc, append-nil}
use cosmic.Prelude.{
  ℕ, zero, suc, ◌+◌, ◌-◌, ◌*◌, ◌≡◌, refl, sym, ap, ◌∙◌, true, false, Option, none, some, List, [],
  ◌∷◌, ◌++◌, ◌==◌, leb, ltb, arith, if◌then◌else◌, Option-cases, inl, inr,
}
use cosmic.Html.Runs.{written, each, written-none, written-some}
use cosmic.Json.{is_utf8, put_from, put_string, string_escape}

-- A reader of one string: after no escape, after a backslash, and within the digits of `\u`.
pub data Reading : Type 0 where
  plain : Reading
  escape : Reading
  digits : ℕ → ℕ → Reading

abbrev hex_value : ℕ → ℕ
hex_value c = if leb b'a' c then c - b'a' + 10 else c - b'0'

abbrev escape_value : ℕ → ℕ
escape_value c =
    if c == b'b'
    then 8
    else if c == b'f'
    then 12
    else if c == b'n'
    then 10
    else if c == b'r'
    then 13
    else if c == b't'
    then 9
    else c

abbrev push : ℕ → Option (List ℕ) → Option (List ℕ)
push c none = none
push c (some s) = some (c ∷ s)

abbrev at_end : List ℕ → Option (List ℕ)
at_end [] = some []
at_end (c ∷ rest) = none

-- Up to the closing quote, which is the last byte. A `\u` escape of the last two digits only.
pub read_from : Reading → List ℕ → Option (List ℕ)
read_from state [] = none
read_from plain (c ∷ rest) =
    let escaped = read_from escape rest in
    let literal = read_from plain rest in
    if c == b'"'
    then at_end rest
    else if c == b'\\'
    then escaped
    else if ltb c 0x20
    then none
    else push c literal
read_from escape (c ∷ rest) =
    let unit = read_from (digits 3 0) rest in
    let short = read_from plain rest in if c == b'u' then unit else push (escape_value c) short
read_from (digits zero v) (c ∷ rest) = push (v * 16 + hex_value c) (read_from plain rest)
read_from (digits (suc left) v) (c ∷ rest) = read_from (digits left (v * 16 + hex_value c)) rest

pub read_string : List ℕ → Option (List ℕ)
unfolding read_from
read_string [] = none
read_string (c ∷ rest) = if c == b'"' then read_from plain rest else none

-- Without `ascii` every byte is written by itself.
put_from-each : (run s : List ℕ) → put_from false run 0 0 s ≡ run ++ each string_escape s
unfolding put_from
put_from-each run [] = sym (append-nil run)
put_from-each run (c ∷ rest) = elim (Option-cases (string_escape c)) [
  | inl e ↦
      rw (put_from, e, written-none string_escape c e)
        (put_from-each (run ++ c ∷ []) rest ∙ append_assoc run (c ∷ []) (each string_escape rest))
  | inr (w, e) ↦
      rw (put_from, e, written-some string_escape c w e)
        (ap (λ l. (run ++ w) ++ l) (put_from-each [] rest)
          ∙ append_assoc run w (each string_escape rest))
]

read-written :
    (c : ℕ) (rest : List ℕ)
    → read_from plain (written string_escape c ++ rest) ≡ push c (read_from plain rest)
unfolding read_from
read-written c rest = ground arith

read-each : (s : List ℕ) → read_from plain (each string_escape s ++ b'"' ∷ []) ≡ some s
unfolding read_from
read-each [] = refl
read-each (c ∷ rest) =
    ap (read_from plain)
      (append_assoc (written string_escape c) (each string_escape rest) (b'"' ∷ []))
    ∙ read-written c (each string_escape rest ++ b'"' ∷ [])
    ∙ ap (push c) (read-each rest)

-- A string that is_utf8 passes is written by put_string, without its ascii option, as a text
-- that a reader of one JSON string, which refuses bare control bytes and quotes, reads back to
-- the same bytes.
pub put_string-read :
    (s : List ℕ)
    → is_utf8 s ≡ true
    → (text : List ℕ) × (put_string false s ≡ some text) × (read_string text ≡ some s)
unfolding put_string read_string
put_string-read s h = (
  b'"' ∷ (put_from false [] 0 0 s ++ b'"' ∷ []),
  rw (put_string, h) refl,
  ap (λ l. read_from plain (l ++ b'"' ∷ [])) (put_from-each [] s) ∙ read-each s,
)
