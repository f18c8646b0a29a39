-- ===== src/Json.antt =====
-- core/json.c: the check of UTF-8 and the writer of strings. A string is the list of its bytes, and
-- a loop that copies what it keeps in runs holds the present run. Memory that runs out is not seen.
pub mod Strings
pub mod Tests
use cosmic.Prelude.{
  ℕ, zero, suc, ◌+◌, ◌-◌, ◌*◌, ◌/◌, ◌%◌, ◌^◌, Bool, true, false, not, ◌&&◌, ◌||◌, Option, none,
  some, List, [], ◌∷◌, ◌++◌, ◌==◌, ltb, leb, if◌then◌else◌, bit_and,
}
use cosmic.Prelude.Text.{codes}

-- What a lead byte says: how many bytes follow, and the least and greatest that the first may be.
pub record Lead : Type 0 where
  pub need : ℕ
  pub lo : ℕ
  pub hi : ℕ

abbrev pub lead : ℕ → Option Lead
lead c =
    if leb 0xc2 c && leb c 0xdf
    then some (record { need = 1; lo = 0x80; hi = 0xbf })
    else if leb 0xe0 c && leb c 0xef
    then some (record {
      need = 2;
      lo = if c == 0xe0 then 0xa0 else 0x80;
      hi = if c == 0xed then 0x9f else 0xbf;
    })
    else if leb 0xf0 c && leb c 0xf4
    then some (record {
      need = 3;
      lo = if c == 0xf0 then 0x90 else 0x80;
      hi = if c == 0xf4 then 0x8f else 0xbf;
    })
    else none

-- The loop of is_utf8: so many bytes are still to follow, the next one between `lo` and `hi`.
unfoldable pub utf8_from : ℕ → ℕ → ℕ → List ℕ → Bool
utf8_from zero lo hi [] = true
utf8_from (suc left) lo hi [] = false
utf8_from zero lo hi (c ∷ rest) =
    let next = utf8_from 0 0 0 rest in
    let after = λ (l : Lead). utf8_from l.need l.lo l.hi rest in
    if ltb c 0x80 then next else elim (lead c) [ none ↦ false | some l ↦ after l ]
utf8_from (suc left) lo hi (c ∷ rest) = leb lo c && leb c hi && utf8_from left 0x80 0xbf rest

-- is_utf8
unfoldable pub is_utf8 : List ℕ → Bool
unfolding utf8_from
is_utf8 s = utf8_from 0 0 0 s

-- hex[d]
abbrev pub hex : ℕ → ℕ
hex d = if ltb d 10 then b'0' + d else b'a' + (d - 10)

-- The escape of a byte below 0x80 that is not written as it is.
abbrev pub string_escape : ℕ → Option (List ℕ)
string_escape c =
    if leb 0x20 c && not (c == b'"') && not (c == b'\\')
    then none
    else if c == b'"'
    then some (b'\\' ∷ b'"' ∷ [])
    else if c == b'\\'
    then some (b'\\' ∷ b'\\' ∷ [])
    else if c == 8
    then some (b'\\' ∷ b'b' ∷ [])
    else if c == 12
    then some (b'\\' ∷ b'f' ∷ [])
    else if c == 10
    then some (b'\\' ∷ b'n' ∷ [])
    else if c == 13
    then some (b'\\' ∷ b'r' ∷ [])
    else if c == 9
    then some (b'\\' ∷ b't' ∷ [])
    else some (b'\\' ∷ b'u' ∷ b'0' ∷ b'0' ∷ hex (c / 16) ∷ hex (c % 16) ∷ [])

-- One escape of a UTF-16 unit, and those of a code point.
abbrev unit_escape : ℕ → List ℕ
unit_escape u =
    b'\\' ∷ b'u' ∷ hex (u / 4096 % 16) ∷ hex (u / 256 % 16) ∷ hex (u / 16 % 16) ∷ hex (u % 16) ∷ []

abbrev code_escape : ℕ → List ℕ
code_escape code =
    if leb 0x10000 code
    then unit_escape (0xd800 + (code - 0x10000) / 1024)
      ++ unit_escape (0xdc00 + (code - 0x10000) % 1024)
    else unit_escape code

-- How many bytes follow a lead byte.
abbrev extra : ℕ → ℕ
extra c = if leb 0xf0 c then 3 else if leb 0xe0 c then 2 else 1

-- The loop of put_string: with `ascii`, so many bytes of a character are still to come, of which
-- `code` has been read.
unfoldable pub put_from : Bool → List ℕ → ℕ → ℕ → List ℕ → List ℕ
put_from ascii run left code [] = run
put_from ascii run (suc zero) code (c ∷ rest) =
    code_escape (code * 64 + c % 64) ++ put_from ascii [] 0 0 rest
put_from ascii run (suc (suc left)) code (c ∷ rest) =
    put_from ascii [] (suc left) (code * 64 + c % 64) rest
put_from ascii run zero code (c ∷ rest) =
    let kept = put_from ascii (run ++ c ∷ []) 0 0 rest in
    let begun = put_from ascii [] 0 0 rest in
    let wide = put_from ascii [] (extra c) (bit_and c (0x3f / 2 ^ extra c)) rest in
    if ascii && leb 0x80 c
    then run ++ wide
    else elim (string_escape c) [ none ↦ kept | some written ↦ run ++ written ++ begun ]

-- put_string; none where the string is refused.
unfoldable pub put_string : Bool → List ℕ → Option (List ℕ)
unfolding is_utf8 put_from
put_string ascii s =
    if is_utf8 s then some (b'"' ∷ (put_from ascii [] 0 0 s ++ b'"' ∷ [])) else none
