-- ===== src/Json/Tests.antt =====
-- The theorems on JSON strings at concrete inputs.
use cosmic.Prelude.{ℕ, ◌≡◌, refl, true, false, some, List, [], ◌∷◌}
use cosmic.Json.{is_utf8, put_string}
use cosmic.Json.Strings.{read_string, put_string-read}

-- A quote, a newline, a control byte and U+20AC.
abbrev sample : List ℕ
sample = b'"' ∷ 10 ∷ 1 ∷ 0xe2 ∷ 0x82 ∷ 0xac ∷ []

sample-is_utf8 : is_utf8 sample ≡ true
unfolding is_utf8
sample-is_utf8 = refl

put_string-read_example :
    (text : List ℕ) × (put_string false sample ≡ some text) × (read_string text ≡ some sample)
put_string-read_example = put_string-read sample sample-is_utf8
