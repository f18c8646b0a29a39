-- ===== src/Html/Values/Doors.antt =====
-- The kinds of core/html.c are apart, and what was escaped stays escaped through `concat`.
use cosmic.Prelude.{ℕ, ◌+◌, ◌≡◌, refl, true, List, [], ◌∷◌, ◌++◌, arith, length}
use cosmic.Prelude.Results.{ok, >>=-eq-ok}
use cosmic.Html.{all_bytes}
use cosmic.Html.Runs.{all_bytes-append}
use cosmic.Html.Text.{is_inert, escape-is_inert}
use cosmic.Html.Values.{
  html, attr, url, url_part, json, Value, str, num, safe, other, html_escape, html_concat,
  concat_from, check_sequence, Key,
}

-- The markup that a program makes without a door that trusts it: escapes, and their sequences.
mutual
  pub data Made : Value → Type 0 where
    escaped : (v m : Value) → html_escape v ≡ ok m → Made m
    joined :
        (m : Value) (values : List Value) (keys : List Key)
        → AllMade values
        → html_concat keys values ≡ ok m
        → Made m

  pub data AllMade : List Value → Type 0 where
    nil : AllMade []
    cons : (v : Value) (rest : List Value) → Made v → AllMade rest → AllMade (v ∷ rest)

-- Markup with no byte that ends a quoted value or opens a tag.
abbrev pub IsInert : Value → Type 0
IsInert (safe html s) = all_bytes is_inert s ≡ true
IsInert (safe attr s) = ⊥
IsInert (safe url s) = ⊥
IsInert (safe url_part s) = ⊥
IsInert (safe json s) = ⊥
IsInert (str s) = ⊥
IsInert (num s) = ⊥
IsInert other = ⊥

abbrev AllInert : List Value → Type 0
AllInert [] = Unit
AllInert (v ∷ rest) = IsInert v × AllInert rest

concat-IsInert :
    (i : ℕ) (values : List Value) (buffer : List ℕ) (m : Value)
    → AllInert values
    → all_bytes is_inert buffer ≡ true
    → concat_from i values buffer ≡ ok m
    → IsInert m
unfolding concat_from
concat-IsInert i [] buffer m h b e = ground arith
concat-IsInert i (safe html s ∷ rest) buffer m h b e =
    concat-IsInert (i + 1) rest (buffer ++ s) m h.1 (all_bytes-append is_inert buffer s b h.0) e
concat-IsInert i (v ∷ rest) buffer m h b e = cc

Made-escaped : (v m : Value) → html_escape v ≡ ok m → IsInert m
Made-escaped (str s) m e = let h = escape-is_inert s in ground arith
Made-escaped (num s) m e = let h = escape-is_inert s in ground arith
Made-escaped (safe k s) m e = cc
Made-escaped other m e = cc

Made-joined :
    (keys : List Key) (values : List Value) (m : Value)
    → AllInert values
    → html_concat keys values ≡ ok m
    → IsInert m
unfolding html_concat all_bytes
Made-joined keys values m h e =
    let (_, _, f) =
      >>=-eq-ok (check_sequence (length values) keys) (λ _. concat_from 1 values []) e in
    concat-IsInert 1 values [] m h refl f

mutual
  Made-IsInert' : (m : Value) → Made m → IsInert m
  Made-IsInert' m (escaped v _ e) = Made-escaped v m e
  Made-IsInert' m (joined _ values keys all e) =
      Made-joined keys values m (AllMade-AllInert values all) e

  AllMade-AllInert : (values : List Value) → AllMade values → AllInert values
  AllMade-AllInert [] nil = tt
  AllMade-AllInert (v ∷ rest) (cons _ _ first more) =
      (Made-IsInert' v first, AllMade-AllInert rest more)

-- Every value made by escape, and by concat of values so made, is a SafeHtml whose string holds
-- no `<`, no `>` and neither quote.
pub Made-IsInert : (m : Value) → Made m → IsInert m
Made-IsInert = Made-IsInert'
