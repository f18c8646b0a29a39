-- ===== src/Html/Link.antt =====
-- url_allowed: a link that it passes names an allowed scheme or stays on this host.
use cosmic.Prelude.{
  ℕ, ◌≡◌, refl, Bool, true, false, not, ◌||◌, List, [], ◌∷◌, ◌++◌, ◌==◌, arith, Bool-cases, inl,
  inr, ◌+◌, ◌≤◌, leb, ◌&&◌, ap,
}
use mathlib.Core.Path.{subst}
use cosmic.Html.{
  equals_ignoring_case, all_bytes, scheme_scan, scheme_allowed, any_scheme, url_allowed, is_slash,
}

-- A byte that a scheme can stand before: none of `:`, `/`, `?` and `#`.
abbrev pub runs_on : ℕ → Bool
runs_on c = not (c == b':' || c == b'/' || c == b'?' || c == b'#')

scheme_scan-colon :
    (scheme rest : List ℕ)
    → all_bytes runs_on scheme ≡ true
    → scheme_scan (scheme ++ b':' ∷ rest) ≡ (scheme, true)
unfolding scheme_scan all_bytes
scheme_scan-colon [] rest h = refl
scheme_scan-colon (c ∷ more) rest h = ground (arith, scheme_scan-colon more rest)

any_scheme-of_allowed :
    (scheme : List ℕ) (schemes : List (List ℕ))
    → scheme_allowed scheme schemes ≡ true
    → any_scheme scheme schemes ≡ true
unfolding scheme_allowed
any_scheme-of_allowed [] schemes h = cc
any_scheme-of_allowed (c ∷ rest) schemes h = ground arith

-- A scheme spelled as a word, with a capital letter at will for each small one of the word.
pub data IsSpelled : List ℕ → List ℕ → Type 0 where
  ended : IsSpelled [] []
  small : {c : ℕ} {s word : List ℕ} → IsSpelled s word → IsSpelled (c ∷ s) (c ∷ word)
  capital :
      {c : ℕ} {s word : List ℕ}
      → 65 ≤ c
      → c ≤ 90
      → IsSpelled s word
      → IsSpelled (c ∷ s) ((c + 32) ∷ word)

equals-IsSpelled : (s word : List ℕ) → equals_ignoring_case s word ≡ true → IsSpelled s word
unfolding equals_ignoring_case
equals-IsSpelled [] [] h = ended
equals-IsSpelled [] (d ∷ word) h = cc
equals-IsSpelled (c ∷ s) [] h = cc
equals-IsSpelled (c ∷ s) (d ∷ word) h =
    let rest = equals-IsSpelled s word (ground arith) in
    elim (Bool-cases (leb b'A' c && leb c b'Z')) [
      | inl big ↦
          let same : c + 32 ≡ d = ground arith in
          subst (λ d. IsSpelled (c ∷ s) (d ∷ word)) same
            (capital (ground arith) (ground arith) rest)
      | inr kept ↦
          let same : c ≡ d = ground arith in
          subst (λ d. IsSpelled (c ∷ s) (d ∷ word)) same (small rest)
    ]

any_scheme-IsSpelled :
    (scheme : List ℕ) (schemes : List (List ℕ))
    → any_scheme scheme schemes ≡ true
    → (before : List (List ℕ)) × (word : List ℕ) × (after : List (List ℕ)) × (schemes
        ≡ before ++ word ∷ after)
      × IsSpelled scheme word
unfolding any_scheme
any_scheme-IsSpelled scheme [] h = cc
any_scheme-IsSpelled scheme (word ∷ rest) h = elim (Bool-cases (equals_ignoring_case scheme word)) [
  | inl same ↦ ([], word, rest, refl, equals-IsSpelled scheme word same)
  | inr other ↦
      let (before, found, after, split, spelled) =
        any_scheme-IsSpelled scheme rest (rw (any_scheme, other) at h) in
      (word ∷ before, found, after, ap (λ l. word ∷ l) split, spelled)
]

-- Where url_allowed passes a URL in which a colon comes before any `/`, `?` and `#`, what
-- precedes the first colon is spelled as one of the schemes allowed, with a capital letter at
-- will for each small one.
pub url_allowed-scheme :
    (scheme rest : List ℕ) (schemes : List (List ℕ))
    → all_bytes runs_on scheme ≡ true
    → url_allowed (scheme ++ b':' ∷ rest) schemes ≡ true
    → (before : List (List ℕ)) × (word : List ℕ) × (after : List (List ℕ)) × (schemes
        ≡ before ++ word ∷ after)
      × IsSpelled scheme word
unfolding url_allowed
url_allowed-scheme scheme rest schemes free h =
    any_scheme-IsSpelled scheme schemes
      (ground (arith, scheme_scan-colon scheme rest free, any_scheme-of_allowed scheme schemes))

-- A scheme of no letter is never allowed: it begins with a slash.
slash-scheme_allowed :
    (c : ℕ) (rest : List ℕ) (schemes : List (List ℕ))
    → is_slash c ≡ true
    → scheme_allowed (c ∷ rest) schemes ≡ false
unfolding scheme_allowed
slash-scheme_allowed c rest schemes h = ground arith

slash-scan :
    (c : ℕ) (rest : List ℕ) (schemes : List (List ℕ))
    → is_slash c ≡ true
    → (scheme_scan (c ∷ rest)).1 ≡ true
    → scheme_allowed (scheme_scan (c ∷ rest)).0 schemes ≡ false
unfolding scheme_scan
slash-scan c rest schemes h e =
    ground (arith, slash-scheme_allowed c (scheme_scan rest).0 schemes h)

-- A URL that begins with two slashes, forward or backward, is never allowed, whatever the
-- schemes.
pub url_allowed-host :
    (c d : ℕ) (rest : List ℕ) (schemes : List (List ℕ))
    → (c == b'/' || c == b'\\') ≡ true
    → (d == b'/' || d == b'\\') ≡ true
    → url_allowed (c ∷ d ∷ rest) schemes ≡ false
unfolding url_allowed
url_allowed-host c d rest schemes h k = elim (Bool-cases (scheme_scan (c ∷ d ∷ rest)).1) [
  | inl e ↦ let f = slash-scan c (d ∷ rest) schemes h e in ground arith
  | inr e ↦ ground arith
]
