-- ===== src/Html/Runs.antt =====
-- The copying loops of core/html.c, which keep runs of bytes and pass a plain string through, write
-- each byte by itself.
use mathlib.Core.Path.{ap₂}
use mathlib.Core.List.{append-nil, append_assoc}
use cosmic.Prelude.{
  ℕ, ◌≡◌, ◌≢◌, refl, sym, ap, ◌∙◌, Bool, true, Option, none, some, List, [], ◌∷◌, ◌++◌, arith,
  if◌then◌else◌, Option-cases, Bool-cases, inl, inr,
}
use cosmic.Html.{copy_runs, all_bytes}

pub all_bytes-append :
    (test : ℕ → Bool) (xs ys : List ℕ)
    → all_bytes test xs ≡ true
    → all_bytes test ys ≡ true
    → all_bytes test (xs ++ ys) ≡ true
unfolding all_bytes
all_bytes-append test [] ys p q = q
all_bytes-append test (x ∷ xs) ys p q =
    let rest : all_bytes test (xs ++ ys) ≡ true = all_bytes-append test xs ys (ground arith) q in
    ground arith

module _ (write : ℕ → Option (List ℕ)) where
  -- What is written for one byte.
  abbrev pub written : ℕ → List ℕ
  written c = elim (write c) [ none ↦ c ∷ [] | some w ↦ w ]

  pub written-none : (c : ℕ) → write c ≡ none → written c ≡ c ∷ []
  written-none c e = rw (written, e)

  pub written-some : (c : ℕ) (w : List ℕ) → write c ≡ some w → written c ≡ w
  written-some c w e = rw (written, e)

  abbrev pub each : List ℕ → List ℕ
  each [] = []
  each (c ∷ rest) = written c ++ each rest

  pub copy_runs-each : (run s : List ℕ) → copy_runs write run s ≡ run ++ each s
  unfolding copy_runs
  copy_runs-each run [] = sym (append-nil run)
  copy_runs-each run (c ∷ rest) = elim (Option-cases (write c)) [
    | inl e ↦
        rw (e, copy_runs, written-none c e)
          (copy_runs-each (run ++ c ∷ []) rest ∙ append_assoc run (c ∷ []) (each rest))
    | inr (w, e) ↦
        rw (e, copy_runs, written-some c w e)
          (ap (λ l. run ++ w ++ l) (copy_runs-each [] rest) ∙ append_assoc run w (each rest))
  ]

  -- A string that the loop would not change.
  pub each-plain :
      (plain : ℕ → Bool)
      → ((c : ℕ) → plain c ≡ true → write c ≡ none)
      → (s : List ℕ) → all_bytes plain s ≡ true
      → each s ≡ s
  unfolding all_bytes
  each-plain plain keeps [] h = refl
  each-plain plain keeps (c ∷ rest) h =
      let first : plain c ≡ true = ground arith in
      let others : all_bytes plain rest ≡ true = ground arith in
      rw (written-none c (keeps c first)) (ap (λ l. c ∷ l) (each-plain plain keeps rest others))

  pub copied :
      (plain : ℕ → Bool)
      → ((c : ℕ) → plain c ≡ true → write c ≡ none)
      → (s : List ℕ) → (if all_bytes plain s then s else copy_runs write [] s) ≡ each s
  copied plain keeps s = elim (Bool-cases (all_bytes plain s)) [
    | inl e ↦ rw e (sym (each-plain plain keeps s e))
    | inr e ↦ rw e (copy_runs-each [] s)
  ]

  -- What holds of every byte written holds of the whole.
  pub all_bytes-each :
      (test : ℕ → Bool)
      → ((c : ℕ) → all_bytes test (written c) ≡ true)
      → (s : List ℕ) → all_bytes test (each s) ≡ true
  unfolding all_bytes
  all_bytes-each test holds [] = refl
  all_bytes-each test holds (c ∷ rest) =
      all_bytes-append test (written c) (each rest) (holds c) (all_bytes-each test holds rest)

  -- Where what is written tells the bytes apart, different strings are written differently.
  pub each-injective :
      ((x y : ℕ) (xs ys : List ℕ) → written x ++ xs ≡ written y ++ ys → (x ≡ y) × (xs ≡ ys))
      → ((x : ℕ) (xs : List ℕ) → written x ++ xs ≢ [])
      → (s t : List ℕ) → each s ≡ each t
      → s ≡ t
  each-injective apart some_byte [] [] h = refl
  each-injective apart some_byte [] (y ∷ t) h = absurd (some_byte y (each t) (sym h))
  each-injective apart some_byte (x ∷ s) [] h = absurd (some_byte x (each s) h)
  each-injective apart some_byte (x ∷ s) (y ∷ t) h =
      let both : (x ≡ y) × (each s ≡ each t) = apart x y (each s) (each t) h in
      ap₂ (λ c l. c ∷ l) both.0 (each-injective apart some_byte s t both.1)
