-- ===== src/Connector/Address/Texts.antt =====
-- connector_address and connector_prefix of core/connector.c: what a text that is read says.
use cosmic.Prelude.{
  ℕ, ◌+◌, ◌*◌, ◌/◌, ◌%◌, ◌≤◌, ◌≡◌, ◌≢◌, refl, sym, ap, ◌∙◌, Bool, true, false, Option, none, some,
  List, [], ◌∷◌, ◌++◌, ◌==◌, ltb, arith, if◌then◌else◌, Bool-cases, Option-cases, inl, inr, of-some,
  take, drop, replicate, take-append-drop,
}
use mathlib.Core.Path.{subst}
use cosmic.Connector.Address.{
  Prefix, Resolver, address, prefix, contains, with_bits, reduced, split_slash, decimal,
  prefix_bits, numeric_host, same_bytes, mapped,
}
use cosmic.Connector.Address.Within.{same_bytes-eq, same_bytes_self}

-- That a byte is in a text.
abbrev pub Holds : ℕ → List ℕ → Type 0
Holds c text = (before : List ℕ) × (after : List ℕ) × (text ≡ before ++ c ∷ after)

-- The first 12 bytes of an IPv6 address that stands for an IPv4 one.
abbrev pub mapped_start : List ℕ
mapped_start = replicate 10 0 ++ 255 ∷ 255 ∷ []

abbrev pub ipv4_prefix : List ℕ → Prefix
ipv4_prefix four = record { bytes = four ++ replicate 12 0; length = 4; bits = 32 }

-- The whole address that a text names, as the resolver reads it; an IPv6 address that stands for an
-- IPv4 one is that one, where `reduce` asks for it.
pub data Denotes (r : Resolver) : Bool → List ℕ → Prefix → Type 0 where
  ipv4 :
      {reduce : Bool} {text four : List ℕ}
      → ¬ Holds b':' text
      → r.pton4 text ≡ some four
      → Denotes r reduce text (ipv4_prefix four)
  ipv6 :
      {reduce : Bool} {text bytes : List ℕ}
      → Holds b':' text
      → r.pton6 text ≡ some bytes
      → (reduce ≡ true → take 12 bytes ≢ mapped_start)
      → Denotes r reduce text (record { bytes = bytes; length = 16; bits = 128 })
  inner :
      {text bytes four : List ℕ}
      → Holds b':' text
      → r.pton6 text ≡ some bytes
      → bytes ≡ mapped_start ++ four
      → Denotes r true text (ipv4_prefix four)

-- A number below 1,000 in decimal.
abbrev pub decimal_of : ℕ → List ℕ
decimal_of n =
    if ltb n 10
    then (48 + n) ∷ []
    else if ltb n 100
    then (48 + n / 10) ∷ (48 + n % 10) ∷ []
    else (48 + n / 100) ∷ (48 + n / 10 % 10) ∷ (48 + n % 10) ∷ []

-- A text of an address, a slash and a number of bits: the prefix of the address with so many bits.
pub record DenotesCidr (r : Resolver) (text : List ℕ) (p : Prefix) : Type 0 where
  pub before : List ℕ
  pub whole : Prefix
  pub written : text ≡ before ++ b'/' ∷ decimal_of p.bits
  pub named : Denotes r false before whole
  pub cut : p ≡ record whole { bits = p.bits }
  pub within_size : p.bits ≤ whole.length * 8

contains-Holds : (c : ℕ) (text : List ℕ) → contains c text ≡ true → Holds c text
unfolding contains
contains-Holds c [] h = cc
contains-Holds c (x ∷ text) h = elim (Bool-cases (x == c)) [
  | inl same ↦ let e : x ≡ c = ground arith in ([], text, ap (λ x. x ∷ text) e)
  | inr other ↦
      let (before, after, e) = contains-Holds c text (ground arith) in
      (x ∷ before, after, ap (λ l. x ∷ l) e)
]

contains-between : (c : ℕ) (before after : List ℕ) → contains c (before ++ c ∷ after) ≡ true
unfolding contains
contains-between c [] after = ground arith
contains-between c (x ∷ before) after = ground (arith, contains-between c before after)

contains-free : (c : ℕ) (text : List ℕ) → contains c text ≡ false → ¬ Holds c text
contains-free c text free (before, after, e) =
    let there : contains c text ≡ true = ap (contains c) e ∙ contains-between c before after in cc

module _ (r : Resolver) where
  reduced-Denotes :
      (reduce : Bool) (text bytes : List ℕ)
      → Holds b':' text
      → r.pton6 text ≡ some bytes
      → Denotes r reduce text (reduced reduce bytes)
  unfolding reduced
  reduced-Denotes false text bytes six read = ipv6 six read (λ h. absurd (no h))
    where
      no : false ≡ true → ⊥
      no h = cc
  reduced-Denotes true text bytes six read = elim (Bool-cases (same_bytes (take 12 bytes) mapped)) [
    | inl e ↦
        rw (reduced, e)
          (inner six read (
            sym (take-append-drop 12 bytes)
            ∙ ap (λ l. l ++ drop 12 bytes) (same_bytes-eq (take 12 bytes) mapped e)))
    | inr e ↦ rw (reduced, e) (ipv6 six read (λ _ same. unlike (take 12 bytes) e same))
  ]
    where
      unlike : (start : List ℕ) → same_bytes start mapped ≡ false → start ≡ mapped_start → ⊥
      unlike start e same =
          let there : same_bytes start mapped ≡ true =
            ap (λ l. same_bytes l mapped) same ∙ same_bytes_self mapped in
          cc

  address-Denotes :
      (text : List ℕ) (reduce : Bool) (found : Prefix)
      → address r text reduce ≡ some found
      → Denotes r reduce text found
  unfolding address
  address-Denotes text reduce found e = elim (Bool-cases (numeric_host text)) [
    | inr bad ↦ let no : none ≡ some found = rw (address, bad) at e in absurd cc
    | inl good ↦ elim (Bool-cases (contains b':' text)) [
      | inl six ↦ elim (Option-cases (r.pton6 text)) [
        | inl bad ↦ let no : none ≡ some found = rw (address, good, six, bad) at e in absurd cc
        | inr (bytes, p) ↦
            let same : some (reduced reduce bytes) ≡ some found = rw (address, good, six, p) at e in
            subst (Denotes r reduce text) (of-some same)
              (reduced-Denotes reduce text bytes (contains-Holds b':' text six) p)
      ]
      | inr four ↦ elim (Option-cases (r.pton4 text)) [
        | inl bad ↦ let no : none ≡ some found = rw (address, good, four, bad) at e in absurd cc
        | inr (bytes, p) ↦
            let same : some (ipv4_prefix bytes) ≡ some found = rw (address, good, four, p) at e in
            subst (Denotes r reduce text) (of-some same) (ipv4 (contains-free b':' text four) p)
      ]
    ]
  ]

split_slash-eq :
    (text before digits : List ℕ)
    → ◌≡◌ {A = Option (List ℕ × List ℕ)} (split_slash text) (some (before, digits))
    → text ≡ before ++ b'/' ∷ digits
unfolding split_slash
split_slash-eq [] before digits h = cc
split_slash-eq (c ∷ rest) before digits h = elim (Bool-cases (c == b'/')) [
  | inl slash ↦
      let at : c ≡ b'/' = ground arith in
      let same : ◌≡◌ {A = Option (List ℕ × List ℕ)} (some ([], rest)) (some (before, digits)) =
        rw (split_slash, slash) at h in
      ap (λ c. c ∷ rest) at ∙ ap (λ p. p.0 ++ b'/' ∷ p.1) (of-some same)
  | inr other ↦ elim (Option-cases (split_slash rest)) [
    | inl none_left ↦
        let no : ◌≡◌ {A = Option (List ℕ × List ℕ)} none (some (before, digits)) =
          rw (split_slash, other, none_left) at h in
        absurd cc
    | inr ((a, b), cut) ↦
        let same : ◌≡◌ {A = Option (List ℕ × List ℕ)} (some (c ∷ a, b)) (some (before, digits)) =
          rw (split_slash, other, cut) at h in
        ap (λ l. c ∷ l) (split_slash-eq rest a b cut) ∙ ap (λ p. p.0 ++ b'/' ∷ p.1) (of-some same)
  ]
]

-- Digits that are read are those of the number.
prefix_bits-eq :
    (digits : List ℕ) (bits : ℕ) → prefix_bits digits ≡ some bits → digits ≡ decimal_of bits
unfolding prefix_bits decimal
prefix_bits-eq [] bits h = cc
prefix_bits-eq (a ∷ []) bits h = ground arith
prefix_bits-eq (a ∷ b ∷ []) bits h = ground arith
prefix_bits-eq (a ∷ b ∷ c ∷ []) bits h = ground arith
prefix_bits-eq (a ∷ b ∷ c ∷ d ∷ digits) bits h = ground arith

module _ (r : Resolver) where
  cut-DenotesCidr :
      (text before digits : List ℕ) (bits : ℕ) (whole found : Prefix)
      → text ≡ before ++ b'/' ∷ digits
      → digits ≡ decimal_of bits
      → Denotes r false before whole
      → with_bits bits whole ≡ some found
      → DenotesCidr r text found
  unfolding with_bits
  cut-DenotesCidr text before digits bits whole found split read named e =
      elim (Bool-cases (ltb (whole.length * 8) bits)) [
        | inl over ↦ let no : none ≡ some found = rw (with_bits, over) at e in absurd cc
        | inr fits ↦
            let same : some (record whole { bits = bits }) ≡ some found =
              rw (with_bits, fits) at e in
            subst (DenotesCidr r text) (of-some same) (record {
              before = before;
              whole = whole;
              written = split ∙ ap (λ l. before ++ b'/' ∷ l) read;
              named = named;
              cut = refl;
              within_size = ground arith;
            })
      ]

  -- A text that is read as a prefix says that prefix.
  pub prefix-DenotesCidr :
      (text : List ℕ) (found : Prefix) → prefix r text true ≡ some found → DenotesCidr r text found
  unfolding prefix
  prefix-DenotesCidr text found e = elim (Option-cases (split_slash text)) [
    | inl bad ↦ let no : none ≡ some found = rw (prefix, bad) at e in absurd cc
    | inr ((before, digits), cut) ↦ elim (Option-cases (prefix_bits digits)) [
      | inl bad ↦ let no : none ≡ some found = rw (prefix, cut, bad) at e in absurd cc
      | inr (bits, read) ↦ elim (Option-cases (address r before false)) [
        | inl bad ↦ let no : none ≡ some found = rw (prefix, cut, read, bad) at e in absurd cc
        | inr (whole, at) ↦
            cut-DenotesCidr text before digits bits whole found
              (split_slash-eq text before digits cut) (prefix_bits-eq digits bits read)
              (address-Denotes r before false whole at) (rw (prefix, cut, read, at) at e)
      ]
    ]
  ]

  pub prefix-Denotes :
      (text : List ℕ) (found : Prefix)
      → prefix r text false ≡ some found
      → Denotes r true text found
  unfolding prefix
  prefix-Denotes text found e = address-Denotes r text true found e

-- Prefixes, each said by the text at its place.
pub data Said (says : List ℕ → Prefix → Type 0) : List (List ℕ) → List Prefix → Type 0 where
  nil : Said says [] []
  cons :
      {text : List ℕ} {p : Prefix} {texts : List (List ℕ)} {ps : List Prefix}
      → says text p
      → Said says texts ps
      → Said says (text ∷ texts) (p ∷ ps)

-- The list of a connector's own addresses, where there is one.
abbrev pub SaidOwn : Resolver → Option (List (List ℕ)) → List Prefix → Type 0
SaidOwn r none ps = ps ≡ []
SaidOwn r (some texts) ps = Said (Denotes r true) texts ps
