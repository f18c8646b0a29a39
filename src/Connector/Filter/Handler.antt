-- ===== src/Connector/Filter/Handler.antt =====
-- The call connector_filter of core/connector.c, which checks ranges that a caller names and returns
-- the filter's program for them.
use cosmic.Prelude.{
  ℕ, ◌+◌, ◌-◌, ◌*◌, ◌/◌, ◌%◌, ◌^◌, ◌≤◌, ◌<◌, ◌≡◌, refl, sym, ap, ◌∙◌, Bool, not, ◌&&◌, ◌||◌, some,
  List, [], ◌∷◌, ◌==◌, ltb, arith, if◌then◌else◌, Bool-cases, inl, inr, length, bit_and, ==_iff,
  map, length-map, ◌⊎◌,
}
use mathlib.Core.Path.{subst}
use cosmic.Prelude.Bits.{bit_and-15, bit_and-31}
use cosmic.Prelude.Results.{Result, ok, err, ◌>>=◌, >>=-eq-ok}
use cosmic.Prelude.Text.{codes}
use cosmic.Connector.Bpf.{Insn, Call, run}
use cosmic.Connector.Address.{same_bytes}
use cosmic.Connector.Address.Within.{same_bytes-eq}
use cosmic.Connector.Filter.{Range, Numbers, stride, x86, arm, program}
use cosmic.Connector.Filter.Blocks.{IsRange}
use cosmic.Connector.Filter.Layout.{IsKnown}
use cosmic.Connector.Filter.Policy.{IsCall, AllRanges, nil, cons, policy, program-policy}

-- A Lua integer; `negative n` is that of -1 - n.
pub data Whole : Type 0 where
  negative : ℕ → Whole
  natural : ℕ → Whole

-- A range as the caller's table has it.
pub record Asked : Type 0 where
  pub base : Whole
  pub slots : Whole
  pub length : Whole

pub data Refused : Type 0 where
  unknown_architecture : Refused
  wrong_count : Refused
  not_int : Refused
  invalid_range : Refused
  crosses_boundary : Refused
  too_large : Refused
  too_long : Refused

abbrev pub numbers_of : List ℕ → Result Refused Numbers
numbers_of name =
    if same_bytes name (codes "x86_64")
    then ok x86
    else if same_bytes name (codes "aarch64")
    then ok arm
    else err unknown_architecture

-- The checks of one range, whose fields are not negative.
abbrev checked : ℕ → ℕ → ℕ → Result Refused Range
checked base each length =
    if not (length == 16) && not (length == 28)
    then err invalid_range
    else if base == 0 || not (bit_and base (stride length - 1) == 0) || ltb each 1 || ltb 65535 each
    then err invalid_range
    else if not (base / 2 ^ 32 == (base + each * stride length) % 2 ^ 64 / 2 ^ 32)
    then err crosses_boundary
    else ok (record { base = base; slots = each; length = length })

-- The test of cosmic_checkint.
abbrev fits_int : Whole → Bool
fits_int (negative n) = ltb n (2 ^ 31)
fits_int (natural n) = ltb n (2 ^ 31)

-- The same of a range's fields as they are.
abbrev checked_fields : Whole → Whole → Whole → Result Refused Range
checked_fields (negative n) base slots = err invalid_range
checked_fields (natural length) (negative n) slots = err invalid_range
checked_fields (natural length) (natural base) (negative n) = err invalid_range
checked_fields (natural length) (natural base) (natural each) = checked base each length

pub checked_range : Asked → Result Refused Range
checked_range asked =
    if not (fits_int asked.slots) || not (fits_int asked.length)
    then err not_int
    else checked_fields asked.length asked.base asked.slots

-- The loop over the ranges, with the bytes that they take so far.
pub ranges_from : ℕ → List Asked → Result Refused (List Range)
unfolding checked_range
ranges_from bytes [] = ok []
ranges_from bytes (asked ∷ rest) = do
  r ← checked_range asked
  let more = ranges_from (bytes + r.slots * stride r.length) rest
  if ltb 33554432 (bytes + r.slots * stride r.length)
      then err too_large
      else do rs ← more; ok (r ∷ rs)

-- connector_filter, of descriptors that cosmic_checkfd has passed.
unfoldable pub connector_filter : List ℕ → List Asked → ℕ → ℕ → Result Refused (List Insn)
unfolding ranges_from
connector_filter name asked control status = do
  numbers ← numbers_of name
  if length asked == 0 || ltb 128 (length asked) then err wrong_count else do
    ranges ← ranges_from 0 asked
    let built = program numbers ranges control status
    if built.1 == 0 then err too_long else ok built.0.insns

-- Integers of 64 bits.
abbrev pub IsWide : Whole → Type 0
IsWide (negative n) = n < 2 ^ 63
IsWide (natural n) = n < 2 ^ 63

abbrev pub AreWide : List Asked → Type 0
AreWide [] = Unit
AreWide (asked ∷ rest) = IsWide asked.base × AreWide rest

-- One range of either kind that passes.
checked_ipv4 :
    (base each : ℕ) (r : Range)
    → base < 2 ^ 63
    → checked base each 16 ≡ ok r
    → (r ≡ record { base = base; slots = each; length = 16 })
      × IsRange (record { base = base; slots = each; length = 16 })
checked_ipv4 base each r h e = (
  ground arith,
  record {
    aligned = ground (arith, bit_and-15 base);
    together = ground arith;
    below = ground arith;
    sized = inl refl;
  },
)

checked_ipv6 :
    (base each : ℕ) (r : Range)
    → base < 2 ^ 63
    → checked base each 28 ≡ ok r
    → (r ≡ record { base = base; slots = each; length = 28 })
      × IsRange (record { base = base; slots = each; length = 28 })
checked_ipv6 base each r h e = (
  ground arith,
  record {
    aligned = ground (arith, bit_and-31 base);
    together = ground arith;
    below = ground arith;
    sized = inr refl;
  },
)

-- What a caller's table says of a range that is taken.
abbrev pub asked_of : Range → Asked
asked_of r = record { base = natural r.base; slots = natural r.slots; length = natural r.length }

checked-IsRange :
    (base each length : ℕ) (r : Range)
    → base < 2 ^ 63
    → checked base each length ≡ ok r
    → (record { base = base; slots = each; length = length } ≡ r) × IsRange r
checked-IsRange base each length r h e = elim (Bool-cases (length == 16)) [
  | inl same ↦
      let size = (==_iff length 16).0 same in
      let (e', v) = checked_ipv4 base each r h (subst (λ l. checked base each l ≡ ok r) size e) in
      (
        ap (λ l. record { base = base; slots = each; length = l }) size ∙ sym e',
        subst IsRange (sym e') v,
      )
  | inr other ↦ elim (Bool-cases (length == 28)) [
    | inl same ↦
        let size = (==_iff length 28).0 same in
        let (e', v) = checked_ipv6 base each r h (subst (λ l. checked base each l ≡ ok r) size e) in
        (
          ap (λ l. record { base = base; slots = each; length = l }) size ∙ sym e',
          subst IsRange (sym e') v,
        )
    | inr neither ↦ absurd (ground arith)
  ]
]

checked_fields-IsRange :
    (length base slots : Whole) (r : Range)
    → IsWide base
    → checked_fields length base slots ≡ ok r
    → (asked_of r ≡ record { base = base; slots = slots; length = length }) × IsRange r
checked_fields-IsRange (negative n) base slots r h e = cc
checked_fields-IsRange (natural length) (negative n) slots r h e = cc
checked_fields-IsRange (natural length) (natural base) (negative n) r h e = cc
checked_fields-IsRange (natural length) (natural base) (natural each) r h e =
    let (same, v) = checked-IsRange base each length r h e in (ap asked_of (sym same), v)

checked_range-IsRange :
    (asked : Asked) (r : Range)
    → IsWide asked.base
    → checked_range asked ≡ ok r
    → (asked_of r ≡ asked) × IsRange r
unfolding checked_range
checked_range-IsRange asked r h e =
    elim (Bool-cases (not (fits_int asked.slots) || not (fits_int asked.length))) [
      | inl bad ↦ let no : err not_int ≡ ok r = rw (checked_range, bad) at e in absurd cc
      | inr good ↦
          checked_fields-IsRange asked.length asked.base asked.slots r h
            (rw (checked_range, good) at e)
    ]

ranges_from-AllRanges :
    (bytes : ℕ) (asked : List Asked) (ranges : List Range)
    → AreWide asked
    → ranges_from bytes asked ≡ ok ranges
    → AllRanges ranges × (map asked_of ranges ≡ asked)
unfolding ranges_from
ranges_from-AllRanges bytes [] ranges wide e =
    let none_left : [] ≡ ranges = ground arith in
    subst (λ rs. AllRanges rs × (map asked_of rs ≡ [])) none_left (nil, refl)
ranges_from-AllRanges bytes (asked ∷ rest) ranges wide e =
    let (r, first, e₁) = >>=-eq-ok (checked_range asked) _ e in
    let total = bytes + r.slots * stride r.length in
    elim (Bool-cases (ltb 33554432 total)) [
      | inl over ↦ let no : err too_large ≡ ok ranges = rw over at e₁ in absurd cc
      | inr fits ↦
          let e₂ : (ranges_from total rest >>= λ rs. ok (r ∷ rs)) ≡ ok ranges = rw fits at e₁ in
          let (rs, more, e₃) = >>=-eq-ok (ranges_from total rest) (λ rs. ok (r ∷ rs)) e₂ in
          let (all, same) = ranges_from-AllRanges total rest rs wide.1 more in
          let (said, valid) = checked_range-IsRange asked r wide.0 first in
          let whole : r ∷ rs ≡ ranges = ground arith in
          subst (λ l. AllRanges l × (map asked_of l ≡ asked ∷ rest)) whole
            (cons valid all, ap (λ a. a ∷ map asked_of rs) said ∙ ap (λ l. asked ∷ l) same)
    ]

-- The parts of a call of connector_filter that returns.
connector_filter-parts :
    (name : List ℕ) (asked : List Asked) (control status : ℕ) (code : List Insn)
    → connector_filter name asked control status ≡ ok code
    → (n : Numbers) × (ranges : List Range) × (numbers_of name ≡ ok n)
      × (ranges_from 0 asked ≡ ok ranges)
      × (length asked ≤ 128)
      × ((program n ranges control status).0.insns ≡ code)
unfolding connector_filter
connector_filter-parts name asked control status code e =
    let (n, known, e₁) = >>=-eq-ok (numbers_of name) _ e in
    elim (Bool-cases (length asked == 0 || ltb 128 (length asked))) [
      | inl bad ↦ let no : err wrong_count ≡ ok code = rw bad at e₁ in absurd cc
      | inr good ↦
          let (ranges, made, e₂) = >>=-eq-ok (ranges_from 0 asked) _ (rw good at e₁) in
          elim (Bool-cases ((program n ranges control status).1 == 0)) [
            | inl long ↦ let no : err too_long ≡ ok code = rw long at e₂ in absurd cc
            | inr fits ↦
                let built : ok (program n ranges control status).0.insns ≡ ok code =
                  rw fits at e₂ in
                (n, ranges, known, made, ground arith, ground arith)
          ]
    ]

-- The architecture that a name stands for, and its numbers.
abbrev pub IsNamed : List ℕ → Numbers → Type 0
IsNamed name n = ((name ≡ codes "x86_64") × (n ≡ x86)) ⊎ ((name ≡ codes "aarch64") × (n ≡ arm))

numbers_of-IsNamed : (name : List ℕ) (n : Numbers) → numbers_of name ≡ ok n → IsNamed name n
numbers_of-IsNamed name n e = elim (Bool-cases (same_bytes name (codes "x86_64"))) [
  | inl x ↦ let known : ok x86 ≡ ok n = rw x at e in inl (same_bytes-eq name (codes "x86_64") x, cc)
  | inr other ↦ elim (Bool-cases (same_bytes name (codes "aarch64"))) [
    | inl a ↦
        let known : ok arm ≡ ok n = rw (other, a) at e in
        inr (same_bytes-eq name (codes "aarch64") a, cc)
    | inr neither ↦ let no : err unknown_architecture ≡ ok n = rw (other, neither) at e in absurd cc
  ]
]

IsNamed-IsKnown : (name : List ℕ) (n : Numbers) → IsNamed name n → IsKnown n
IsNamed-IsKnown name n (inl (_, known)) = inl known
IsNamed-IsKnown name n (inr (_, known)) = inr known

-- A program that connector_filter returns, for ranges whose fields `base` are 64-bit integers
-- and for descriptors below 2^32, decides on every call the policy of the numbers of the
-- architecture that the name says and of ranges with the base, the slots and the length of
-- those that were asked for, each in its place; the filter can express all of them.
pub connector_filter-policy :
    (name : List ℕ) (asked : List Asked) (control status : ℕ) (code : List Insn)
    → AreWide asked
    → control < 2 ^ 32
    → status < 2 ^ 32
    → connector_filter name asked control status ≡ ok code
    → (n : Numbers) × (ranges : List Range) × IsNamed name n
      × (map asked_of ranges ≡ asked)
      × AllRanges ranges
      × ((c : Call) → IsCall c → run c code ≡ some (policy n ranges control status c))
connector_filter-policy name asked control status code wide fits fits' e =
    let (n, ranges, known, made, few, built) =
      connector_filter-parts name asked control status code e in
    let (all, same) = ranges_from-AllRanges 0 asked ranges wide made in
    let counted : length ranges ≡ length asked =
      sym (length-map ranges asked_of) ∙ ap length same in
    let named = numbers_of-IsNamed name n known in
    (
      n,
      ranges,
      named,
      same,
      all,
      λ c valid.
          ap (run c) (sym built)
          ∙ program-policy n ranges control status c (IsNamed-IsKnown name n named) all
              (omega arith) fits fits' valid,
    )
