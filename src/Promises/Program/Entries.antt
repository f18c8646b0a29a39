-- ===== src/Promises/Program/Entries.antt =====
-- The entries of core/promises.c's program_for: sorted by number, and a number's rule among them is
-- its call's.
use cosmic.Prelude.{
  ℕ, suc, ◌+◌, ◌≤◌, ◌≡◌, refl, sym, ap, ◌∙◌, Bool, true, false, ◌&&◌, Option, none, some, List, [],
  ◌∷◌, arith, ◌==◌, if◌then◌else◌, length, length-rev_onto, Bool-cases, Option-cases, inl, inr,
  ==_iff,
}
use cosmic.Promises.Calls.{Call, all_calls}
use cosmic.Promises.Calls.Numbers.{x86_64_number, aarch64_number}
use cosmic.Promises.Rules.{Rule, rule_none, same_rule}
use cosmic.Promises.Program.{RuleOf, numbers_of, shift_in, entered, collect, entries_for}
use cosmic.Promises.Tree.{Entry}
use cosmic.Promises.Tree.Sorted.{rule_at, Ascending}
use cosmic.Promises.Program.Sorted.{
  Descending, Descending-shift_in, rule_at-shift_in, Apart-nil, Ascending-rev_onto, or_else,
  rule_at-rev_onto,
}

-- The first call of a number.
unfoldable pub numbered : (Call → Option ℕ) → ℕ → List Call → Option Call
numbered numbers n [] = none
numbered numbers n (call ∷ calls) = elim (numbers call) [
  | none ↦ numbered numbers n calls
  | some m ↦ if n == m then some call else numbered numbers n calls
]

abbrev is_none : Option Call → Bool
is_none none = true
is_none (some call) = false

-- No number stands for two calls.
unfoldable pub distinct : (Call → Option ℕ) → List Call → Bool
unfolding numbered
distinct numbers [] = true
distinct numbers (call ∷ calls) = elim (numbers call) [
  | none ↦ distinct numbers calls
  | some m ↦ is_none (numbered numbers m calls) && distinct numbers calls
]

-- The rule of a call that has one.
abbrev pub granted : RuleOf → Option Call → Option Rule
granted rules none = none
granted rules (some call) = if same_rule (rules call) rule_none then none else some (rules call)

abbrev later_or : RuleOf → Option Call → Option Rule → Option Rule
later_or rules none here = here
later_or rules (some call) here = granted rules (some call)

module _ (rules : RuleOf) (numbers : Call → Option ℕ) where
  record IsSorted (calls : List Call) (entries : List Entry) : Type 0 where
    down : Descending entries
    apart : distinct numbers calls ≡ true
    fresh : (n : ℕ) (call : Call) → numbered numbers n calls ≡ some call → rule_at n entries ≡ none

  numbered-none :
      (call : Call) (calls : List Call) (n : ℕ)
      → numbers call ≡ none
      → numbered numbers n (call ∷ calls) ≡ numbered numbers n calls
  unfolding numbered
  numbered-none call calls n e = rw (e, numbered) refl

  numbered-some :
      (call : Call) (calls : List Call) (n m : ℕ)
      → numbers call ≡ some m
      → numbered numbers n (call ∷ calls) ≡ (if n == m then some call else numbered numbers n calls)
  unfolding numbered
  numbered-some call calls n m e = rw (e, numbered) refl

  distinct-none :
      (call : Call) (calls : List Call)
      → numbers call ≡ none
      → distinct numbers (call ∷ calls) ≡ true
      → distinct numbers calls ≡ true
  unfolding distinct
  distinct-none call calls e h = rw (e, distinct) at h

  distinct-some :
      (call : Call) (calls : List Call) (m : ℕ)
      → numbers call ≡ some m
      → distinct numbers (call ∷ calls) ≡ true
      → (numbered numbers m calls ≡ none) × (distinct numbers calls ≡ true)
  unfolding distinct
  distinct-some call calls m e h =
      both (numbered numbers m calls) (distinct numbers calls) (rw (e, distinct) at h)
    where
      both :
          (found : Option Call) (rest : Bool)
          → (is_none found && rest) ≡ true
          → (found ≡ none) × (rest ≡ true)
      both none rest p = (refl, p)
      both (some c) rest p = absurd cc

  entered-none :
      (call : Call) (entries : List Entry)
      → numbers call ≡ none
      → entered rules numbers call entries ≡ entries
  unfolding entered
  entered-none call entries e = elim (Bool-cases (same_rule (rules call) rule_none)) [
    | inl unruled ↦ rw (unruled, entered) refl
    | inr ruled ↦ rw (ruled, e, entered) refl
  ]

  entered-some :
      (call : Call) (entries : List Entry) (m : ℕ)
      → numbers call ≡ some m
      → entered rules numbers call entries ≡ (
          if same_rule (rules call) rule_none
          then entries
          else shift_in entries (record { number = m; rule = rules call }))
  unfolding entered
  entered-some call entries m e = rw (e, entered) refl

  abbrev Kept : Call → List Call → List Entry → Type 0
  Kept call calls entries =
      IsSorted calls (entered rules numbers call entries)
      × ((n : ℕ)
          → later_or rules (numbered numbers n calls)
              (rule_at n (entered rules numbers call entries))
            ≡ later_or rules (numbered numbers n (call ∷ calls)) (rule_at n entries))

  -- A call with no number changes nothing.
  entered-unnumbered :
      (call : Call) (calls : List Call) (entries : List Entry)
      → IsSorted (call ∷ calls) entries
      → numbers call ≡ none
      → Kept call calls entries
  entered-unnumbered call calls entries s e = rw (entered-none call entries e) (
    record {
      down = s.down;
      apart = distinct-none call calls e s.apart;
      fresh = λ n c found. s.fresh n c (numbered-none call calls n e ∙ found);
    },
    λ n. ap (λ f. later_or rules f (rule_at n entries)) (sym (numbered-none call calls n e)),
  )

  module _ (call : Call) (calls : List Call) (entries : List Entry)
      (s : IsSorted (call ∷ calls) entries) (m : ℕ) (e : numbers call ≡ some m) where
    -- No later call has the number, and no entry has it yet.
    fresh_number : rule_at m entries ≡ none
    fresh_number = s.fresh m call (numbered-some call calls m m e ∙ rw ((==_iff m m).1 refl) refl)

    later_number : (n : ℕ) (c : Call) → numbered numbers n calls ≡ some c → (n == m) ≡ false
    later_number n c found = elim (Bool-cases (n == m)) [
      | inr other ↦ other
      | inl same ↦
          let clash : numbered numbers m calls ≡ some c =
            ap (λ k. numbered numbers k calls) (sym ((==_iff n m).0 same)) ∙ found in
          absurd (none-ne (sym (distinct-some call calls m e s.apart).0 ∙ clash))
    ]
      where
        none-ne : none ≡ some c → ⊥
        none-ne h = cc

    later_fresh : (n : ℕ) (c : Call) → numbered numbers n calls ≡ some c → rule_at n entries ≡ none
    later_fresh n c found =
        s.fresh n c (numbered-some call calls n m e ∙ rw (later_number n c found) found)

    -- A call that no table grants.
    entered-ungranted : same_rule (rules call) rule_none ≡ true → Kept call calls entries
    entered-ungranted unruled =
        rw (entered-some call entries m e, unruled)
          (
            record {
              down = s.down;
              apart = (distinct-some call calls m e s.apart).1;
              fresh = later_fresh;
            },
            λ n. rw (numbered-some call calls n m e) (elim (Bool-cases (n == m)) [
              | inl same ↦
                  let at_m = (==_iff n m).0 same in
                  rw (same, unruled)
                    (rw (at_m, (distinct-some call calls m e s.apart).0) fresh_number)
              | inr other ↦ rw other refl
            ]),
          )

    entered-granted : same_rule (rules call) rule_none ≡ false → Kept call calls entries
    entered-granted ruled =
        let new : Entry = record { number = m; rule = rules call } in
        rw (entered-some call entries m e, ruled)
          (
            record {
              down = Descending-shift_in entries new s.down fresh_number;
              apart = (distinct-some call calls m e s.apart).1;
              fresh = λ n c found.
                  rw (rule_at-shift_in n entries new fresh_number, later_number n c found)
                    (later_fresh n c found);
            },
            λ n.
                rw (numbered-some call calls n m e, rule_at-shift_in n entries new fresh_number)
                  (elim (Bool-cases (n == m)) [
                    | inl same ↦
                        let at_m = (==_iff n m).0 same in
                        rw (same, ruled) (rw (at_m, (distinct-some call calls m e s.apart).0) refl)
                    | inr other ↦ rw other refl
                  ]),
          )

  -- One round.
  entered-IsSorted :
      (call : Call) (calls : List Call) (entries : List Entry)
      → IsSorted (call ∷ calls) entries
      → Kept call calls entries
  entered-IsSorted call calls entries s = elim (Option-cases (numbers call)) [
    | inl e ↦ entered-unnumbered call calls entries s e
    | inr (m, e) ↦ elim (Bool-cases (same_rule (rules call) rule_none)) [
      | inl unruled ↦ entered-ungranted call calls entries s m e unruled
      | inr ruled ↦ entered-granted call calls entries s m e ruled
    ]
  ]

  collect_lem :
      (calls : List Call) (entries : List Entry)
      → IsSorted calls entries
      → Descending (collect rules numbers calls entries)
        × ((n : ℕ)
            → rule_at n (collect rules numbers calls entries)
              ≡ later_or rules (numbered numbers n calls) (rule_at n entries))
  unfolding collect numbered
  collect_lem [] entries s = (s.down, λ n. refl)
  collect_lem (call ∷ calls) entries s =
      let (s', same) = entered-IsSorted call calls entries s in
      let (down, found) = collect_lem calls (entered rules numbers call entries) s' in
      (down, λ n. found n ∙ same n)

x86_64-distinct : distinct (numbers_of false) all_calls ≡ true
unfolding distinct x86_64_number
x86_64-distinct = refl

aarch64-distinct : distinct (numbers_of true) all_calls ≡ true
unfolding distinct aarch64_number
aarch64-distinct = refl

numbers_of-distinct : (arm : Bool) → distinct (numbers_of arm) all_calls ≡ true
numbers_of-distinct true = aarch64-distinct
numbers_of-distinct false = x86_64-distinct

or_else-none : (found : Option Rule) → or_else found none ≡ found
or_else-none none = refl
or_else-none (some rule) = refl

later_or-none :
    (rules : RuleOf) (found : Option Call) → later_or rules found none ≡ granted rules found
later_or-none rules none = refl
later_or-none rules (some call) = refl

module _ (rules : RuleOf) (arm : Bool) where
  all-IsSorted : IsSorted rules (numbers_of arm) all_calls []
  unfolding rule_at
  all-IsSorted = record { down = tt; apart = numbers_of-distinct arm; fresh = λ n call found. refl }

  -- Whatever the rules of the calls are, the entries that a program is built of are in the
  -- order of their numbers, no number twice, on both architectures.
  pub entries_for-Ascending : Ascending (entries_for rules (numbers_of arm))
  unfolding entries_for
  entries_for-Ascending =
      let (down, _) = collect_lem rules (numbers_of arm) all_calls [] all-IsSorted in
      Ascending-rev_onto (collect rules (numbers_of arm) all_calls []) [] down tt (Apart-nil _)

  -- A number's rule among the entries is the rule of the call that the number is of.
  pub rule_at-entries_for :
      (n : ℕ)
      → rule_at n (entries_for rules (numbers_of arm))
        ≡ granted rules (numbered (numbers_of arm) n all_calls)
  unfolding entries_for rule_at
  rule_at-entries_for n =
      let (down, found) = collect_lem rules (numbers_of arm) all_calls [] all-IsSorted in
      rule_at-rev_onto n (collect rules (numbers_of arm) all_calls []) [] down
      ∙ or_else-none _
      ∙ found n
      ∙ later_or-none rules (numbered (numbers_of arm) n all_calls)

length-shift_in :
    (entries : List Entry) (e : Entry) → length (shift_in entries e) ≡ suc (length entries)
unfolding shift_in
length-shift_in [] e = refl
length-shift_in (x ∷ entries) e = ground (arith, length-shift_in entries e)

length-entered :
    (rules : RuleOf) (numbers : Call → Option ℕ) (call : Call) (entries : List Entry)
    → length (entered rules numbers call entries) ≤ suc (length entries)
unfolding entered
length-entered rules numbers call entries = elim (Option-cases (numbers call)) [
  | inl e ↦ rw (e, entered) (ground arith)
  | inr (m, e) ↦
      rw (e, entered)
        (ground (arith, length-shift_in entries (record { number = m; rule = rules call })))
]

length-collect :
    (rules : RuleOf) (numbers : Call → Option ℕ) (calls : List Call) (entries : List Entry)
    → length (collect rules numbers calls entries) ≤ length calls + length entries
unfolding collect
length-collect rules numbers [] entries = omega arith
length-collect rules numbers (call ∷ calls) entries =
    let more = length-collect rules numbers calls (entered rules numbers call entries) in
    let one : length (entered rules numbers call entries) ≤ suc (length entries) =
      length-entered rules numbers call entries in
    omega arith

pub length-entries_for :
    (rules : RuleOf) (numbers : Call → Option ℕ) → length (entries_for rules numbers) ≤ 385
unfolding entries_for
length-entries_for rules numbers = omega (
  arith,
  length-rev_onto (collect rules numbers all_calls []) [],
  length-collect rules numbers all_calls [],
)
