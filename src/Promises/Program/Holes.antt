-- ===== src/Promises/Program/Holes.antt =====
-- How long the decision tree of core/promises.c is, which rules it jumps to, and its jumps pointed at
-- the rules' blocks.
use cosmic.Prelude.{
  ℕ, zero, suc, ◌+◌, ◌-◌, ◌*◌, ◌/◌, ◌%◌, ◌^◌, ◌≤◌, ◌<◌, ◌≡◌, refl, sym, ap, ◌∙◌, Bool, true, false,
  ◌||◌, List, [], ◌∷◌, ◌++◌, map, arith, leb, length, length-append, length-take, length-drop, take,
  drop, take-append-drop, Bool-cases, inl, inr, some, ◌==◌,
}
use mathlib.Core.List.{append_assoc}
use cosmic.Connector.Bpf.{Insn}
use cosmic.Promises.Block.Performed.{ready}
use cosmic.Promises.Rules.{Rule, rule_allow, rule_enosys, same_rule}
use cosmic.Promises.Tree.{Entry, leaf_run, set_k}
use cosmic.Promises.Tree.Marks.{
  Mark, fixed, hole, jump, erased, holes, leaves_marks, tree_marks, set_k_lem,
}
use cosmic.Promises.Tree.Sorted.{filled, rule_at}
use cosmic.Promises.Program.{needed, point_pending}

length-leaves_marks :
    (entries : List Entry) → length (leaves_marks entries) ≡ 2 * length entries + 1
length-leaves_marks [] = refl
length-leaves_marks (e ∷ entries) = omega (arith, length-leaves_marks entries)

-- Two instructions for each entry, two for each halving, and a denial for each run of leaves.
length-tree_marks_two :
    (fuel : ℕ) (entries : List Entry)
    → 2 ≤ length entries
    → length (tree_marks fuel entries) + 2 ≤ 4 * length entries
unfolding tree_marks
length-tree_marks_two zero entries two = omega (arith, length-leaves_marks entries)
length-tree_marks_two (suc fuel) entries two = elim (Bool-cases (leb (length entries) leaf_run)) [
  | inl few ↦ rw (few, tree_marks) (omega (arith, length-leaves_marks entries))
  | inr many ↦
      let middle = length entries / 2 in
      let lower = tree_marks fuel (take middle entries) in
      let upper = tree_marks fuel (drop middle entries) in
      let low_size : length (take middle entries) ≡ middle =
        ground (arith, length-take middle entries) in
      let up_size : length (drop middle entries) ≡ length entries - middle =
        length-drop middle entries in
      let big : 4 < length entries = ground arith in
      let low = length-tree_marks_two fuel (take middle entries) (omega arith) in
      let up = length-tree_marks_two fuel (drop middle entries) (omega arith) in
      rw (many, tree_marks) (omega (arith, length-append lower upper))
]

length-tree_marks_few :
    (fuel : ℕ) (entries : List Entry) → length entries ≤ 1 → length (tree_marks fuel entries) ≤ 3
unfolding tree_marks
length-tree_marks_few zero entries few = omega (arith, length-leaves_marks entries)
length-tree_marks_few (suc fuel) entries few =
    let short : leb (length entries) leaf_run ≡ true = ground arith in
    rw (short, tree_marks) (omega (arith, length-leaves_marks entries))

pub length-tree_marks :
    (fuel : ℕ) (entries : List Entry) → length (tree_marks fuel entries) ≤ 4 * length entries + 3
length-tree_marks fuel entries = elim (Bool-cases (leb (length entries) 1)) [
  | inl few ↦ let short = length-tree_marks_few fuel entries (ground arith) in omega arith
  | inr two ↦ let long = length-tree_marks_two fuel entries (ground arith) in omega arith
]

-- Whether a rule is jumped to.
abbrev has_hole : List Mark → Rule → Bool
has_hole [] rule = false
has_hole (fixed i ∷ marks) rule = has_hole marks rule
has_hole (hole r ∷ marks) rule = same_rule rule r || has_hole marks rule

abbrev has_rule : List Entry → Rule → Bool
has_rule [] rule = false
has_rule (e ∷ entries) rule = same_rule rule e.rule || has_rule entries rule

or_assoc : (a b c : Bool) → ((a || b) || c) ≡ (a || (b || c))
or_assoc true b c = refl
or_assoc false b c = refl

has_hole-append :
    (ms ns : List Mark) (rule : Rule)
    → has_hole (ms ++ ns) rule ≡ (has_hole ms rule || has_hole ns rule)
has_hole-append [] ns rule = refl
has_hole-append (fixed i ∷ ms) ns rule = has_hole-append ms ns rule
has_hole-append (hole r ∷ ms) ns rule =
    ap (λ b. same_rule rule r || b) (has_hole-append ms ns rule)
    ∙ sym (or_assoc (same_rule rule r) _ _)

has_rule-append :
    (es fs : List Entry) (rule : Rule)
    → has_rule (es ++ fs) rule ≡ (has_rule es rule || has_rule fs rule)
has_rule-append [] fs rule = refl
has_rule-append (e ∷ es) fs rule =
    ap (λ b. same_rule rule e.rule || b) (has_rule-append es fs rule)
    ∙ sym (or_assoc (same_rule rule e.rule) _ _)

same_rule_other :
    (a b t : Rule) → same_rule b t ≡ true → same_rule a t ≡ false → same_rule a b ≡ false
unfolding same_rule
same_rule_other a b t p q = ground arith

pub same_rule_self : (a : Rule) → same_rule a a ≡ true
unfolding same_rule
same_rule_self a = ground arith

module _ (rule : Rule) (held : same_rule rule rule_allow ≡ false)
    (slow : same_rule rule rule_enosys ≡ false) where
  -- A rule that is neither allowed whole nor answered ENOSYS is jumped to where an entry has it.
  has_hole-leaves :
      (entries : List Entry) → has_hole (leaves_marks entries) rule ≡ has_rule entries rule
  has_hole-leaves [] = refl
  has_hole-leaves (e ∷ entries) = elim (Bool-cases (same_rule e.rule rule_allow)) [
    | inl whole ↦
        rw (whole, same_rule_other rule e.rule rule_allow whole held) (has_hole-leaves entries)
    | inr part ↦ elim (Bool-cases (same_rule e.rule rule_enosys)) [
      | inl enosys ↦
          rw (part, enosys, same_rule_other rule e.rule rule_enosys enosys slow)
            (has_hole-leaves entries)
      | inr block ↦
          rw (part, block) (ap (λ b. same_rule rule e.rule || b) (has_hole-leaves entries))
    ]
  ]

  has_hole-tree :
      (fuel : ℕ) (entries : List Entry)
      → has_hole (tree_marks fuel entries) rule ≡ has_rule entries rule
  unfolding tree_marks
  has_hole-tree zero entries = has_hole-leaves entries
  has_hole-tree (suc fuel) entries = elim (Bool-cases (leb (length entries) leaf_run)) [
    | inl few ↦ rw (few, tree_marks) (has_hole-leaves entries)
    | inr many ↦
        let middle = length entries / 2 in
        rw (many, tree_marks)
          (has_hole-append (tree_marks fuel (take middle entries))
              (tree_marks fuel (drop middle entries)) rule
            ∙ rw
                (has_hole-tree fuel (take middle entries), has_hole-tree fuel (drop middle entries))
                (sym (has_rule-append (take middle entries) (drop middle entries) rule)
                  ∙ ap (λ l. has_rule l rule) (take-append-drop middle entries)))
  ]

or_true : (b : Bool) → (b || true) ≡ true
or_true true = refl
or_true false = refl

rule_at-has_rule :
    (n : ℕ) (entries : List Entry) (rule : Rule)
    → rule_at n entries ≡ some rule
    → has_rule entries rule ≡ true
unfolding rule_at
rule_at-has_rule n [] rule found = cc
rule_at-has_rule n (e ∷ entries) rule found = elim (Bool-cases (n == e.number)) [
  | inl here ↦
      let same : e.rule ≡ rule = some-injective (rw here at found) in
      rw same (rw (same_rule_self rule) refl)
  | inr there ↦
      let more : has_rule entries rule ≡ true =
        rule_at-has_rule n entries rule (rw there at found) in
      rw more (or_true (same_rule rule e.rule))
]
  where
    some-injective : {a b : Rule} → some a ≡ some b → a ≡ b
    some-injective h = cc

needed-holes :
    (at : ℕ) (ms : List Mark) (rule : Rule) → needed (holes at ms) rule ≡ has_hole ms rule
unfolding needed
needed-holes at [] rule = refl
needed-holes at (fixed i ∷ ms) rule = needed-holes (suc at) ms rule
needed-holes at (hole r ∷ ms) rule = ap (λ b. same_rule rule r || b) (needed-holes (suc at) ms rule)

-- The rule of a number, where it takes a block, has a pending jump.
pub rule_at-needed :
    (fuel at n : ℕ) (entries : List Entry) (rule : Rule)
    → rule_at n entries ≡ some rule
    → same_rule rule rule_allow ≡ false
    → same_rule rule rule_enosys ≡ false
    → needed (holes at (tree_marks fuel entries)) rule ≡ true
rule_at-needed fuel at n entries rule found held slow =
    needed-holes at (tree_marks fuel entries) rule
    ∙ has_hole-tree rule held slow fuel entries
    ∙ rule_at-has_rule n entries rule found

-- The jumps that are pointed at their blocks, which stand after `stop`.
point_marks :
    (xs ys : List Insn) (place : Rule → ℕ) (stop : ℕ) (ms : List Mark)
    → length xs + length ms ≤ stop
    → ((rule : Rule) → has_hole ms rule ≡ true → (stop ≤ place rule) × (place rule < 2 ^ 32))
    → point_pending (ready (xs ++ (map erased ms ++ ys))) place (holes (length xs) ms)
      ≡ ready (xs ++ (filled place (length xs) ms ++ ys))
unfolding point_pending
point_marks xs ys place stop [] short after = refl
point_marks xs ys place stop (fixed i ∷ ms) short after =
    let longer : length (xs ++ i ∷ []) ≡ suc (length xs) =
      omega (arith, length-append xs (i ∷ [])) in
    let more = point_marks (xs ++ i ∷ []) ys place stop ms (omega arith) after in
    rw
      (
        longer,
        append_assoc xs (i ∷ []) (map erased ms ++ ys),
        append_assoc xs (i ∷ []) (filled place (suc (length xs)) ms ++ ys),
      )
      at more
point_marks xs ys place stop (hole rule ∷ ms) short after =
    let i = jump (place rule - length xs - 1) in
    let longer : length (xs ++ i ∷ []) ≡ suc (length xs) =
      omega (arith, length-append xs (i ∷ [])) in
    let (late, fits) = after rule (rw (same_rule_self rule) refl) in
    let distance : (place rule + 2 ^ 64 - length xs - 1) % 2 ^ 32 ≡ place rule - length xs - 1 =
      omega arith in
    let more =
      point_marks (xs ++ i ∷ []) ys place stop ms (omega arith)
        (λ r p. after r (rw p (or_true (same_rule r rule)))) in
    let rest = holes (suc (length xs)) ms in
    ap
      (λ d.
        point_pending (set_k (ready (xs ++ jump 0 ∷ (map erased ms ++ ys))) (length xs) d) place
          rest)
      distance
    ∙ ap (λ b. point_pending b place rest)
        (set_k_lem xs (map erased ms ++ ys) (jump 0) (place rule - length xs - 1))
    ∙ rw
        (
          longer,
          append_assoc xs (i ∷ []) (map erased ms ++ ys),
          append_assoc xs (i ∷ []) (filled place (suc (length xs)) ms ++ ys),
        )
        at more

-- Every pending jump of the tree, pointed at its rule's block after the tree.
pub point_tree :
    (xs ys : List Insn) (place : Rule → ℕ) (ms : List Mark)
    → ((rule : Rule)
        → needed (holes (length xs) ms) rule ≡ true
        → (length xs + length ms ≤ place rule) × (place rule < 2 ^ 32))
    → point_pending (ready (xs ++ (map erased ms ++ ys))) place (holes (length xs) ms)
      ≡ ready (xs ++ (filled place (length xs) ms ++ ys))
point_tree xs ys place ms after =
    point_marks xs ys place (length xs + length ms) ms (omega arith)
      (λ rule has. after rule (needed-holes (length xs) ms rule ∙ has))
