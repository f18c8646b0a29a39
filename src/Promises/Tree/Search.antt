-- ===== src/Promises/Tree/Search.antt =====
-- A run of the decision tree of core/promises.c is a search of the entries, sorted by number.
use cosmic.Prelude.{
  ℕ, zero, suc, ◌+◌, ◌-◌, ◌/◌, ◌≤◌, ◌<◌, ◌≡◌, refl, sym, ap, ◌∙◌, Option, none, some, List, [], ◌∷◌,
  ◌++◌, arith, ◌==◌, leb, if◌then◌else◌, length, length-append, take, drop, get_or, Bool-cases, inl,
  inr,
}
use mathlib.Core.Path.{subst}
use mathlib.Core.List.{append_assoc}
use cosmic.Connector.Bpf.{Insn, Call, run_rest, run_rest-append, step, go}
use cosmic.Promises.Block.{insn, return_allow}
use cosmic.Promises.Block.Steps.{errno}
use cosmic.Promises.Rules.{Rule, rule_allow, rule_enosys, same_rule}
use cosmic.Promises.Tree.{Entry, leaf_run, no_entry}
use cosmic.Promises.Tree.Marks.{Mark, fixed, hole, jump, leaves_marks, tree_marks}
use cosmic.Promises.Tree.Sorted.{
  filled, filled-append, length-filled, rule_at, Ascending, led, Later, Ascending-take,
  Ascending-drop, rule_at-drop, rule_at-take,
}

step_equal :
    (c : Call) (number a : ℕ)
    → step c (insn 0x15 0 1 number) a ≡ go (if a == number then 0 else 1) a
unfolding step
step_equal c number a = refl

-- Jumping over what is filled.
run_filled :
    (c : Call) (place : Rule → ℕ) (at : ℕ) (ms : List Mark) (rest : List Insn) (k n : ℕ)
    → run_rest c (filled place at ms ++ rest) (length ms + k) n ≡ run_rest c rest k n
run_filled c place at ms rest k n =
    ap (λ l. run_rest c (filled place at ms ++ rest) (l + k) n) (sym (length-filled place at ms))
    ∙ run_rest-append c (filled place at ms) rest k n

skip_mark :
    (c : Call) (place : Rule → ℕ) (at : ℕ) (m : Mark) (marks : List Mark) (rest : List Insn) (n : ℕ)
    → run_rest c (filled place at (m ∷ marks) ++ rest) 1 n
      ≡ run_rest c (filled place (suc at) marks ++ rest) 0 n
unfolding run_rest
skip_mark c place at (fixed i) marks rest n = refl
skip_mark c place at (hole rule) marks rest n = refl

module _ (c : Call) (place : Rule → ℕ) (n : ℕ) where
  -- The second instruction of a leaf, before `rest` and its marks.
  run_leaf :
      (rule : Rule) (at : ℕ) (marks : List Mark) (rest : List Insn)
      → Later (suc at + length marks) place (some rule)
      → run_rest c
          (filled place at (
              (if same_rule rule rule_allow
                then fixed (insn 0x06 0 0 return_allow)
                else if same_rule rule rule_enosys
                then fixed (insn 0x06 0 0 (errno 38))
                else hole rule)
              ∷ marks)
            ++ rest)
          0
          n
        ≡ led c rest (suc at + length marks) place n (some rule)
  unfolding run_rest step
  run_leaf rule at marks rest later = elim (Bool-cases (same_rule rule rule_allow)) [
    | inl allowed ↦ rw allowed refl
    | inr not_allowed ↦ elim (Bool-cases (same_rule rule rule_enosys)) [
      | inl enosys ↦ rw (not_allowed, enosys) refl
      | inr held ↦
          let after = later not_allowed held in
          let far : place rule - at - 1 ≡ length marks + (place rule - (suc at + length marks)) =
            omega arith in
          rw (not_allowed, held) (rw far (run_filled c place (suc at) marks rest _ n))
    ]
  ]

  run_leaves :
      (entries : List Entry) (at stop : ℕ) (rest : List Insn)
      → stop ≡ at + length (leaves_marks entries)
      → Later stop place (rule_at n entries)
      → run_rest c (filled place at (leaves_marks entries) ++ rest) 0 n
        ≡ led c rest stop place n (rule_at n entries)
  unfolding run_rest rule_at
  run_leaves [] at stop rest stops later = refl
  run_leaves (e ∷ entries) at stop rest stops later = elim (Bool-cases (n == e.number)) [
    | inl found ↦
        let stop' : suc (suc at) + length (leaves_marks entries) ≡ stop = omega arith in
        let later' : Later stop place (some e.rule) = rw found at later in
        rw (step_equal c e.number n, found)
          (run_leaf e.rule (suc at) (leaves_marks entries) rest
              (subst (λ s. Later s place (some e.rule)) (sym stop') later')
            ∙ ap (λ s. led c rest s place n (some e.rule)) stop')
    | inr other ↦
        let later' : Later stop place (rule_at n entries) = rw other at later in
        rw (step_equal c e.number n, other)
          (skip_mark c place (suc at) _ (leaves_marks entries) rest n
            ∙ run_leaves entries (suc (suc at)) stop rest (omega arith) later')
  ]

  -- What follows a part of the tree may itself begin with marks.
  led_past :
      (found : Option Rule) (at : ℕ) (ms : List Mark) (rest : List Insn)
      → Later (at + length ms) place found
      → led c (filled place at ms ++ rest) at place n found
        ≡ led c rest (at + length ms) place n found
  led_past none at ms rest later = refl
  led_past (some rule) at ms rest later = elim (Bool-cases (same_rule rule rule_allow)) [
    | inl allowed ↦ rw allowed refl
    | inr not_allowed ↦ elim (Bool-cases (same_rule rule rule_enosys)) [
      | inl enosys ↦ rw (not_allowed, enosys) refl
      | inr held ↦
          let after = later not_allowed held in
          let far : place rule - at ≡ length ms + (place rule - (at + length ms)) = omega arith in
          rw (not_allowed, held) (rw far (run_filled c place at ms rest _ n))
    ]
  ]

  Later-weaken : (found : Option Rule) (a b : ℕ) → a ≤ b → Later b place found → Later a place found
  Later-weaken none a b le later = tt
  Later-weaken (some rule) a b le later = λ p q. let after = later p q in omega arith

  -- The two instructions that halve.
  run_halving :
      (v at : ℕ) (lower upper : List Mark) (rest : List Insn)
      → run_rest c
          (insn 0x35 0 1 v
            ∷ jump (length lower)
            ∷ (filled place (suc (suc at)) (lower ++ upper) ++ rest))
          0
          n
        ≡ (if leb v n
            then run_rest c (filled place (suc (suc at) + length lower) upper ++ rest) 0 n
            else run_rest c
                (filled place (suc (suc at)) lower
                  ++ (filled place (suc (suc at) + length lower) upper ++ rest))
                0
                n)
  unfolding run_rest step
  run_halving v at lower upper rest =
      let parts : filled place (suc (suc at)) (lower ++ upper) ++ rest
          ≡ filled place (suc (suc at)) lower
            ++ (filled place (suc (suc at) + length lower) upper ++ rest) =
        ap (λ l. l ++ rest) (filled-append place (suc (suc at)) lower upper)
        ∙ append_assoc (filled place (suc (suc at)) lower) _ rest in
      elim (Bool-cases (leb v n)) [
        | inl upward ↦
            rw (upward, parts)
              (ap
                  (λ k.
                    run_rest c
                      (filled place (suc (suc at)) lower
                        ++ (filled place (suc (suc at) + length lower) upper ++ rest))
                      k n)
                  (omega arith)
                ∙ run_filled c place (suc (suc at)) lower
                    (filled place (suc (suc at) + length lower) upper ++ rest) 0 n)
        | inr downward ↦ rw downward (ap (λ l. run_rest c l 0 n) parts)
      ]

  -- A run of the tree with the number in the accumulator.
  pub run_tree :
      (fuel : ℕ) (entries : List Entry) (at : ℕ) (rest : List Insn)
      → Ascending entries
      → Later (at + length (tree_marks fuel entries)) place (rule_at n entries)
      → run_rest c (filled place at (tree_marks fuel entries) ++ rest) 0 n
        ≡ led c rest (at + length (tree_marks fuel entries)) place n (rule_at n entries)
  unfolding tree_marks
  run_tree zero entries at rest sorted later = run_leaves entries at _ rest refl later
  run_tree (suc fuel) entries at rest sorted later =
      elim (Bool-cases (leb (length entries) leaf_run)) [
        | inl few ↦
            rw (few, tree_marks) (run_leaves entries at _ rest refl (rw (few, tree_marks) at later))
        | inr many ↦
            let middle = length entries / 2 in
            let v = (get_or entries middle no_entry).number in
            let lower = tree_marks fuel (take middle entries) in
            let upper = tree_marks fuel (drop middle entries) in
            let inside : middle < length entries = ground arith in
            let stop = at + suc (suc (length (lower ++ upper))) in
            let stops : suc (suc at) + length lower + length upper ≡ stop =
              omega (arith, length-append lower upper) in
            let later' : Later stop place (rule_at n entries) = rw (many, tree_marks) at later in
            let later'' : Later (suc (suc at) + length lower + length upper) place
                (rule_at n entries) =
              subst (λ s. Later s place (rule_at n entries)) (sym stops) later' in
            rw (many, tree_marks)
              (run_halving v at lower upper rest ∙ elim (Bool-cases (leb v n)) [
                | inl upward ↦
                    let same = rule_at-drop n middle entries inside sorted (ground arith) in
                    rw upward (
                      run_tree fuel (drop middle entries) (suc (suc at) + length lower) rest
                        (Ascending-drop middle entries sorted) (rw same at later'')
                      ∙ rw (stops, same) refl)
                | inr downward ↦
                    let same = rule_at-take n middle entries inside sorted (ground arith) in
                    let found = rule_at n (take middle entries) in
                    let after : Later (suc (suc at) + length lower + length upper) place found =
                      rw same at later'' in
                    rw downward (
                      run_tree fuel (take middle entries) (suc (suc at))
                        (filled place (suc (suc at) + length lower) upper ++ rest)
                        (Ascending-take middle entries sorted)
                        (Later-weaken found _ _ (omega arith) after)
                      ∙ led_past found (suc (suc at) + length lower) upper rest after
                      ∙ rw (stops, same) refl)
              ])
      ]
