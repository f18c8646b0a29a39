-- ===== src/Promises/Program/Places.antt =====
-- Where program_for of core/promises.c puts the blocks of the rules.
use cosmic.Prelude.{
  ℕ, ◌+◌, ◌-◌, ◌*◌, ◌^◌, ◌≤◌, ◌<◌, ◌≡◌, refl, sym, ap, ◌∙◌, Bool, true, false, ◌||◌, some, List, [],
  ◌∷◌, ◌++◌, arith, if◌then◌else◌, length, length-append, get_or, Bool-cases, inl, inr, ==_iff,
}
use mathlib.Core.Path.{subst}
use mathlib.Core.List.{append_assoc, append-nil}
use cosmic.Connector.Bpf.{Insn, Call, run_rest, run_rest-append}
use cosmic.Promises.Block.{insn, return_allow}
use cosmic.Promises.Block.Performed.{ready, laid_all, laid_block}
use cosmic.Promises.Block.Layout.{rule_block_lem, length-rule_steps}
use cosmic.Promises.Block.Verdict.{meaning, laid_block-run, rule_steps-known, length-laid_all}
use cosmic.Promises.Block.Steps.{rule_steps, rule_denial}
use cosmic.Promises.Rules.{Rule, rule_none, rank, same_rule, all_rules}
use cosmic.Promises.Program.{block_round, blocks}

-- The rule of a rank.
unranked : (rule : Rule) → get_or all_rules (rank rule) rule_none ≡ rule
unfolding rank
unranked rule_none = refl
unranked rule = refl

pub same_rule-eq : (a b : Rule) → same_rule a b ≡ true → a ≡ b
unfolding same_rule
same_rule-eq a b same =
    sym (unranked a)
    ∙ ap (λ n. get_or all_rules n rule_none) ((==_iff (rank a) (rank b)).0 same)
    ∙ unranked b

abbrev pub has : List Rule → Rule → Bool
has [] rule = false
has (r ∷ rules) rule = same_rule rule r || has rules rule

pub has_all : (rule : Rule) → has all_rules rule ≡ true
unfolding same_rule
has_all rule_none = refl
has_all rule = refl

abbrev no_call : Call
no_call = record { number = 0; architecture = 0; args = λ n. 0 }

module _ (pid : ℕ) (arm : Bool) where
  abbrev pub block_of : Rule → List Insn
  block_of rule = laid_block (rule_steps rule pid arm) (rule_denial rule)

  length-block_of : (rule : Rule) → length (block_of rule) ≤ 26
  length-block_of rule = omega (
    arith,
    length-rule_steps rule pid arm,
    length-append (laid_all (rule_steps rule pid arm))
        (insn 0x06 0 0 (rule_denial rule) ∷ insn 0x06 0 0 return_allow ∷ []),
    length-laid_all (rule_steps rule pid arm),
  )

  module _ (need : Rule → Bool) where
    -- The blocks of the needed rules, and the place of each after the loop.
    abbrev pub blocks_code : List Rule → List Insn
    blocks_code [] = []
    blocks_code (rule ∷ rules) =
        if need rule then block_of rule ++ blocks_code rules else blocks_code rules

    abbrev pub placed : ℕ → (Rule → ℕ) → List Rule → Rule → ℕ
    placed at places [] = places
    placed at places (rule ∷ rules) =
        placed (if need rule then at + length (block_of rule) else at)
          (if need rule then (λ r. if same_rule r rule then at else places r) else places) rules

    pub blocks_lem :
        (xs : List Insn) (places : Rule → ℕ) (rules : List Rule)
        → length xs + 26 * length rules ≤ 4096
        → blocks (ready xs) places need pid arm rules
          ≡ (ready (xs ++ blocks_code rules), placed (length xs) places rules)
    unfolding blocks block_round
    blocks_lem xs places [] room = rw (append-nil xs)
    blocks_lem xs places (rule ∷ rules) room = elim (Bool-cases (need rule)) [
      | inr idle ↦ rw (idle, block_round) (blocks_lem xs places rules (omega arith))
      | inl used ↦
          let here = block_of rule in
          let sized : length (xs ++ here) ≡ length xs + length here = length-append xs here in
          let small = length-block_of rule in
          rw (used, block_round)
            (rw (rule_block_lem xs rule pid arm (omega arith)) (
              blocks_lem (xs ++ here) (λ r. if same_rule r rule then length xs else places r) rules
                (omega arith)
              ∙ rw (sized, append_assoc xs here (blocks_code rules)) refl))
    ]

    pub length-blocks_code : (rules : List Rule) → length (blocks_code rules) ≤ 26 * length rules
    length-blocks_code [] = omega arith
    length-blocks_code (rule ∷ rules) = elim (Bool-cases (need rule)) [
      | inr idle ↦ rw idle (omega (arith, length-blocks_code rules))
      | inl used ↦ rw used (
          omega (
            arith,
            length-blocks_code rules,
            length-block_of rule,
            length-append (block_of rule) (blocks_code rules),
          ))
    ]

    -- A rule that does not come keeps its place.
    placed_kept :
        (rules : List Rule) (at : ℕ) (places : Rule → ℕ) (rule : Rule)
        → has rules rule ≡ false
        → placed at places rules rule ≡ places rule
    placed_kept [] at places rule missing = refl
    placed_kept (r ∷ rules) at places rule missing =
        let other : same_rule rule r ≡ false = ground arith in
        let later : has rules rule ≡ false = ground arith in
        elim (Bool-cases (need r)) [
          | inr idle ↦ rw idle (placed_kept rules at places rule later)
          | inl used ↦ rw used (
              placed_kept rules (at + length (block_of r))
                (λ x. if same_rule x r then at else places x) rule later
              ∙ rw other refl)
        ]

    -- A rule that is needed is not one that is not.
    unneeded_other : (rule r : Rule) → need rule ≡ true → need r ≡ false → same_rule rule r ≡ false
    unneeded_other rule r needs idle = elim (Bool-cases (same_rule rule r)) [
      | inr other ↦ other
      | inl same ↦
          let clash : true ≡ false = sym needs ∙ ap need (same_rule-eq rule r same) ∙ idle in
          absurd cc
    ]

    -- A needed rule's block stands where the loop left it, and answers what its calls amount to.
    pub record IsPlaced (c : Call) (rest code : List Insn) (at place a : ℕ) (rule : Rule)
        : Type 0 where
      pub late : at ≤ place
      pub inside : place ≤ at + length code
      pub runs :
          run_rest c (code ++ rest) (place - at) a
          ≡ some (meaning c (rule_denial rule) (rule_steps rule pid arm) false a)

    IsPlaced-first :
        (c : Call) (rest more : List Insn) (at a : ℕ) (rule : Rule)
        → IsPlaced c rest (block_of rule ++ more) at at a rule
    IsPlaced-first c rest more at a rule = record {
      late = omega arith;
      inside = omega arith;
      runs =
          ap (λ k. run_rest c ((block_of rule ++ more) ++ rest) k a) (omega arith)
          ∙ ap (λ l. run_rest c l 0 a) (append_assoc (block_of rule) more rest)
          ∙ laid_block-run c (rule_steps rule pid arm) (rule_denial rule) a (more ++ rest)
              (rule_steps-known rule pid arm);
    }

    IsPlaced-later :
        (c : Call) (rest before more : List Insn) (at place a : ℕ) (rule : Rule)
        → IsPlaced c rest more (at + length before) place a rule
        → IsPlaced c rest (before ++ more) at place a rule
    IsPlaced-later c rest before more at place a rule p =
        let late = p.late in
        let inside = p.inside in
        record {
          late = omega arith;
          inside = omega (arith, length-append before more);
          runs =
              ap (λ l. run_rest c l (place - at) a) (append_assoc before more rest)
              ∙ ap (λ k. run_rest c (before ++ (more ++ rest)) k a) (omega arith)
              ∙ run_rest-append c before (more ++ rest) (place - (at + length before)) a
              ∙ p.runs;
        }

    pub placed-IsPlaced :
        (c : Call) (rest : List Insn) (a : ℕ) (rules : List Rule) (at : ℕ) (places : Rule → ℕ)
        (rule : Rule)
        → has rules rule ≡ true
        → need rule ≡ true
        → IsPlaced c rest (blocks_code rules) at (placed at places rules rule) a rule
    placed-IsPlaced c rest a [] at places rule missing needs = absurd cc
    placed-IsPlaced c rest a (r ∷ rules) at places rule found needs = elim (Bool-cases (need r)) [
      | inr idle ↦
          let other : same_rule rule r ≡ false = unneeded_other rule r needs idle in
          rw idle (placed-IsPlaced c rest a rules at places rule (rw other at found) needs)
      | inl used ↦ elim (Bool-cases (has rules rule)) [
        | inl again ↦ rw used (
            IsPlaced-later c rest (block_of r) (blocks_code rules) at _ a rule (
              placed-IsPlaced c rest a rules (at + length (block_of r))
                (λ x. if same_rule x r then at else places x) rule again needs))
        | inr last ↦
            let here : same_rule rule r ≡ true = ground arith in
            let same : rule ≡ r = same_rule-eq rule r here in
            let place : placed (at + length (block_of r))
                  (λ x. if same_rule x r then at else places x) rules rule
                ≡ at =
              placed_kept rules (at + length (block_of r))
                (λ x. if same_rule x r then at else places x) rule last
              ∙ rw here refl in
            rw used (
              rw place (
                subst (λ x. IsPlaced c rest (block_of x ++ blocks_code rules) at at a rule) same
                  (IsPlaced-first c rest (blocks_code rules) at a rule)))
      ]
    ]

    pub placed_inside :
        (rules : List Rule) (at : ℕ) (places : Rule → ℕ) (rule : Rule)
        → at ≤ 2048
        → length rules ≤ 31
        → has rules rule ≡ true
        → need rule ≡ true
        → (at ≤ placed at places rules rule) × (placed at places rules rule < 2 ^ 32)
    placed_inside rules at places rule low few found needs =
        let p = placed-IsPlaced no_call [] 0 rules at places rule found needs in
        let late = p.late in
        let inside = p.inside in (late, omega (arith, length-blocks_code rules))
