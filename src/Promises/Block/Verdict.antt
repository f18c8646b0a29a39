-- ===== src/Promises/Block/Verdict.antt =====
-- What the block of a rule of core/promises.c answers to a call.
use cosmic.Prelude.{
  ℕ, suc, ◌+◌, ◌≡◌, refl, ap, ◌∙◌, Bool, true, false, not, ◌&&◌, ◌||◌, some, List, [], ◌∷◌, ◌++◌,
  arith, ◌==◌, if◌then◌else◌, length, bit_and, Bool-cases, inl, inr,
}
use mathlib.Core.List.{append_assoc}
use cosmic.Connector.Bpf.{Insn, Call, word, readable, run_rest, run_rest-append, step, go}
use cosmic.Promises.Block.{insn, return_allow}
use cosmic.Promises.Block.Performed.{offset_of, laid_all, laid_block}
use cosmic.Promises.Block.Steps.{
  Target, next, skip, allowed, denied, Step, load, mask, test, rule_steps,
}
use cosmic.Promises.Rules.{Rule, rule_none, rule_mprotect}

-- The two comparisons that a rule makes.
abbrev holds : ℕ → ℕ → ℕ → Bool
holds op a value = if op == 0x15 then a == value else not (bit_and a value == 0)

-- Where a test of a block goes.
abbrev arrive : Target → ℕ → ℕ → ℕ → ℕ
arrive next denial going skipping = going
arrive skip denial going skipping = skipping
arrive allowed denial going skipping = return_allow
arrive denied denial going skipping = denial

-- What a rule's calls amount to, with the accumulator at `a` and perhaps the first call passed over.
unfoldable pub meaning : Call → ℕ → List Step → Bool → ℕ → ℕ
meaning c denial [] true a = return_allow
meaning c denial [] false a = denial
meaning c denial (s ∷ steps) true a = meaning c denial steps false a
meaning c denial (load offset ∷ steps) false a = meaning c denial steps false (word c offset)
meaning c denial (mask value ∷ steps) false a = meaning c denial steps false (bit_and a value)
meaning c denial (test op value y n ∷ steps) false a =
    let going = meaning c denial steps false a in
    let skipping = meaning c denial steps true a in
    if holds op a value then arrive y denial going skipping else arrive n denial going skipping

-- A call that the filter machine runs: it loads an argument's word, and makes one of the comparisons.
abbrev known : Step → Bool
known (load offset) = readable offset
known (mask value) = true
known (test op value y n) = op == 0x15 || op == 0x45

abbrev all_known : List Step → Bool
all_known [] = true
all_known (s ∷ steps) = known s && all_known steps

abbrev passed : Bool → ℕ
passed true = 1
passed false = 0

pub length-laid_all : (steps : List Step) → length (laid_all steps) ≡ length steps
length-laid_all [] = refl
length-laid_all (s ∷ steps) = ap suc (length-laid_all steps)

abbrev ending : ℕ → List Insn → List Insn
ending denial rest = insn 0x06 0 0 denial ∷ insn 0x06 0 0 return_allow ∷ rest

-- A jump to the end of the calls.
run_rest-end :
    (c : Call) (denial : ℕ) (steps : List Step) (rest : List Insn) (k a : ℕ)
    → run_rest c (laid_all steps ++ ending denial rest) (length steps + k) a
      ≡ run_rest c (ending denial rest) k a
run_rest-end c denial steps rest k a =
    ap (λ n. run_rest c (laid_all steps ++ ending denial rest) (n + k) a)
      (omega (arith, length-laid_all steps))
    ∙ run_rest-append c (laid_all steps) (ending denial rest) k a

ends_denial :
    (c : Call) (denial : ℕ) (rest : List Insn) (a : ℕ)
    → run_rest c (ending denial rest) 0 a ≡ some denial
unfolding run_rest
ends_denial c denial rest a = refl

ends_allow :
    (c : Call) (denial : ℕ) (rest : List Insn) (a : ℕ)
    → run_rest c (ending denial rest) 1 a ≡ some return_allow
unfolding run_rest
ends_allow c denial rest a = refl

step_test :
    (c : Call) (op value jt jf a : ℕ)
    → (op == 0x15 || op == 0x45) ≡ true
    → step c (insn op jt jf value) a ≡ go (if holds op a value then jt else jf) a
unfolding step
step_test c op value jt jf a ok = ground arith

and_left : (a b : Bool) → (a && b) ≡ true → a ≡ true
and_left a b h = ground arith

and_right : (a b : Bool) → (a && b) ≡ true → b ≡ true
and_right a b h = ground arith

readable_first :
    (offset : ℕ) (steps : List Step)
    → all_known (load offset ∷ steps) ≡ true
    → readable offset ≡ true
readable_first offset steps ok = and_left (readable offset) (all_known steps) ok

module _ (c : Call) (denial : ℕ) (rest : List Insn) where
  -- Where a test lands, given what the rest of the block answers.
  land :
      (steps : List Step) (t : Target) (a : ℕ)
      → ((skipped : Bool)
          → run_rest c (laid_all steps ++ ending denial rest) (passed skipped) a
            ≡ some (meaning c denial steps skipped a))
      → run_rest c (laid_all steps ++ ending denial rest) (offset_of (length steps) t) a
        ≡ some (arrive t denial (meaning c denial steps false a) (meaning c denial steps true a))
  land steps next a more = more false
  land steps skip a more = more true
  land steps denied a more =
      ap (λ n. run_rest c (laid_all steps ++ ending denial rest) n a) (omega arith)
      ∙ run_rest-end c denial steps rest 0 a
      ∙ ends_denial c denial rest a
  land steps allowed a more =
      ap (λ n. run_rest c (laid_all steps ++ ending denial rest) n a) (omega arith)
      ∙ run_rest-end c denial steps rest 1 a
      ∙ ends_allow c denial rest a

  run_steps :
      (steps : List Step) (skipped : Bool) (a : ℕ)
      → all_known steps ≡ true
      → run_rest c (laid_all steps ++ ending denial rest) (passed skipped) a
        ≡ some (meaning c denial steps skipped a)
  unfolding run_rest meaning
  run_steps [] true a ok = refl
  run_steps [] false a ok = refl
  run_steps (s ∷ steps) true a ok = run_steps steps false a (ground arith)
  run_steps (load offset ∷ steps) false a ok =
      rw (readable_first offset steps ok) (run_steps steps false (word c offset) (ground arith))
  run_steps (mask value ∷ steps) false a ok = run_steps steps false (bit_and a value) (ground arith)
  run_steps (test op value y n ∷ steps) false a ok =
      let tests = and_left (op == 0x15 || op == 0x45) (all_known steps) ok in
      let all = and_right (op == 0x15 || op == 0x45) (all_known steps) ok in
      rw (step_test c op value (offset_of (length steps) y) (offset_of (length steps) n) a tests)
        (elim (Bool-cases (holds op a value)) [
          | inl is ↦ rw is (land steps y a (λ skipped. run_steps steps skipped a all))
          | inr isnt ↦ rw isnt (land steps n a (λ skipped. run_steps steps skipped a all))
        ])

-- The block of a rule answers what its calls amount to.
pub laid_block-run :
    (c : Call) (steps : List Step) (denial a : ℕ) (rest : List Insn)
    → all_known steps ≡ true
    → run_rest c (laid_block steps denial ++ rest) 0 a ≡ some (meaning c denial steps false a)
laid_block-run c steps denial a rest ok =
    ap (λ code. run_rest c code 0 a)
      (append_assoc (laid_all steps) (insn 0x06 0 0 denial ∷ insn 0x06 0 0 return_allow ∷ []) rest)
    ∙ run_steps c denial rest steps false a ok

pub rule_steps-known :
    (rule : Rule) (pid : ℕ) (arm : Bool) → all_known (rule_steps rule pid arm) ≡ true
unfolding rule_steps
rule_steps-known rule_none pid arm = refl
rule_steps-known rule_mprotect pid true = refl
rule_steps-known rule_mprotect pid false = refl
rule_steps-known rule pid arm = refl
