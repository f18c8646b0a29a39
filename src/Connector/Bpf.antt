-- ===== src/Connector/Bpf.antt =====
-- The filter machine, as `run` of core/promises_test.tl steps it (core/connector_filter_test.tl has
-- the same, less two comparisons), and the instruction record of core/connector.c and
-- core/promises.c.
use native.Mathlib.Nat.{zero-add}
use cosmic.Prelude.{
  ◌++◌, ℕ, zero, suc, ◌+◌, ◌-◌, ◌/◌, ◌%◌, ◌^◌, ◌≤◌, ◌≡◌, refl, Bool, ◌||◌, ◌&&◌, ltb, Option, none,
  some, List, [], ◌∷◌, arith, ap, sym, inl, inr, ◌∙◌, Option-cases, get_elem?-past_end, ◌==◌, leb,
  if◌then◌else◌, bit_and, length, get_elem?, drop,
}

-- struct connector_insn
pub record Insn : Type 0 where
  pub code : ℕ
  pub jt : ℕ
  pub jf : ℕ
  pub k : ℕ

-- What the filter is asked about: a call's number, its architecture and its six arguments.
pub record Call : Type 0 where
  pub number : ℕ
  pub architecture : ℕ
  pub args : ℕ → ℕ

abbrev pub low_word : ℕ → ℕ
low_word v = v % 2 ^ 32

abbrev pub high_word : ℕ → ℕ
high_word v = v / 2 ^ 32 % 2 ^ 32

-- `word(offset)`
unfoldable pub word : Call → ℕ → ℕ
word c offset =
    if offset == 0
    then low_word c.number
    else if offset == 4
    then c.architecture
    else if offset % 8 == 0
    then low_word (c.args ((offset - 16) / 8))
    else high_word (c.args ((offset - 16) / 8))

-- The offsets of a call's number, architecture and arguments.
abbrev pub readable : ℕ → Bool
readable offset = offset == 0 || offset == 4 || (leb 16 offset && ltb offset 64 && offset % 4 == 0)

-- What one instruction does: go on, so many instructions passed over and with a new
-- accumulator; return; or fail.
pub data Outcome : Type 0 where
  go : ℕ → ℕ → Outcome
  ret : ℕ → Outcome
  fault : Outcome

unfoldable pub step : Call → Insn → ℕ → Outcome
unfolding word
step c i a =
    if i.code == 0x20
    then (if readable i.k then go 0 (word c i.k) else fault)
    else if i.code == 0x54
    then go 0 (bit_and a i.k)
    else if i.code == 0x05
    then go i.k a
    else if i.code == 0x15
    then go (if a == i.k then i.jt else i.jf) a
    else if i.code == 0x25
    then go (if ltb i.k a then i.jt else i.jf) a
    else if i.code == 0x35
    then go (if leb i.k a then i.jt else i.jf) a
    else if i.code == 0x45
    then go (if bit_and a i.k == 0 then i.jf else i.jt) a
    else if i.code == 0x06
    then ret i.k
    else fault

-- What an outcome leads to.
abbrev pub after : (ℕ → ℕ → Option ℕ) → Outcome → Option ℕ
after next (go passed a) = next passed a
after next (ret k) = some k
after next fault = none

-- The loop of `run`: the instruction at `pc`, until one returns. `none` is a failed assertion,
-- a path that falls off the program's end or an instruction that is not known.
unfoldable pub run_at : ℕ → Call → List Insn → ℕ → ℕ → Option ℕ
unfolding step
run_at zero c program pc a = none
run_at (suc fuel) c program pc a = elim (get_elem? program pc) [
  | none ↦ none
  | some i ↦ after (λ passed a'. run_at fuel c program (pc + 1 + passed) a') (step c i a)
]

-- Jumps go forward only, so a run needs no more rounds than there are instructions.
unfoldable pub run : Call → List Insn → Option ℕ
unfolding run_at
run c program = run_at (length program) c program 0 0

-- The same machine over the rest of the program: `passed` instructions are skipped first.
unfoldable pub run_rest : Call → List Insn → ℕ → ℕ → Option ℕ
unfolding step
run_rest c [] passed a = none
run_rest c (i ∷ rest) (suc passed) a = run_rest c rest passed a
run_rest c (i ∷ rest) zero a = after (λ passed a'. run_rest c rest passed a') (step c i a)

-- Instructions that stand in front and are passed over.
pub run_rest-append :
    (c : Call) (front rest : List Insn) (k a : ℕ)
    → run_rest c (front ++ rest) (length front + k) a ≡ run_rest c rest k a
unfolding run_rest
run_rest-append c [] rest k a = rw (zero-add k)
run_rest-append c (i ∷ front) rest k a =
    let e : suc (length front) + k ≡ suc (length front + k) = omega arith in
    rw e (run_rest-append c front rest k a)

after-agree :
    (f g : ℕ → ℕ → Option ℕ) (o : Outcome)
    → ((passed a : ℕ) → f passed a ≡ g passed a)
    → after f o ≡ after g o
after-agree f g (go passed a) h = h passed a
after-agree f g (ret k) h = refl
after-agree f g fault h = refl

pub run_rest-drop :
    (c : Call) (program : List Insn) (pc a : ℕ)
    → run_rest c program pc a ≡ run_rest c (drop pc program) 0 a
unfolding run_rest
run_rest-drop c [] zero a = refl
run_rest-drop c [] (suc pc) a = refl
run_rest-drop c (i ∷ rest) zero a = refl
run_rest-drop c (i ∷ rest) (suc pc) a = run_rest-drop c rest pc a

run_rest-past_end :
    (c : Call) (program : List Insn) (pc a : ℕ)
    → get_elem? program pc ≡ none
    → run_rest c program pc a ≡ none
unfolding run_rest
run_rest-past_end c [] pc a h = refl
run_rest-past_end c (i ∷ rest) zero a h = cc
run_rest-past_end c (i ∷ rest) (suc pc) a h = run_rest-past_end c rest pc a h

run_rest_at :
    (c : Call) (program : List Insn) (pc a : ℕ) (i : Insn)
    → get_elem? program pc ≡ some i
    → run_rest c program pc a
      ≡ after (λ passed a'. run_rest c program (suc (pc + passed)) a') (step c i a)
unfolding run_rest
run_rest_at c [] pc a i h = cc
run_rest_at c (j ∷ rest) zero a i h =
    let e : j ≡ i = cc in
    rw e (after-agree _ _ (step c i a) (λ passed a'. ap (λ n. run_rest c rest n a') (omega arith)))
run_rest_at c (j ∷ rest) (suc pc) a i h =
    run_rest_at c rest pc a i h
    ∙ after-agree _ _ (step c i a) (λ passed a'. ap (λ n. run_rest c rest n a') (omega arith))

-- With enough rounds left the loop does what the rest of the program does.
run_at-run_rest :
    (fuel : ℕ) (c : Call) (program : List Insn) (pc a : ℕ)
    → length program ≤ pc + fuel
    → run_at fuel c program pc a ≡ run_rest c program pc a
unfolding run_at
run_at-run_rest zero c program pc a h =
    sym (run_rest-past_end c program pc a (get_elem?-past_end program pc (omega arith)))
run_at-run_rest (suc fuel) c program pc a h = elim (Option-cases (get_elem? program pc)) [
  | inl e ↦ rw (e, run_at) (sym (run_rest-past_end c program pc a e))
  | inr (i, e) ↦
      rw (e, run_at)
        (after-agree _ _ (step c i a) (λ passed a'.
            run_at-run_rest fuel c program (pc + 1 + passed) a' (omega arith)
            ∙ ap (λ n. run_rest c program n a') (omega arith))
          ∙ sym (run_rest_at c program pc a i e))
]

-- The filter machine's loop over a program counter, given as many rounds as there are
-- instructions, gives what the machine that consumes the program structurally gives, so it
-- never stops for want of rounds.
pub run-run_rest : (c : Call) (program : List Insn) → run c program ≡ run_rest c program 0 0
unfolding run
run-run_rest c program = run_at-run_rest (length program) c program 0 0 (omega arith)
