-- ===== src/Promises/Block/Performed.antt =====
-- The calls of a rule's block in core/promises.c, performed before its jumps are patched.
use cosmic.Prelude.{
  ℕ, suc, ◌+◌, ◌≤◌, ◌<◌, ◌≡◌, ap, ◌∙◌, Bool, true, false, List, [], ◌∷◌, ◌++◌, map, arith, length,
  length-append,
}
use mathlib.Core.List.{append-nil, append_assoc}
use cosmic.Connector.Bpf.{Insn}
use cosmic.Promises.Block.{
  Builder, Block, Patch, insn, emit, jump_to, test_step, load_step, mask_step, perform,
  return_allow,
}
use cosmic.Promises.Block.Steps.{Target, next, skip, allowed, denied, Step, load, mask, test}

-- A builder that has not run out of room.
abbrev pub ready : List Insn → Builder
ready code = record { code = code; full = false }

abbrev pub open_block : List Insn → List Patch → Block
open_block code patches = record { b = ready code; patches = patches }

-- A jump's offset before its patch.
abbrev pub near : Target → ℕ
near skip = 1
near next = 0
near allowed = 0
near denied = 0

-- And where it goes, past `after` more steps, the denial or the allowance.
abbrev pub offset_of : ℕ → Target → ℕ
offset_of after next = 0
offset_of after skip = 1
offset_of after denied = after
offset_of after allowed = suc after

abbrev pub patch_for : ℕ → Bool → Target → List Patch
patch_for at when_false next = []
patch_for at when_false skip = []
patch_for at when_false allowed = record { at = at; when_false = when_false; target = allowed } ∷ []
patch_for at when_false denied = record { at = at; when_false = when_false; target = denied } ∷ []

abbrev pub erased : Step → Insn
erased (load offset) = insn 0x20 0 0 offset
erased (mask value) = insn 0x54 0 0 value
erased (test op value y n) = insn op (near y) (near n) value

abbrev pub laid : ℕ → Step → Insn
laid after (load offset) = insn 0x20 0 0 offset
laid after (mask value) = insn 0x54 0 0 value
laid after (test op value y n) = insn op (offset_of after y) (offset_of after n) value

abbrev pub patches_at : ℕ → Step → List Patch
patches_at at (load offset) = []
patches_at at (mask value) = []
patches_at at (test op value y n) = patch_for at false y ++ patch_for at true n

abbrev pub patches_of : ℕ → List Step → List Patch
patches_of at [] = []
patches_of at (s ∷ steps) = patches_at at s ++ patches_of (suc at) steps

-- A block in full.
abbrev pub laid_all : List Step → List Insn
laid_all [] = []
laid_all (s ∷ steps) = laid (length steps) s ∷ laid_all steps

abbrev pub laid_block : List Step → ℕ → List Insn
laid_block steps denial = laid_all steps ++ insn 0x06 0 0 denial ∷ insn 0x06 0 0 return_allow ∷ []

pub emit_lem :
    (xs : List Insn) (code jt jf k : ℕ)
    → length xs < 4096
    → emit (ready xs) code jt jf k ≡ (ready (xs ++ insn code jt jf k ∷ []), length xs)
unfolding emit
emit_lem xs code jt jf k room = ground arith

pub jump_to_lem :
    (xs : List Insn) (ps : List Patch) (at : ℕ) (when_false : Bool) (t : Target)
    → length ps + length (patch_for at when_false t) ≤ 32
    → jump_to (open_block xs ps) at when_false t
      ≡ (open_block xs (ps ++ patch_for at when_false t), near t)
unfolding jump_to
jump_to_lem xs ps at w next room = rw append-nil
jump_to_lem xs ps at w skip room = rw append-nil
jump_to_lem xs ps at w allowed room = ground arith
jump_to_lem xs ps at w denied room = ground arith

-- One call, and the rest of the block.
pub perform_step :
    (xs : List Insn) (ps : List Patch) (s : Step) (steps : List Step)
    → length xs < 4096
    → length ps + length (patches_at (length xs) s) ≤ 32
    → perform (open_block xs ps) (s ∷ steps)
      ≡ perform (open_block (xs ++ erased s ∷ []) (ps ++ patches_at (length xs) s)) steps
unfolding perform load_step mask_step test_step
perform_step xs ps (load offset) steps room few =
    ap (λ k. perform k steps) (rw (emit_lem xs 0x20 0 0 offset room, append-nil ps))
perform_step xs ps (mask value) steps room few =
    ap (λ k. perform k steps) (rw (emit_lem xs 0x54 0 0 value room, append-nil ps))
perform_step xs ps (test op value y n) steps room few =
    let few' : length ps
          + (length (patch_for (length xs) false y) + length (patch_for (length xs) true n))
        ≤ 32 =
      omega (arith, length-append (patch_for (length xs) false y) (patch_for (length xs) true n)) in
    let first : length ps + length (patch_for (length xs) false y) ≤ 32 = omega arith in
    let both : length (ps ++ patch_for (length xs) false y) + length (patch_for (length xs) true n)
        ≤ 32 =
      omega (arith, length-append ps (patch_for (length xs) false y)) in
    ap (λ k. perform k steps)
      (rw (jump_to_lem xs ps (length xs) false y first) (
        rw (jump_to_lem xs (ps ++ patch_for (length xs) false y) (length xs) true n both) (
          rw (
            emit_lem xs op (near y) (near n) value room,
            append_assoc ps (patch_for (length xs) false y) (patch_for (length xs) true n),
          ))))

pub length-snoc : (xs : List Insn) (i : Insn) → length (xs ++ i ∷ []) ≡ suc (length xs)
length-snoc xs i = omega (arith, length-append xs (i ∷ []))

pub perform_lem :
    (xs : List Insn) (ps : List Patch) (steps : List Step)
    → length xs + length steps ≤ 4096
    → length ps + length (patches_of (length xs) steps) ≤ 32
    → perform (open_block xs ps) steps
      ≡ open_block (xs ++ map erased steps) (ps ++ patches_of (length xs) steps)
unfolding perform
perform_lem xs ps [] room few = rw (append-nil xs, append-nil ps)
perform_lem xs ps (s ∷ steps) room few =
    let here = patches_at (length xs) s in
    let there = patches_of (suc (length xs)) steps in
    let sum : length (here ++ there) ≡ length here + length there = length-append here there in
    let longer : length (xs ++ erased s ∷ []) ≡ suc (length xs) = length-snoc xs (erased s) in
    let more : length (ps ++ here) ≡ length ps + length here = length-append ps here in
    perform_step xs ps s steps (omega arith) (omega arith)
    ∙ perform_lem (xs ++ erased s ∷ []) (ps ++ here) steps (omega arith) (rw longer (omega arith))
    ∙ rw (longer, append_assoc xs (erased s ∷ []) (map erased steps), append_assoc ps here there)
