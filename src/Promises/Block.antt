-- ===== src/Promises/Block.antt =====
-- The builder of core/promises.c and the block of a rule: emit to rule_block.
pub mod Steps
pub mod Layout
pub mod Performed
pub mod Verdict
pub mod Permits
use cosmic.Prelude.{
  ℕ, zero, suc, ◌+◌, ◌-◌, ◌*◌, ◌%◌, ◌^◌, Bool, true, false, Option, none, some, List, [], ◌∷◌, ◌++◌,
  ◌==◌, ltb, leb, if◌then◌else◌, length, get_elem?, set,
}
use cosmic.Connector.Bpf.{Insn}
use cosmic.Promises.Block.Steps.{
  Target, next, skip, allowed, denied, Step, load, mask, test, rule_steps, rule_denial, errno,
}
use cosmic.Promises.Rules.{Rule}

abbrev pub insns_max : ℕ
insns_max = 4096

abbrev pub patches_max : ℕ
patches_max = 32

abbrev pub return_allow : ℕ
return_allow = 0x7fff0000

-- struct builder: `length` is that of the list.
pub record Builder : Type 0 where
  pub code : List Insn
  pub full : Bool

abbrev pub insn : ℕ → ℕ → ℕ → ℕ → Insn
insn code jt jf k = record { code = code; jt = jt; jf = jf; k = k }

-- The builder, and where the instruction went.
unfoldable pub emit : Builder → ℕ → ℕ → ℕ → ℕ → Builder × ℕ
emit b code jt jf k =
    if leb insns_max (length b.code)
    then (record b { full = true }, 0)
    else (record b { code = b.code ++ insn code jt jf k ∷ [] }, length b.code)

-- struct patch
pub record Patch : Type 0 where
  pub at : ℕ
  pub when_false : Bool
  pub target : Target

-- struct block
pub record Block : Type 0 where
  pub b : Builder
  pub patches : List Patch

-- A jump to the block's end.
unfoldable pub patched : Block → Patch → Block
patched k p =
    if ltb (length k.patches) patches_max
    then record k { patches = k.patches ++ p ∷ [] }
    else record k { b = record { code = k.b.code; full = true } }

unfoldable pub jump_to : Block → ℕ → Bool → Target → Block × ℕ
unfolding patched
jump_to k at when_false next = (k, 0)
jump_to k at when_false skip = (k, 1)
jump_to k at when_false allowed =
    (patched k (record { at = at; when_false = when_false; target = allowed }), 0)
jump_to k at when_false denied =
    (patched k (record { at = at; when_false = when_false; target = denied }), 0)

unfoldable pub test_step : Block → ℕ → ℕ → Target → Target → Block
unfolding jump_to emit
test_step k op value yes_target no_target =
    let at = length k.b.code in
    let (k₁, jt) = jump_to k at false yes_target in
    let (k₂, jf) = jump_to k₁ at true no_target in record k₂ { b = (emit k₂.b op jt jf value).0 }

unfoldable pub load_step : Block → ℕ → Block
unfolding emit
load_step k offset = record k { b = (emit k.b 0x20 0 0 offset).0 }

unfoldable pub mask_step : Block → ℕ → Block
unfolding emit
mask_step k value = record k { b = (emit k.b 0x54 0 0 value).0 }

-- The calls of `load`, `mask` and `test` that a rule makes, one after another.
unfoldable pub perform : Block → List Step → Block
unfolding load_step mask_step test_step
perform k [] = k
perform k (load offset ∷ steps) = perform (load_step k offset) steps
perform k (mask value ∷ steps) = perform (mask_step k value) steps
perform k (test op value y n ∷ steps) = perform (test_step k op value y n) steps

-- One offset of a jump, in eight bits.
abbrev pub redirected : Insn → Bool → ℕ → Insn
redirected i when_false distance =
    if when_false then record i { jf = distance % 256 } else record i { jt = distance % 256 }

-- What a patch writes, of a `size_t` distance.
unfoldable pub repoint : Builder → Patch → ℕ → Builder
repoint b p distance =
    if ltb 255 distance then record b { full = true } else elim (get_elem? b.code p.at) [
      | none ↦ b
      | some i ↦ record b { code = set b.code p.at (redirected i p.when_false distance) }
    ]

abbrev pub end_of : Target → ℕ → ℕ → ℕ
end_of allowed deny allow = allow
end_of next deny allow = deny
end_of skip deny allow = deny
end_of denied deny allow = deny

unfoldable pub repoint_all : Builder → List Patch → ℕ → ℕ → Builder
unfolding repoint
repoint_all b [] deny allow = b
repoint_all b (p ∷ ps) deny allow =
    let distance = (end_of p.target deny allow + 2 ^ 64 - (p.at + 1)) % 2 ^ 64 in
    repoint_all (repoint b p distance) ps deny allow

unfoldable pub finish : Block → ℕ → Builder
unfolding emit repoint_all
finish k denial =
    let (b, deny) = emit k.b 0x06 0 0 denial in
    let (b', allow) = emit b 0x06 0 0 return_allow in repoint_all b' k.patches deny allow

unfoldable pub rule_block : Builder → Rule → ℕ → Bool → Builder
unfolding perform finish rule_steps rule_denial
rule_block b rule pid arm =
    finish (perform (record { b = b; patches = [] }) (rule_steps rule pid arm)) (rule_denial rule)
