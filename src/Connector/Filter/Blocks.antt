-- ===== src/Connector/Filter/Blocks.antt =====
-- The programs that the builder of core/connector.c writes for one test each, and what the filter
-- machine does on them, whatever instructions follow.
use cosmic.Prelude.{
  ℕ, ◌+◌, ◌-◌, ◌*◌, ◌/◌, ◌%◌, ◌^◌, ◌<◌, ◌≡◌, refl, Bool, true, false, not, ◌&&◌, some, List, ◌∷◌,
  arith, ◌==◌, ltb, leb, if◌then◌else◌, bit_and, Bool-cases, ◌⊎◌, inl, inr, drop,
}
use cosmic.Prelude.Bits.{bit_and-15, bit_and-31}
use cosmic.Connector.Bpf.{Insn, Call, low_word, high_word, run_rest, run_rest-drop}
use cosmic.Connector.Filter.{Range, insn, allow, refuse, stride}

-- connector_load's instruction
abbrev pub load_insn : ℕ → Bool → Insn
load_insn argument high = insn 0x20 0 0 (16 + 8 * argument + (if high then 4 else 0))

abbrev pub ret_insn : ℕ → Insn
ret_insn value = insn 0x06 0 0 value

-- connector_equal's instructions
abbrev pub equal_block : ℕ → ℕ → List Insn → List Insn
equal_block argument value rest =
    load_insn argument true
    ∷ insn 0x15 1 0 0
    ∷ ret_insn refuse
    ∷ load_insn argument false
    ∷ insn 0x15 1 0 value
    ∷ ret_insn refuse
    ∷ rest

-- The instructions of one range.
abbrev pub range_block : Range → List Insn → List Insn
range_block r rest =
    load_insn 1 true
    ∷ insn 0x15 0 10 (r.base / 2 ^ 32 % 2 ^ 32)
    ∷ load_insn 1 false
    ∷ insn 0x35 0 8 (r.base % 2 ^ 32)
    ∷ insn 0x35 7 0 ((r.base + r.slots * stride r.length) % 2 ^ 32)
    ∷ insn 0x54 0 0 (stride r.length - 1)
    ∷ insn 0x15 0 5 0
    ∷ load_insn 2 true
    ∷ insn 0x15 0 3 0
    ∷ load_insn 2 false
    ∷ insn 0x15 0 1 r.length
    ∷ ret_insn allow
    ∷ rest

-- One instruction, the rest of the program being known as far as it jumps.
module _ (c : Call) (rest : List Insn) (a : ℕ) where
  pub first_high_lem :
      run_rest c (load_insn 0 true ∷ rest) 0 a ≡ run_rest c rest 0 (high_word (c.args 0))
  unfolding run_rest
  first_high_lem = refl

  pub first_low_lem :
      run_rest c (load_insn 0 false ∷ rest) 0 a ≡ run_rest c rest 0 (low_word (c.args 0))
  unfolding run_rest
  first_low_lem = refl

  pub second_high_lem :
      run_rest c (load_insn 1 true ∷ rest) 0 a ≡ run_rest c rest 0 (high_word (c.args 1))
  unfolding run_rest
  second_high_lem = refl

  pub second_low_lem :
      run_rest c (load_insn 1 false ∷ rest) 0 a ≡ run_rest c rest 0 (low_word (c.args 1))
  unfolding run_rest
  second_low_lem = refl

  pub third_high_lem :
      run_rest c (load_insn 2 true ∷ rest) 0 a ≡ run_rest c rest 0 (high_word (c.args 2))
  unfolding run_rest
  third_high_lem = refl

  pub third_low_lem :
      run_rest c (load_insn 2 false ∷ rest) 0 a ≡ run_rest c rest 0 (low_word (c.args 2))
  unfolding run_rest
  third_low_lem = refl

  pub jump_eq_lem :
      (jt jf k : ℕ)
      → run_rest c (insn 0x15 jt jf k ∷ rest) 0 a
        ≡ (if a == k then run_rest c (drop jt rest) 0 a else run_rest c (drop jf rest) 0 a)
  unfolding run_rest
  jump_eq_lem jt jf k = elim (Bool-cases (a == k)) [
    | inl e ↦ rw e (run_rest-drop c rest jt a)
    | inr e ↦ rw e (run_rest-drop c rest jf a)
  ]

  pub jump_ge_lem :
      (jt jf k : ℕ)
      → run_rest c (insn 0x35 jt jf k ∷ rest) 0 a
        ≡ (if leb k a then run_rest c (drop jt rest) 0 a else run_rest c (drop jf rest) 0 a)
  unfolding run_rest
  jump_ge_lem jt jf k = elim (Bool-cases (leb k a)) [
    | inl e ↦ rw e (run_rest-drop c rest jt a)
    | inr e ↦ rw e (run_rest-drop c rest jf a)
  ]

  pub and_lem : (k : ℕ) → run_rest c (insn 0x54 0 0 k ∷ rest) 0 a ≡ run_rest c rest 0 (bit_and a k)
  unfolding run_rest
  and_lem k = refl

  pub jump_lem : (k : ℕ) → run_rest c (insn 0x05 0 0 k ∷ rest) 0 a ≡ run_rest c (drop k rest) 0 a
  unfolding run_rest
  jump_lem k = run_rest-drop c rest k a

  pub ret_lem : (k : ℕ) → run_rest c (ret_insn k ∷ rest) 0 a ≡ some k
  unfolding run_rest
  ret_lem k = refl

pub ruleset machine = (
  first_high_lem, first_low_lem, second_high_lem, second_low_lem, third_high_lem, third_low_lem,
  jump_eq_lem, jump_ge_lem, and_lem, jump_lem, ret_lem,
)

-- Whether a pointer and a length name a whole slot of a range.
abbrev pub at_slot : Range → ℕ → ℕ → Bool
at_slot r pointer length =
    leb r.base pointer
    && ltb pointer (r.base + r.slots * stride r.length)
    && (pointer - r.base) % stride r.length == 0
    && length == r.length

pub record IsRange (r : Range) : Type 0 where
  pub aligned : r.base % stride r.length ≡ 0
  pub together : (r.base + r.slots * stride r.length) / 2 ^ 32 ≡ r.base / 2 ^ 32
  pub below : r.base + r.slots * stride r.length < 2 ^ 64
  pub sized : (r.length ≡ 16) ⊎ (r.length ≡ 28)

-- The two halves of a pointer lie in a range's exactly when the pointer does, where the range has
-- one high half.
slot_halves :
    (base end pointer span : ℕ)
    → pointer < 2 ^ 64
    → end < 2 ^ 64
    → end / 2 ^ 32 ≡ base / 2 ^ 32
    → ((span ≡ 16) ⊎ (span ≡ 32)) × (base % span ≡ 0)
    → ((high_word pointer == base / 2 ^ 32 % 2 ^ 32)
        && leb (base % 2 ^ 32) (low_word pointer)
        && not (leb (end % 2 ^ 32) (low_word pointer))
        && low_word pointer % span == 0)
      ≡ (leb base pointer && ltb pointer end && (pointer - base) % span == 0)
slot_halves base end pointer span p q together (inl e, aligned) = rw e (ground arith)
slot_halves base end pointer span p q together (inr e, aligned) = rw e (ground arith)

mask_stride : (length x : ℕ) → bit_and x (stride length - 1) ≡ x % stride length
mask_stride length x = elim (Bool-cases (length == 28)) [
  | inl e ↦ rw e (bit_and-31 x)
  | inr e ↦ rw e (bit_and-15 x)
]

stride_cases :
    (r : Range)
    → IsRange r
    → ((stride r.length ≡ 16) ⊎ (stride r.length ≡ 32)) × (r.base % stride r.length ≡ 0)
stride_cases r valid = elim (Bool-cases (r.length == 28)) [
  | inl e ↦ rw e (inr refl, rw e at valid.aligned)
  | inr e ↦ rw e (inl refl, rw e at valid.aligned)
]

pub range_block_lem :
    (c : Call) (rest : List Insn) (v : ℕ) (r : Range)
    → c.args 1 < 2 ^ 64
    → c.args 2 < 2 ^ 64
    → IsRange r
    → ((a : ℕ) → run_rest c rest 0 a ≡ some v)
    → (a : ℕ)
    → run_rest c (range_block r rest) 0 a
      ≡ some (if at_slot r (c.args 1) (c.args 2) then allow else v)
range_block_lem c rest v r p q valid next a =
    simp (machine, next)
      (ground (
        arith,
        mask_stride r.length (low_word (c.args 1)),
        slot_halves r.base (r.base + r.slots * stride r.length) (c.args 1) (stride r.length) p
            valid.below valid.together (stride_cases r valid),
      ))
