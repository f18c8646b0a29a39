-- ===== src/Connector/Filter.antt =====
-- The filter builder of core/connector.c: connector_emit to connector_program. The builder is an
-- explicit state, the program so far.
pub mod Blocks
pub mod Layout
pub mod Policy
pub mod Size
pub mod Handler
use cosmic.Prelude.{
  ℕ, zero, suc, ◌+◌, ◌-◌, ◌*◌, ◌/◌, ◌%◌, ◌^◌, Bool, true, false, Option, none, some, List, [], ◌∷◌,
  ◌++◌, ◌==◌, ltb, leb, if◌then◌else◌, length, get_elem?, set,
}
use cosmic.Connector.Bpf.{Insn}

abbrev pub insns_max : ℕ
insns_max = 4096

-- CONNECTOR_ALLOW, CONNECTOR_KILL and CONNECTOR_REFUSE (EPERM is 1)
abbrev pub allow : ℕ
allow = 0x7fff0000

abbrev pub kill : ℕ
kill = 0x80000000

abbrev pub refuse : ℕ
refuse = 0x00050001

-- connector_stride
abbrev pub stride : ℕ → ℕ
stride length = if length == 28 then 32 else 16

-- struct connector_range
pub record Range : Type 0 where
  pub base : ℕ
  pub slots : ℕ
  pub length : ℕ

-- struct connector_code: the instructions written, and how many were emitted, which is more
-- where the array was full.
pub record Code : Type 0 where
  pub insns : List Insn
  pub used : ℕ

-- struct connector_numbers
pub record Numbers : Type 0 where
  pub audit : ℕ
  pub read : ℕ
  pub write : ℕ
  pub close : ℕ
  pub poll : ℕ
  pub ppoll : ℕ
  pub clock : ℕ
  pub exit : ℕ
  pub exit_group : ℕ
  pub socket : ℕ
  pub connect : ℕ
  pub getsockopt : ℕ
  pub sendmsg : ℕ

abbrev pub no_number : ℕ
no_number = 2 ^ 32 - 1

abbrev pub x86 : Numbers
x86 = record {
  audit = 0xc000003e;
  read = 0;
  write = 1;
  close = 3;
  poll = 7;
  ppoll = 271;
  clock = 228;
  exit = 60;
  exit_group = 231;
  socket = 41;
  connect = 42;
  getsockopt = 55;
  sendmsg = 46;
}

abbrev pub arm : Numbers
arm = record {
  audit = 0xc00000b7;
  read = 63;
  write = 64;
  close = 57;
  poll = no_number;
  ppoll = 73;
  clock = 113;
  exit = 93;
  exit_group = 94;
  socket = 198;
  connect = 203;
  getsockopt = 209;
  sendmsg = 211;
}

-- A builder's step; `dispatch` returns the index of its jump besides.
abbrev Build : Type 0 → Type 0
Build A = Code → A × Code

infixl 5 ◌>>=◌ ◌>>◌
abbrev ◌>>=◌ : {A B : Type 0} → Build A → (A → Build B) → Build B
◌>>=◌ m f code = let (a, code') = m code in f a code'

abbrev ◌>>◌ : {A B : Type 0} → Build A → Build B → Build B
m >> n = m >>= λ _. n

abbrev insn : ℕ → ℕ → ℕ → ℕ → Insn
insn op jt jf k = record { code = op; jt = jt; jf = jf; k = k }

-- connector_emit
emit : ℕ → ℕ → ℕ → ℕ → Build Unit
emit op jt jf k code = (
  tt,
  record {
    insns = if ltb code.used insns_max then code.insns ++ insn op jt jf k ∷ [] else code.insns;
    used = code.used + 1;
  },
)

-- connector_load
load : ℕ → Bool → Build Unit
unfolding emit
load argument high = emit 0x20 0 0 (16 + 8 * argument + (if high then 4 else 0))

-- connector_equal
equal : ℕ → ℕ → Build Unit
unfolding emit load
equal argument value = do
  load argument true
  emit 0x15 1 0 0
  emit 0x06 0 0 refuse
  load argument false
  emit 0x15 1 0 value
  emit 0x06 0 0 refuse

-- connector_return
returning : ℕ → Build Unit
unfolding emit
returning value = emit 0x06 0 0 value

-- connector_dispatch
dispatch : ℕ → Build ℕ
unfolding emit
dispatch number = do
  emit 0x15 0 1 number
  jump ← λ (code : Code). (code.used, code)
  emit 0x05 0 0 0
  λ (code : Code). (jump, code)

-- insns[jump].k = k
set_target : List Insn → ℕ → ℕ → List Insn
set_target program jump k = elim (get_elem? program jump) [
  | none ↦ program
  | some i ↦ set program jump (record i { k = k })
]

-- connector_target
target : ℕ → Build Unit
unfolding set_target
target jump code = (
  tt,
  record code {
    insns =
        if ltb jump insns_max
        then set_target code.insns jump (code.used - jump - 1)
        else code.insns;
  },
)

-- connector_fd
accept_fd : ℕ → Build Unit
unfolding equal returning
accept_fd fd = do equal 0 fd; returning allow

-- The loop over `simple`.
accept_numbers : List ℕ → Build Unit
unfolding emit returning
accept_numbers [] code = (tt, code)
accept_numbers (number ∷ rest) code =
    let accepted = (returning allow (emit 0x15 0 1 number code).1).1 in
    accept_numbers rest (if number == no_number then code else accepted)

-- The body of the loop over the ranges.
accept_range : Range → Build Unit
unfolding emit load returning
accept_range r = do
  let span = stride r.length
  let end = r.base + r.slots * span
  load 1 true
  emit 0x15 0 10 (r.base / 2 ^ 32 % 2 ^ 32)
  load 1 false
  emit 0x35 0 8 (r.base % 2 ^ 32)
  emit 0x35 7 0 (end % 2 ^ 32)
  emit 0x54 0 0 (span - 1)
  emit 0x15 0 5 0
  load 2 true
  emit 0x15 0 3 0
  load 2 false
  emit 0x15 0 1 r.length
  returning allow

accept_ranges : List Range → Build Unit
unfolding accept_range
accept_ranges [] code = (tt, code)
accept_ranges (r ∷ rest) code = accept_ranges rest (accept_range r code).1

-- connector_program, up to the ranges: everything whose length is fixed.
program_head : Numbers → ℕ → ℕ → Build Unit
unfolding accept_numbers dispatch target accept_fd returning
program_head numbers control status = do
  emit 0x20 0 0 4
  emit 0x15 1 0 numbers.audit
  returning kill
  emit 0x20 0 0 0
  accept_numbers
      (numbers.poll ∷ numbers.ppoll ∷ numbers.clock ∷ numbers.exit ∷ numbers.exit_group ∷ [])
  reading ← dispatch numbers.read
  writing ← dispatch numbers.write
  closing ← dispatch numbers.close
  creating ← dispatch numbers.socket
  connecting ← dispatch numbers.connect
  checking ← dispatch numbers.getsockopt
  sending ← dispatch numbers.sendmsg
  returning refuse
  target reading
  accept_fd control
  target writing
  load 0 true
  emit 0x15 1 0 0
  returning refuse
  load 0 false
  emit 0x15 2 0 control
  emit 0x15 1 0 status
  returning refuse
  returning allow
  target closing
  load 0 false
  emit 0x15 0 1 control
  returning kill
  returning allow
  target creating
  load 0 true
  emit 0x15 1 0 0
  returning refuse
  load 0 false
  emit 0x15 2 0 2
  emit 0x15 1 0 10
  returning refuse
  equal 1 0x80801
  equal 2 6
  returning allow
  target checking
  equal 1 1
  equal 2 4
  returning allow
  target sending
  equal 2 0x4000
  accept_fd control
  target connecting

-- The last line of connector_program: the program's length, 0 where it does not fit.
program_length : Code → ℕ
program_length code = if leb code.used insns_max then code.used else 0

-- connector_program
pub program : Numbers → List Range → ℕ → ℕ → Code × ℕ
program numbers ranges control status =
    let start : Code = record { insns = []; used = 0 } in
    let (_, code) =
      (program_head numbers control status >> accept_ranges ranges >> returning refuse) start in
    (code, program_length code)
