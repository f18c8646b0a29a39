-- ===== src/Connector/Filter/Policy.antt =====
-- What the filter of core/connector.c accepts, as a policy over whole 64-bit arguments, and that
-- the program it builds decides that policy on every call.
use cosmic.Prelude.{
  ℕ, ◌^◌, ◌≤◌, ◌<◌, ◌≡◌, refl, Bool, true, false, not, ◌&&◌, ◌||◌, some, List, [], ◌∷◌, arith, ◌==◌,
  if◌then◌else◌, ap, ◌∙◌, length, inl, inr,
}
use cosmic.Connector.Bpf.{Insn, Call, low_word, run, run_rest, run-run_rest}
use cosmic.Connector.Filter.{
  Range, Numbers, insn, allow, kill, refuse, x86, arm, no_number, program,
}
use cosmic.Connector.Filter.Blocks.{
  machine, jump_eq_lem, jump_lem, ret_lem, at_slot, IsRange, range_block_lem,
}
use cosmic.Connector.Filter.Layout.{
  read_block, write_block, close_block, socket_block, getsockopt_block, sendmsg_block, ranges_block,
  head_block, whole_program, IsKnown, ranges_max, program_layout,
}

-- The arguments of a call are 64 bits wide, its number 32.
pub record IsCall (c : Call) : Type 0 where
  pub number : c.number < 2 ^ 32
  pub args : (i : ℕ) → c.args i < 2 ^ 64

pub data AllRanges : List Range → Type 0 where
  nil : AllRanges []
  cons : {r : Range} {rest : List Range} → IsRange r → AllRanges rest → AllRanges (r ∷ rest)

abbrev pub verdict : Bool → ℕ
verdict accepted = if accepted then allow else refuse

abbrev pub in_ranges : List Range → ℕ → ℕ → Bool
in_ranges [] pointer length = false
in_ranges (r ∷ rest) pointer length = at_slot r pointer length || in_ranges rest pointer length

module _ {ℓ} {A : Type ℓ} where
  some-if : (b : Bool) (x y : A) → some (if b then x else y) ≡ (if b then some x else some y)
  some-if true x y = refl
  some-if false x y = refl

  if-or : (a b : Bool) (x y : A) → (if a || b then x else y) ≡ (if a then x else if b then x else y)
  if-or true b x y = refl
  if-or false b x y = refl

verdict-or : (a b : Bool) → (if a then allow else verdict b) ≡ verdict (a || b)
verdict-or true b = refl
verdict-or false b = refl

-- The calls whose arguments are not looked at.
abbrev pub is_simple : Numbers → ℕ → Bool
is_simple n number =
    (not (n.poll == no_number) && number == n.poll)
    || number == n.ppoll
    || number == n.clock
    || number == n.exit
    || number == n.exit_group

abbrev pub judge : Numbers → List Range → ℕ → ℕ → Call → ℕ
judge n ranges control status c =
    if c.number == n.read
    then verdict (c.args 0 == control)
    else if c.number == n.write
    then verdict (c.args 0 == control || c.args 0 == status)
    else if c.number == n.close
    then (if low_word (c.args 0) == control then kill else allow)
    else if c.number == n.socket
    then verdict ((c.args 0 == 2 || c.args 0 == 10) && c.args 1 == 0x80801 && c.args 2 == 6)
    else if c.number == n.connect
    then verdict (in_ranges ranges (c.args 1) (c.args 2))
    else if c.number == n.getsockopt
    then verdict (c.args 1 == 1 && c.args 2 == 4)
    else if c.number == n.sendmsg
    then verdict (c.args 2 == 0x4000 && c.args 0 == control)
    else refuse

abbrev pub policy : Numbers → List Range → ℕ → ℕ → Call → ℕ
policy n ranges control status c =
    if c.architecture == n.audit
    then (if is_simple n c.number then allow else judge n ranges control status c)
    else kill

module _ (c : Call) (valid : IsCall c) where
  read_lem :
      (control : ℕ)
      → control < 2 ^ 32
      → (rest : List Insn) (a : ℕ)
      → run_rest c (read_block control rest) 0 a ≡ some (verdict (c.args 0 == control))
  read_lem control fits rest a = simp machine (ground (arith, valid.args 0))

  write_lem :
      (control status : ℕ)
      → control < 2 ^ 32
      → status < 2 ^ 32
      → (rest : List Insn) (a : ℕ)
      → run_rest c (write_block control status rest) 0 a
        ≡ some (verdict (c.args 0 == control || c.args 0 == status))
  write_lem control status fits fits' rest a = simp machine (ground (arith, valid.args 0))

  close_lem :
      (control : ℕ) (rest : List Insn) (a : ℕ)
      → run_rest c (close_block control rest) 0 a
        ≡ some (if low_word (c.args 0) == control then kill else allow)
  close_lem control rest a = simp machine (ground arith)

  socket_lem :
      (rest : List Insn) (a : ℕ)
      → run_rest c (socket_block rest) 0 a
        ≡ some (verdict ((c.args 0 == 2 || c.args 0 == 10) && c.args 1 == 0x80801 && c.args 2 == 6))
  socket_lem rest a = simp machine (ground (arith, valid.args 0, valid.args 1, valid.args 2))

  getsockopt_lem :
      (rest : List Insn) (a : ℕ)
      → run_rest c (getsockopt_block rest) 0 a ≡ some (verdict (c.args 1 == 1 && c.args 2 == 4))
  getsockopt_lem rest a = simp machine (ground (arith, valid.args 1, valid.args 2))

  sendmsg_lem :
      (control : ℕ)
      → control < 2 ^ 32
      → (rest : List Insn) (a : ℕ)
      → run_rest c (sendmsg_block control rest) 0 a
        ≡ some (verdict (c.args 2 == 0x4000 && c.args 0 == control))
  sendmsg_lem control fits rest a = simp machine (ground (arith, valid.args 0, valid.args 2))

  connect_lem :
      {ranges : List Range}
      → AllRanges ranges
      → (a : ℕ)
      → run_rest c (ranges_block ranges) 0 a
        ≡ some (verdict (in_ranges ranges (c.args 1) (c.args 2)))
  connect_lem nil a = simp machine
  connect_lem (cons {r = r} {rest = rest} h hs) a =
      range_block_lem c (ranges_block rest) (verdict (in_ranges rest (c.args 1) (c.args 2))) r
        (valid.args 1) (valid.args 2) h (connect_lem hs) a
      ∙ ap some (verdict-or (at_slot r (c.args 1) (c.args 2)) _)

module _ (c : Call) (rest : List Insn) (a : ℕ) where
  load_architecture_lem : run_rest c (insn 0x20 0 0 4 ∷ rest) 0 a ≡ run_rest c rest 0 c.architecture
  unfolding run_rest
  load_architecture_lem = refl

  load_number_lem : run_rest c (insn 0x20 0 0 0 ∷ rest) 0 a ≡ run_rest c rest 0 (low_word c.number)
  unfolding run_rest
  load_number_lem = refl

module _ (c : Call) (valid : IsCall c) (control status : ℕ) (fits : control < 2 ^ 32)
    (fits' : status < 2 ^ 32) {ranges : List Range} (h : AllRanges ranges) where
  low_number : low_word c.number ≡ c.number
  low_number = omega (arith, valid.number)

  head_x86_lem :
      run_rest c (head_block x86 control status (ranges_block ranges)) 0 0
      ≡ some (policy x86 ranges control status c)
  head_x86_lem = simp (
    load_architecture_lem,
    load_number_lem,
    low_number,
    jump_eq_lem,
    jump_lem,
    ret_lem,
    read_lem c valid control fits,
    write_lem c valid control status fits fits',
    close_lem c valid control,
    socket_lem c valid,
    getsockopt_lem c valid,
    sendmsg_lem c valid control fits,
    connect_lem c valid h,
    some-if,
    if-or,
  )

  head_arm_lem :
      run_rest c (head_block arm control status (ranges_block ranges)) 0 0
      ≡ some (policy arm ranges control status c)
  head_arm_lem = simp (
    load_architecture_lem,
    load_number_lem,
    low_number,
    jump_eq_lem,
    jump_lem,
    ret_lem,
    read_lem c valid control fits,
    write_lem c valid control status fits fits',
    close_lem c valid control,
    socket_lem c valid,
    getsockopt_lem c valid,
    sendmsg_lem c valid control fits,
    connect_lem c valid h,
    some-if,
    if-or,
  )

-- On every system call whose number is 32 bits and whose arguments are 64 bits wide, the
-- program that connector_program builds for either architecture's numbers, at most 130 ranges
-- that the filter can express and descriptors below 2^32 ends with the verdict of the policy, a
-- decision over whole arguments that names no instruction.
pub program-policy :
    (n : Numbers) (ranges : List Range) (control status : ℕ) (c : Call)
    → IsKnown n
    → AllRanges ranges
    → length ranges ≤ ranges_max
    → control < 2 ^ 32
    → status < 2 ^ 32
    → IsCall c
    → run c (program n ranges control status).0.insns ≡ some (policy n ranges control status c)
program-policy n ranges control status c known h few fits fits' valid =
    ap (λ built. run c built.0.insns) (program_layout n ranges control status known few)
    ∙ run-run_rest c (whole_program n ranges control status)
    ∙ decided n known
  where
    decided :
        (n : Numbers)
        → IsKnown n
        → run_rest c (whole_program n ranges control status) 0 0
          ≡ some (policy n ranges control status c)
    decided n (inl e) = rw e (head_x86_lem c valid control status fits fits' h)
    decided n (inr e) = rw e (head_arm_lem c valid control status fits fits' h)
