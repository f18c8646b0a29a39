-- ===== src/Connector/Filter/Layout.antt =====
-- What the builder of core/connector.c emits, as a list: the fixed part of each architecture's
-- program, then the blocks of the ranges.
use cosmic.Prelude.{
  ℕ, ◌+◌, ◌-◌, ◌*◌, ◌^◌, ◌≤◌, ◌<◌, ◌≡◌, refl, true, false, List, [], ◌∷◌, ◌++◌, arith, ◌==◌,
  if◌then◌else◌, ap, ◌∙◌, sym, inl, inr, ◌⊎◌, length, length-append,
}
use cosmic.Connector.Bpf.{Insn}
use mathlib.Core.List.{append-nil, append_assoc}
use cosmic.Connector.Filter.{
  Range, Numbers, Code, insn, allow, kill, refuse, x86, arm, program_head, accept_range,
  accept_ranges, program, program_length, insns_max, returning, emit,
}
use cosmic.Connector.Filter.Blocks.{load_insn, ret_insn, equal_block, range_block}

abbrev pub accept_block : ℕ → List Insn → List Insn
accept_block number rest = insn 0x15 0 1 number ∷ ret_insn allow ∷ rest

abbrev pub dispatch_block : ℕ → ℕ → List Insn → List Insn
dispatch_block number offset rest = insn 0x15 0 1 number ∷ insn 0x05 0 0 offset ∷ rest

-- The calls that are accepted whatever their arguments.
abbrev pub simple_block : Numbers → List Insn → List Insn
simple_block n rest =
    let others =
      accept_block n.ppoll
        (accept_block n.clock (accept_block n.exit (accept_block n.exit_group rest))) in
    if n.poll == 2 ^ 32 - 1 then others else accept_block n.poll others

abbrev pub read_block : ℕ → List Insn → List Insn
read_block control rest = equal_block 0 control (ret_insn allow ∷ rest)

abbrev pub write_block : ℕ → ℕ → List Insn → List Insn
write_block control status rest =
    load_insn 0 true
    ∷ insn 0x15 1 0 0
    ∷ ret_insn refuse
    ∷ load_insn 0 false
    ∷ insn 0x15 2 0 control
    ∷ insn 0x15 1 0 status
    ∷ ret_insn refuse
    ∷ ret_insn allow
    ∷ rest

abbrev pub close_block : ℕ → List Insn → List Insn
close_block control rest =
    load_insn 0 false ∷ insn 0x15 0 1 control ∷ ret_insn kill ∷ ret_insn allow ∷ rest

abbrev pub socket_block : List Insn → List Insn
socket_block rest =
    load_insn 0 true
    ∷ insn 0x15 1 0 0
    ∷ ret_insn refuse
    ∷ load_insn 0 false
    ∷ insn 0x15 2 0 2
    ∷ insn 0x15 1 0 10
    ∷ ret_insn refuse
    ∷ equal_block 1 0x80801 (equal_block 2 6 (ret_insn allow ∷ rest))

abbrev pub getsockopt_block : List Insn → List Insn
getsockopt_block rest = equal_block 1 1 (equal_block 2 4 (ret_insn allow ∷ rest))

abbrev pub sendmsg_block : ℕ → List Insn → List Insn
sendmsg_block control rest = equal_block 2 0x4000 (equal_block 0 control (ret_insn allow ∷ rest))

abbrev pub head_block : Numbers → ℕ → ℕ → List Insn → List Insn
head_block n control status rest =
    insn 0x20 0 0 4
    ∷ insn 0x15 1 0 n.audit
    ∷ ret_insn kill
    ∷ insn 0x20 0 0 0
    ∷ simple_block n (
        dispatch_block n.read 13 (
          dispatch_block n.write 18 (
            dispatch_block n.close 24 (
              dispatch_block n.socket 26 (
                dispatch_block n.connect 70 (
                  dispatch_block n.getsockopt 42 (
                    dispatch_block n.sendmsg 53 (
                      ret_insn refuse
                      ∷ read_block control (
                          write_block control status (
                            close_block control (
                              socket_block
                                (getsockopt_block (sendmsg_block control rest)))))))))))))

abbrev pub ranges_block : List Range → List Insn
ranges_block [] = ret_insn refuse ∷ []
ranges_block (r ∷ rest) = range_block r (ranges_block rest)

-- A program whose instructions were all kept.
abbrev pub full : List Insn → Code
full xs = record { insns = xs; used = length xs }

head_x86 :
    (control status : ℕ)
    → (program_head x86 control status (record { insns = []; used = 0 })).1 ≡ record {
      insns = head_block x86 control status [];
      used = length (head_block x86 control status []);
    }
unfolding program_head
head_x86 control status = refl

head_arm :
    (control status : ℕ)
    → (program_head arm control status (record { insns = []; used = 0 })).1 ≡ record {
      insns = head_block arm control status [];
      used = length (head_block arm control status []);
    }
unfolding program_head
head_arm control status = refl

-- Emitting a list of instructions one by one.
emit_all : List Insn → Code → Code
unfolding emit
emit_all [] code = code
emit_all (i ∷ rest) code = emit_all rest (emit i.code i.jt i.jf i.k code).1

emit-full :
    (i : Insn) (xs : List Insn)
    → length xs < insns_max
    → (emit i.code i.jt i.jf i.k (full xs)).1 ≡ full (xs ++ i ∷ [])
unfolding emit
emit-full i xs h = ground (arith, length-append xs (i ∷ []))

emit_all-full :
    (program xs : List Insn)
    → length xs + length program ≤ insns_max
    → emit_all program (full xs) ≡ full (xs ++ program)
unfolding emit_all
emit_all-full [] xs h = ap full (sym (append-nil xs))
emit_all-full (i ∷ rest) xs h =
    ap (emit_all rest) (emit-full i xs (omega arith))
    ∙ emit_all-full rest (xs ++ i ∷ []) (omega (arith, length-append xs (i ∷ [])))
    ∙ ap full (append_assoc xs (i ∷ []) rest)

-- The builder of a range emits the range's block.
accept_range_lem :
    (r : Range) (code : Code) → (accept_range r code).1 ≡ emit_all (range_block r []) code
unfolding accept_range emit_all
accept_range_lem r code = refl

abbrev range_blocks : List Range → List Insn
range_blocks [] = []
range_blocks (r ∷ rest) = range_block r (range_blocks rest)

accept_ranges-full :
    (ranges : List Range) (xs : List Insn)
    → length xs + 12 * length ranges ≤ insns_max
    → (accept_ranges ranges (full xs)).1 ≡ full (xs ++ range_blocks ranges)
unfolding accept_ranges
accept_ranges-full [] xs h = ap full (sym (append-nil xs))
accept_ranges-full (r ∷ rest) xs h =
    ap (λ code. (accept_ranges rest code).1)
      (accept_range_lem r (full xs) ∙ emit_all-full (range_block r []) xs (omega arith))
    ∙ accept_ranges-full rest (xs ++ range_block r [])
        (omega (arith, length-append xs (range_block r [])))
    ∙ ap full (append_assoc xs (range_block r []) (range_blocks rest))

length-range_blocks : (ranges : List Range) → length (range_blocks ranges) ≡ 12 * length ranges
length-range_blocks [] = refl
length-range_blocks (r ∷ rest) = omega (arith, length-range_blocks rest)

range_blocks-refuse :
    (ranges : List Range) → range_blocks ranges ++ ret_insn refuse ∷ [] ≡ ranges_block ranges
range_blocks-refuse [] = refl
range_blocks-refuse (r ∷ rest) = ap (range_block r) (range_blocks-refuse rest)

pub length-ranges_block :
    (ranges : List Range) → length (ranges_block ranges) ≡ 12 * length ranges + 1
length-ranges_block [] = refl
length-ranges_block (r ∷ rest) = omega (arith, length-ranges_block rest)

-- From a head that was kept whole, the ranges and the last refusal are too.
tail_full :
    (ranges : List Range) (xs : List Insn)
    → length xs + 12 * length ranges < insns_max
    → (returning refuse (accept_ranges ranges (full xs)).1).1 ≡ full (xs ++ ranges_block ranges)
unfolding returning
tail_full ranges xs h =
    ap (λ code. (emit 0x06 0 0 refuse code).1) (accept_ranges-full ranges xs (omega arith))
    ∙ emit-full (ret_insn refuse) (xs ++ range_blocks ranges)
        (omega (arith, length-append xs (range_blocks ranges), length-range_blocks ranges))
    ∙ ap full (
        append_assoc xs (range_blocks ranges) (ret_insn refuse ∷ [])
        ∙ ap (λ ys. xs ++ ys) (range_blocks-refuse ranges))

abbrev pub ranges_max : ℕ
ranges_max = 130

-- The two architectures' numbers.
abbrev pub IsKnown : Numbers → Type 0
IsKnown n = (n ≡ x86) ⊎ (n ≡ arm)

abbrev pub whole_program : Numbers → List Range → ℕ → ℕ → List Insn
whole_program n ranges control status = head_block n control status (ranges_block ranges)

program_length_fits :
    (xs : List Insn) (ranges : List Range)
    → length xs + 12 * length ranges < insns_max
    → program_length (full (xs ++ ranges_block ranges)) ≡ length (xs ++ ranges_block ranges)
unfolding program_length
program_length_fits xs ranges h =
    ground (arith, length-append xs (ranges_block ranges), length-ranges_block ranges)

program_from :
    (n : Numbers) (ranges : List Range) (control status : ℕ) (xs : List Insn)
    → length xs + 12 * length ranges < insns_max
    → (program_head n control status (record { insns = []; used = 0 })).1 ≡ full xs
    → program n ranges control status
      ≡ (full (xs ++ ranges_block ranges), length (xs ++ ranges_block ranges))
unfolding program
program_from n ranges control status xs h head =
    ap (λ code. (code, program_length code))
      (ap (λ code. (returning refuse (accept_ranges ranges code).1).1) head ∙ tail_full ranges xs h)
    ∙ ap (λ size. (full (xs ++ ranges_block ranges), size)) (program_length_fits xs ranges h)

pub program_layout :
    (n : Numbers) (ranges : List Range) (control status : ℕ)
    → IsKnown n
    → length ranges ≤ ranges_max
    → program n ranges control status ≡ (
      full (whole_program n ranges control status),
      length (whole_program n ranges control status),
    )
program_layout n ranges control status (inl e) h = rw e (
    program_from x86 ranges control status (head_block x86 control status []) (omega arith)
      (head_x86 control status))
program_layout n ranges control status (inr e) h = rw e (
    program_from arm ranges control status (head_block arm control status []) (omega arith)
      (head_arm control status))
