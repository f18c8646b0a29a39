-- ===== src/Promises/Block/Layout.antt =====
-- What rule_block of core/promises.c writes, as a list of instructions.
use cosmic.Prelude.{
  ℕ, suc, ◌+◌, ◌-◌, ◌%◌, ◌^◌, ◌≤◌, ◌<◌, ◌≡◌, refl, ap, ◌∙◌, Bool, true, false, List, [], ◌∷◌, ◌++◌,
  map, arith, ltb, length, length-append, length-map, get_elem?-at_length, set-at_length,
}
use mathlib.Core.List.{append_assoc}
use cosmic.Connector.Bpf.{Insn}
use cosmic.Promises.Block.{
  Builder, Patch, insn, redirected, repoint, end_of, repoint_all, finish, rule_block, return_allow,
}
use cosmic.Promises.Block.Steps.{
  Target, next, skip, allowed, denied, Step, load, mask, test, rule_steps, rule_denial,
}
use cosmic.Promises.Rules.{Rule, rule_none, rule_mprotect}
use cosmic.Promises.Block.Performed.{
  ready, open_block, patch_for, erased, laid, patches_at, patches_of, laid_all, laid_block,
  emit_lem, length-snoc, perform_lem,
}

-- An instruction after a patch.
abbrev pointed : Insn → ℕ → Bool → Target → Insn
pointed i after when_false next = i
pointed i after when_false skip = i
pointed i after when_false allowed = redirected i when_false (suc after)
pointed i after when_false denied = redirected i when_false after

repoint_lem :
    (ws rest : List Insn) (i : Insn) (when_false : Bool) (t : Target) (distance : ℕ)
    → distance ≤ 255
    → repoint
        (ready (ws ++ i ∷ rest))
        (record { at = length ws; when_false = when_false; target = t })
        distance
      ≡ ready (ws ++ redirected i when_false distance ∷ rest)
unfolding repoint
repoint_lem ws rest i when_false t distance small =
    let near_enough : ltb 255 distance ≡ false = ground arith in
    rw (near_enough, get_elem?-at_length ws i rest)
      (ap ready (set-at_length ws i (redirected i when_false distance) rest))

-- The jumps of one target, of an instruction with `after` more to the denial.
repoint_for :
    (ws rest : List Insn) (i : Insn) (when_false : Bool) (t : Target) (after : ℕ)
    → after ≤ 254
    → length ws + suc after < 2 ^ 32
    → repoint_all
        (ready (ws ++ i ∷ rest))
        (patch_for (length ws) when_false t)
        (length ws + suc after)
        (suc (length ws + suc after))
      ≡ ready (ws ++ pointed i after when_false t ∷ rest)
unfolding repoint_all
repoint_for ws rest i w next after small fits = refl
repoint_for ws rest i w skip after small fits = refl
repoint_for ws rest i w allowed after small fits =
    ap
      (repoint (ready (ws ++ i ∷ rest))
        (record { at = length ws; when_false = w; target = allowed }))
      (omega arith)
    ∙ repoint_lem ws rest i w allowed (suc after) (omega arith)
repoint_for ws rest i w denied after small fits =
    ap
      (repoint (ready (ws ++ i ∷ rest))
        (record { at = length ws; when_false = w; target = denied }))
      (omega arith)
    ∙ repoint_lem ws rest i w denied after (omega arith)

repoint_all-append :
    (ps qs : List Patch) (deny allow : ℕ) (b : Builder)
    → repoint_all b (ps ++ qs) deny allow ≡ repoint_all (repoint_all b ps deny allow) qs deny allow
unfolding repoint_all
repoint_all-append [] qs deny allow b = refl
repoint_all-append (p ∷ ps) qs deny allow b =
    let distance = (end_of p.target deny allow + 2 ^ 64 - (p.at + 1)) % 2 ^ 64 in
    repoint_all-append ps qs deny allow (repoint b p distance)

pointed-erased :
    (op value : ℕ) (y n : Target) (after : ℕ)
    → after ≤ 254
    → pointed (pointed (erased (test op value y n)) after false y) after true n
      ≡ laid after (test op value y n)
pointed-erased op value next n after small = by_false n
  where
    by_false :
        (n : Target)
        → pointed (erased (test op value next n)) after true n ≡ laid after (test op value next n)
    by_false next = refl
    by_false skip = refl
    by_false allowed = ground arith
    by_false denied = ground arith
pointed-erased op value skip next after small = refl
pointed-erased op value skip skip after small = refl
pointed-erased op value skip allowed after small = ground arith
pointed-erased op value skip denied after small = ground arith
pointed-erased op value allowed next after small = ground arith
pointed-erased op value allowed skip after small = ground arith
pointed-erased op value allowed allowed after small = ground arith
pointed-erased op value allowed denied after small = ground arith
pointed-erased op value denied next after small = ground arith
pointed-erased op value denied skip after small = ground arith
pointed-erased op value denied allowed after small = ground arith
pointed-erased op value denied denied after small = ground arith

-- The patches of one call.
repoint_step :
    (ws rest : List Insn) (s : Step) (after : ℕ)
    → after ≤ 254
    → length ws + suc after < 2 ^ 32
    → repoint_all
        (ready (ws ++ erased s ∷ rest))
        (patches_at (length ws) s)
        (length ws + suc after)
        (suc (length ws + suc after))
      ≡ ready (ws ++ laid after s ∷ rest)
unfolding repoint_all
repoint_step ws rest (load offset) after small fits = refl
repoint_step ws rest (mask value) after small fits = refl
repoint_step ws rest (test op value y n) after small fits =
    let deny = length ws + suc after in
    let i = erased (test op value y n) in
    repoint_all-append (patch_for (length ws) false y) (patch_for (length ws) true n) deny
      (suc deny) (ready (ws ++ i ∷ rest))
    ∙ ap (λ b. repoint_all b (patch_for (length ws) true n) deny (suc deny))
        (repoint_for ws rest i false y after small fits)
    ∙ repoint_for ws rest (pointed i after false y) true n after small fits
    ∙ ap (λ j. ready (ws ++ j ∷ rest)) (pointed-erased op value y n after small)

repoint_all_lem :
    (ws rest : List Insn) (steps : List Step)
    → length steps ≤ 255
    → length ws + length steps < 2 ^ 32
    → repoint_all
        (ready (ws ++ (map erased steps ++ rest)))
        (patches_of (length ws) steps)
        (length ws + length steps)
        (suc (length ws + length steps))
      ≡ ready (ws ++ (laid_all steps ++ rest))
unfolding repoint_all
repoint_all_lem ws rest [] small fits = refl
repoint_all_lem ws rest (s ∷ steps) small fits =
    let deny = length ws + suc (length steps) in
    let rest' = map erased steps ++ rest in
    let i = laid (length steps) s in
    let longer : length (ws ++ i ∷ []) ≡ suc (length ws) = length-snoc ws i in
    let same : suc (length ws) + length steps ≡ deny = omega arith in
    let more = repoint_all_lem (ws ++ i ∷ []) rest steps (omega arith) (omega arith) in
    repoint_all-append (patches_at (length ws) s) (patches_of (suc (length ws)) steps) deny
      (suc deny) (ready (ws ++ erased s ∷ rest'))
    ∙ ap (λ b. repoint_all b (patches_of (suc (length ws)) steps) deny (suc deny))
        (repoint_step ws rest' s (length steps) (omega arith) fits)
    ∙ rw
        (
          longer,
          same,
          append_assoc ws (i ∷ []) rest',
          append_assoc ws (i ∷ []) (laid_all steps ++ rest),
        )
        at more

-- No rule has more than 24 calls, nor more jumps to its end than a block keeps patches for.
pub length-rule_steps : (rule : Rule) (pid : ℕ) (arm : Bool) → length (rule_steps rule pid arm) ≤ 24
unfolding rule_steps
length-rule_steps rule_none pid arm = omega arith
length-rule_steps rule_mprotect pid true = omega arith
length-rule_steps rule_mprotect pid false = omega arith
length-rule_steps rule pid arm = omega arith

patches_few :
    (rule : Rule) (pid : ℕ) (arm : Bool) (at : ℕ)
    → length (patches_of at (rule_steps rule pid arm)) ≤ 32
unfolding rule_steps
patches_few rule_none pid arm at = omega arith
patches_few rule_mprotect pid true at = omega arith
patches_few rule_mprotect pid false at = omega arith
patches_few rule pid arm at = omega arith

finish_lem :
    (xs : List Insn) (steps : List Step) (denial : ℕ)
    → length xs + length steps + 2 ≤ 4096
    → length steps ≤ 255
    → finish (open_block (xs ++ map erased steps) (patches_of (length xs) steps)) denial
      ≡ ready (xs ++ laid_block steps denial)
unfolding finish
finish_lem xs steps denial room small =
    let body = xs ++ map erased steps in
    let sized : length body ≡ length xs + length steps =
      omega (arith, length-append xs (map erased steps), length-map steps erased) in
    let deny = insn 0x06 0 0 denial in
    let allow = insn 0x06 0 0 return_allow in
    let longer : length (body ++ deny ∷ []) ≡ suc (length body) = length-snoc body deny in
    let joined : (body ++ deny ∷ []) ++ allow ∷ [] ≡ xs ++ (map erased steps ++ deny ∷ allow ∷ []) =
      append_assoc body (deny ∷ []) (allow ∷ [])
      ∙ append_assoc xs (map erased steps) (deny ∷ allow ∷ []) in
    rw (emit_lem body 0x06 0 0 denial (omega arith)) (
      rw (emit_lem (body ++ deny ∷ []) 0x06 0 0 return_allow (omega arith)) (
        rw (longer, sized, joined)
          (repoint_all_lem xs (deny ∷ allow ∷ []) steps small (omega arith))))

-- The block of a rule: its calls laid out, with each jump to the denial or the allowance that stand
-- at its end.
pub rule_block_lem :
    (xs : List Insn) (rule : Rule) (pid : ℕ) (arm : Bool)
    → length xs + 26 ≤ 4096
    → rule_block (ready xs) rule pid arm
      ≡ ready (xs ++ laid_block (rule_steps rule pid arm) (rule_denial rule))
unfolding rule_block
rule_block_lem xs rule pid arm room =
    let steps = rule_steps rule pid arm in
    let few : length steps ≤ 24 = length-rule_steps rule pid arm in
    rw (perform_lem xs [] steps (omega arith) (omega (arith, patches_few rule pid arm (length xs))))
      (finish_lem xs steps (rule_denial rule) (omega arith) (omega arith))
