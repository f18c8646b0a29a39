-- ===== src/Promises/Tree/Marks.antt =====
-- What tree of core/promises.c writes, as a list of instructions with holes for the jumps to the
-- rules' blocks.
use cosmic.Prelude.{
  ℕ, zero, suc, ◌+◌, ◌-◌, ◌/◌, ◌%◌, ◌^◌, ◌≤◌, ◌<◌, ◌≡◌, refl, sym, ap, ◌∙◌, true, false, List, [],
  ◌∷◌, ◌++◌, map, arith, leb, if◌then◌else◌, length, length-append, take, drop, get_or,
  get_elem?-at_length, set-at_length, length-take, length-drop, Bool-cases, inl, inr, length-map,
}
use mathlib.Core.List.{append-nil, append_assoc, map-append}
use cosmic.Connector.Bpf.{Insn}
use cosmic.Promises.Block.{insn, return_allow}
use cosmic.Promises.Block.Performed.{ready, emit_lem}
use cosmic.Promises.Block.Steps.{errno}
use cosmic.Promises.Rules.{Rule, rule_allow, rule_enosys, same_rule}
use cosmic.Promises.Tree.{Entry, Pending, leaf, leaves, tree, set_k, leaf_run, no_entry}

pub data Mark : Type 0 where
  fixed : Insn → Mark
  hole : Rule → Mark

-- A jump by `k`.
abbrev pub jump : ℕ → Insn
jump k = insn 0x05 0 0 k

abbrev pub erased : Mark → Insn
erased (fixed i) = i
erased (hole rule) = jump 0

-- The holes of a list that stands at `at`.
abbrev pub holes : ℕ → List Mark → List Pending
holes at [] = []
holes at (fixed i ∷ marks) = holes (suc at) marks
holes at (hole rule ∷ marks) = record { at = at; rule = rule } ∷ holes (suc at) marks

abbrev pub leaf_marks : Entry → List Mark
leaf_marks e =
    fixed (insn 0x15 0 1 e.number)
    ∷ (if same_rule e.rule rule_allow
        then fixed (insn 0x06 0 0 return_allow)
        else if same_rule e.rule rule_enosys
        then fixed (insn 0x06 0 0 (errno 38))
        else hole e.rule)
    ∷ []

abbrev pub leaves_marks : List Entry → List Mark
leaves_marks [] = fixed (insn 0x06 0 0 (errno 1)) ∷ []
leaves_marks (e ∷ entries) = leaf_marks e ++ leaves_marks entries

unfoldable pub tree_marks : ℕ → List Entry → List Mark
tree_marks zero entries = leaves_marks entries
tree_marks (suc fuel) entries = elim (leb (length entries) leaf_run) [
  | true ↦ leaves_marks entries
  | false ↦
      let middle = length entries / 2 in
      let lower = tree_marks fuel (take middle entries) in
      fixed (insn 0x35 0 1 (get_or entries middle no_entry).number)
      ∷ fixed (jump (length lower))
      ∷ (lower ++ tree_marks fuel (drop middle entries))
]

holes-append :
    (at : ℕ) (ms ns : List Mark) → holes at (ms ++ ns) ≡ holes at ms ++ holes (at + length ms) ns
holes-append at [] ns = ap (λ n. holes n ns) (omega arith)
holes-append at (fixed i ∷ ms) ns =
    holes-append (suc at) ms ns ∙ ap (λ n. holes (suc at) ms ++ holes n ns) (omega arith)
holes-append at (hole rule ∷ ms) ns =
    ap (λ l. record { at = at; rule = rule } ∷ l)
      (holes-append (suc at) ms ns ∙ ap (λ n. holes (suc at) ms ++ holes n ns) (omega arith))

leaf_lem :
    (xs : List Insn) (e : Entry) (pending : List Pending)
    → length xs + 2 ≤ 4096
    → leaf (ready xs) e pending
      ≡ (ready (xs ++ map erased (leaf_marks e)), pending ++ holes (length xs) (leaf_marks e))
unfolding leaf
leaf_lem xs e pending room =
    let test = insn 0x15 0 1 e.number in
    let longer : length (xs ++ test ∷ []) ≡ suc (length xs) =
      omega (arith, length-append xs (test ∷ [])) in
    rw (emit_lem xs 0x15 0 1 e.number (omega arith))
      (elim (Bool-cases (same_rule e.rule rule_allow)) [
        | inl allowed ↦ rw (
          allowed,
          emit_lem (xs ++ test ∷ []) 0x06 0 0 return_allow (omega arith),
          append_assoc xs (test ∷ []) (insn 0x06 0 0 return_allow ∷ []),
          append-nil pending,
        )
        | inr not_allowed ↦ elim (Bool-cases (same_rule e.rule rule_enosys)) [
          | inl enosys ↦ rw (
            not_allowed,
            enosys,
            emit_lem (xs ++ test ∷ []) 0x06 0 0 (errno 38) (omega arith),
            append_assoc xs (test ∷ []) (insn 0x06 0 0 (errno 38) ∷ []),
            append-nil pending,
          )
          | inr held ↦ rw (
            not_allowed,
            held,
            emit_lem (xs ++ test ∷ []) 0x05 0 0 0 (omega arith),
            append_assoc xs (test ∷ []) (jump 0 ∷ []),
            longer,
          )
        ]
      ])

length-leaf_marks : (e : Entry) → length (leaf_marks e) ≡ 2
length-leaf_marks e = refl

leaves_lem :
    (xs : List Insn) (entries : List Entry) (pending : List Pending)
    → length xs + length (leaves_marks entries) ≤ 4096
    → leaves (ready xs) entries pending ≡ (
      ready (xs ++ map erased (leaves_marks entries)),
      pending ++ holes (length xs) (leaves_marks entries),
    )
unfolding leaves
leaves_lem xs [] pending room =
    rw (emit_lem xs 0x06 0 0 (errno 1) (omega arith), append-nil pending)
leaves_lem xs (e ∷ entries) pending room =
    let here = map erased (leaf_marks e) in
    let longer : length (xs ++ here) ≡ length xs + 2 = omega (arith, length-append xs here) in
    let more =
      leaves_lem (xs ++ here) entries (pending ++ holes (length xs) (leaf_marks e)) (omega arith) in
    rw (leaf_lem xs e pending (omega arith)) (
      more
      ∙ rw (
        longer,
        append_assoc xs here (map erased (leaves_marks entries)),
        append_assoc pending (holes (length xs) (leaf_marks e))
            (holes (length xs + 2) (leaves_marks entries)),
        sym (holes-append (length xs) (leaf_marks e) (leaves_marks entries)),
      ))

pub set_k_lem :
    (xs ys : List Insn) (i : Insn) (k : ℕ)
    → set_k (ready (xs ++ i ∷ ys)) (length xs) k ≡ ready (xs ++ record i { k = k } ∷ ys)
unfolding set_k
set_k_lem xs ys i k =
    rw (get_elem?-at_length xs i ys, set_k) (ap ready (set-at_length xs i (record i { k = k }) ys))

-- The tree writes its marks' instructions, and its pending jumps are their holes.
pub tree_lem :
    (fuel : ℕ) (xs : List Insn) (entries : List Entry) (pending : List Pending)
    → length entries < fuel
    → length xs + length (tree_marks fuel entries) ≤ 4096
    → tree fuel (ready xs) entries pending ≡ (
      ready (xs ++ map erased (tree_marks fuel entries)),
      pending ++ holes (length xs) (tree_marks fuel entries),
    )
unfolding tree tree_marks
tree_lem zero xs entries pending fueled room = absurd (omega arith)
tree_lem (suc fuel) xs entries pending fueled room =
    elim (Bool-cases (leb (length entries) leaf_run)) [
      | inl few ↦
          rw (few, tree, tree_marks) (leaves_lem xs entries pending (rw (few, tree_marks) at room))
      | inr many ↦
          let middle = length entries / 2 in
          let fewer : length (take middle entries) < fuel =
            ground (arith, length-take middle entries) in
          let fewer' : length (drop middle entries) < fuel =
            ground (arith, length-drop middle entries) in
          let i = insn 0x35 0 1 (get_or entries middle no_entry).number in
          let lower = tree_marks fuel (take middle entries) in
          let upper = tree_marks fuel (drop middle entries) in
          let ws = xs ++ i ∷ [] in
          let low_code = map erased lower in
          let written = ws ++ jump (length lower) ∷ low_code in
          let sized : length xs + suc (suc (length (lower ++ upper))) ≤ 4096 =
            rw (many, tree_marks) at room in
          let both : length (lower ++ upper) ≡ length lower + length upper =
            length-append lower upper in
          let ws_size : length ws ≡ suc (length xs) = omega (arith, length-append xs (i ∷ [])) in
          let ws_size' : length (ws ++ jump 0 ∷ []) ≡ suc (suc (length xs)) =
            omega (arith, length-append ws (jump 0 ∷ [])) in
          let low_size : length low_code ≡ length lower = length-map lower erased in
          let written_size : length written ≡ suc (suc (length xs)) + length lower =
            omega (arith, length-append ws (jump (length lower) ∷ low_code)) in
          let before_size : length (ws ++ jump 0 ∷ low_code)
              ≡ suc (suc (length xs)) + length lower =
            omega (arith, length-append ws (jump 0 ∷ low_code)) in
          let distance : (length (ws ++ jump 0 ∷ low_code) + 2 ^ 64 - length ws - 1) % 2 ^ 32
              ≡ length lower =
            omega arith in
          rw (many, tree, tree_marks)
            (rw
              (
                emit_lem xs 0x35 0 1 (get_or entries middle no_entry).number (omega arith),
                emit_lem ws 0x05 0 0 0 (omega arith),
                tree_lem fuel (ws ++ jump 0 ∷ []) (take middle entries) pending fewer (omega arith),
                append_assoc ws (jump 0 ∷ []) low_code,
                distance,
                set_k_lem ws low_code (jump 0) (length lower),
              )
              (tree_lem fuel written (drop middle entries)
                  (pending ++ holes (length (ws ++ jump 0 ∷ [])) lower) fewer' (omega arith)
                ∙ rw
                    (
                      ws_size',
                      written_size,
                      holes-append (suc (suc (length xs))) lower upper,
                      map-append erased lower upper,
                    )
                    (simp append_assoc)))
    ]
