-- ===== src/Promises/Program/Added.antt =====
-- The tables of grants of core/promises.c, added one after another.
use cosmic.Prelude.{
  ℕ, ◌≡◌, refl, sym, ap, ◌∙◌, Bool, true, false, ◌&&◌, some, List, [], ◌∷◌, arith, ltb,
  if◌then◌else◌, Bool-cases, inl, inr, ==_iff,
}
use cosmic.Promises.Calls.{Call, all_calls}
use cosmic.Promises.Calls.Numbers.{same_call, x86_64_number}
use cosmic.Promises.Rules.{Rule, rank, same_rule}
use cosmic.Promises.Rules.Tables.{Grant}
use cosmic.Promises.Program.{RuleOf, raised, add, numbers_of}
use cosmic.Promises.Program.Entries.{numbered}
use cosmic.Promises.Program.Places.{same_rule-eq}

-- The rank of the most allowing of the grants of a call, a rank of its own among them.
unfoldable pub best : ℕ → List Grant → Call → ℕ
best so_far [] call = so_far
best so_far (g ∷ table) call =
    best (if same_call call g.call && ltb so_far (rank g.rule) then rank g.rule else so_far) table
      call

-- A call is known by its number.
pub numbered-x86_64 :
    (call : Call) → numbered (numbers_of false) (x86_64_number call) all_calls ≡ some call
unfolding numbered x86_64_number
numbered-x86_64 Call.read = refl
numbered-x86_64 call = refl

pub some-eq : {a b : Call} → some a ≡ some b → a ≡ b
some-eq h = cc

pub same_call-eq : (a b : Call) → same_call a b ≡ true → a ≡ b
unfolding same_call
same_call-eq a b same = some-eq (
    sym (numbered-x86_64 a)
    ∙ ap (λ n. numbered (numbers_of false) n all_calls)
        ((==_iff (x86_64_number a) (x86_64_number b)).0 same)
    ∙ numbered-x86_64 b)

pub rank-raised :
    (rules : RuleOf) (g : Grant) (call : Call)
    → rank (raised rules g call) ≡ (
        if same_call call g.call && ltb (rank (rules call)) (rank g.rule)
        then rank g.rule
        else rank (rules call))
unfolding raised
rank-raised rules g call = elim (Bool-cases (same_call call g.call)) [
  | inr other ↦ rw other refl
  | inl same ↦
      let e : rules g.call ≡ rules call = ap rules (sym (same_call-eq call g.call same)) in
      rw (same, e) (ranked (ltb (rank (rules call)) (rank g.rule)))
]
  where
    ranked :
        (b : Bool)
        → rank (if b then g.rule else rules call) ≡ (if b then rank g.rule else rank (rules call))
    ranked true = refl
    ranked false = refl

-- `add` leaves each call with the most allowing of its rule and its grants.
pub rank-add :
    (table : List Grant) (rules : RuleOf) (call : Call)
    → rank (add rules table call) ≡ best (rank (rules call)) table call
unfolding add best
rank-add [] rules call = refl
rank-add (g ∷ table) rules call =
    rank-add table (raised rules g) call ∙ ap (λ n. best n table call) (rank-raised rules g call)

pub merged :
    (same : Bool) (n r top : ℕ) {m k : ℕ}
    → m ≡ (
        if ltb (if same && ltb n r then r else n) top
        then top
        else if same && ltb n r
        then r
        else n)
    → k ≡ (
        if ltb (if same && ltb 0 r then r else 0) top
        then top
        else if same && ltb 0 r
        then r
        else 0)
    → m ≡ (if ltb n k then k else n)
merged true n r top p q = ground arith
merged false n r top p q = ground arith

-- A rank and the best of a table.
pub best-split :
    (n : ℕ) (table : List Grant) (call : Call)
    → best n table call ≡ (if ltb n (best 0 table call) then best 0 table call else n)
unfolding best
best-split n [] call = ground arith
best-split n (g ∷ table) call =
    merged (same_call call g.call) n (rank g.rule) (best 0 table call)
      (best-split (if same_call call g.call && ltb n (rank g.rule) then rank g.rule else n) table
        call)
      (best-split (if same_call call g.call && ltb 0 (rank g.rule) then rank g.rule else 0) table
        call)

pub best_comm :
    (n : ℕ) (s t : List Grant) (call : Call)
    → best (best n s call) t call ≡ best (best n t call) s call
best_comm n s t call = ground (
  arith,
  best-split n s call,
  best-split n t call,
  best-split (best n s call) t call,
  best-split (best n t call) s call,
)

pub rank-eq : (a b : Rule) → rank a ≡ rank b → a ≡ b
unfolding same_rule
rank-eq a b e = same_rule-eq a b ((==_iff (rank a) (rank b)).1 e)

-- Of two tables of grants, whichever is added first, every call gets the same rule.
pub add_comm :
    (rules : RuleOf) (s t : List Grant) (call : Call)
    → add (add rules s) t call ≡ add (add rules t) s call
add_comm rules s t call = rank-eq _ _ (
    rank-add t (add rules s) call
    ∙ ap (λ n. best n t call) (rank-add s rules call)
    ∙ best_comm (rank (rules call)) s t call
    ∙ sym (ap (λ n. best n s call) (rank-add t rules call))
    ∙ sym (rank-add s (add rules t) call))
