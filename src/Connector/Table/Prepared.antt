-- ===== src/Connector/Table/Prepared.antt =====
-- connector_prepare of core/connector.c: the table's ranges and, of a public connector, the scratch
-- page's two.
use cosmic.Prelude.{
  ℕ, ◌+◌, ◌-◌, ◌%◌, ◌^◌, ◌≤◌, ◌<◌, ◌≡◌, refl, Bool, true, false, List, [], ◌∷◌, ◌++◌, arith, ltb,
  if◌then◌else◌, inl, inr, length, length-append,
}
use cosmic.Prelude.Results.{ok, ◌>>=◌}
use cosmic.Connector.Filter.{Range}
use cosmic.Connector.Filter.Layout.{ranges_max}
use cosmic.Connector.Filter.Policy.{AllRanges, nil, cons}
use cosmic.Connector.Table.{
  Endpoint, Outcome, Plan, System, make_table, scratch_ranges, used_from, table_bytes,
  endpoints_max,
}
use cosmic.Connector.Table.Offsets.{AreEndpoints}
use cosmic.Connector.Table.Made.{IsUsual, make_table-Laid}

-- connector_prepare, by what connector_control says of the control descriptor: the ranges that the
-- filter accepts.
unfoldable pub prepare : Outcome (Unit {0}) → List Endpoint → Bool → System → Outcome (List Range)
prepare control es public s = control >>= λ _. make_table es s >>= λ plan.
    if public
    then (scratch_ranges s >>= λ more. ok (plan.table.ranges ++ more))
    else ok plan.table.ranges

append-AllRanges : (xs ys : List Range) → AllRanges xs → AllRanges ys → AllRanges (xs ++ ys)
append-AllRanges [] ys nil k = k
append-AllRanges (x ∷ xs) ys (cons h hs) k = cons h (append-AllRanges xs ys hs k)

-- A scratch page as the kernel maps one.
pub record IsScratch (s : System) (base : ℕ) : Type 0 where
  pub page_large : 256 ≤ s.page
  pub mapped : s.scratch ≡ ok base
  pub aligned : base % 256 ≡ 0
  pub low : base < 2 ^ 64 - 2 ^ 32

abbrev scratch_at : ℕ → List Range
scratch_at base =
    record { base = base; slots = 1; length = 16 }
    ∷ record { base = base + 128; slots = 1; length = 28 }
    ∷ []

scratch-AllRanges :
    (base : ℕ) → base % 256 ≡ 0 → base < 2 ^ 64 - 2 ^ 32 → AllRanges (scratch_at base)
scratch-AllRanges base h k =
    cons
      (record {
        aligned = omega arith;
        together = omega arith;
        below = omega arith;
        sized = inl refl;
      })
      (cons
        (record {
          aligned = omega arith;
          together = omega arith;
          below = omega arith;
          sized = inr refl;
        })
        nil)

scratch_ranges-ok :
    (s : System) (base : ℕ) → IsScratch s base → scratch_ranges s ≡ ok (scratch_at base)
unfolding scratch_ranges
scratch_ranges-ok s base v =
    let enough : ltb s.page 256 ≡ false = ground (arith, v.page_large) in
    rw (scratch_ranges, enough, v.mapped) refl

-- For at most 128 endpoints of either family with 1 to 65535 slots, whose table is not empty
-- and takes at most 32 MiB, on a kernel that answers as it does where nothing fails and a
-- control descriptor that passes, connector_prepare succeeds, public connector or not, and its
-- ranges are ones that the filter can express, no more than the filter's program has room for.
pub prepare-AllRanges :
    (es : List Endpoint) (public : Bool) (s : System) (start base : ℕ)
    → AreEndpoints es
    → length es ≤ endpoints_max
    → 0 < used_from 0 es
    → used_from 0 es ≤ table_bytes
    → IsUsual s start
    → IsScratch s base
    → (ranges : List Range) × (prepare (ok tt) es public s ≡ ok ranges)
      × AllRanges ranges
      × (length ranges ≤ ranges_max)
unfolding prepare
prepare-AllRanges es public s start base v few some_used limit u scratch =
    let (plan, _, made, all, counted, _, _, _) = make_table-Laid es s start v some_used limit u in
    with_scratch plan made all counted public
  where
    with_scratch :
        (plan : Plan)
        → make_table es s ≡ ok plan
        → AllRanges plan.table.ranges
        → length plan.table.ranges ≡ length es
        → (public : Bool)
        → (ranges : List Range) × (prepare (ok tt) es public s ≡ ok ranges)
          × AllRanges ranges
          × (length ranges ≤ ranges_max)
    with_scratch plan made all counted false =
        (plan.table.ranges, rw (prepare, made) refl, all, omega arith)
    with_scratch plan made all counted true = (
      plan.table.ranges ++ scratch_at base,
      rw (prepare, made, scratch_ranges-ok s base scratch) refl,
      append-AllRanges plan.table.ranges (scratch_at base) all
          (scratch-AllRanges base scratch.aligned scratch.low),
      omega (arith, length-append plan.table.ranges (scratch_at base)),
    )
