-- ===== src/Connector/Table/Made.antt =====
-- connector_table as a whole: on any mapping the kernel makes for a process it succeeds, and its
-- ranges are ones that the filter decides exactly.
use cosmic.Prelude.{ℕ, ◌+◌, ◌-◌, ◌*◌, ◌%◌, ◌^◌, ◌≤◌, ◌<◌, ◌≡◌, false, List, arith, ◌==◌, length}
use mathlib.Core.Path.{subst}
use cosmic.Prelude.Results.{ok}
use cosmic.Connector.Filter.Policy.{AllRanges}
use cosmic.Connector.Table.{
  Endpoint, Table, Plan, System, Mapping, round_up, used_from, lay_out, map_table, make_table,
  table_bytes, place,
}
use cosmic.Connector.Table.Offsets.{AreEndpoints, Laid, Laid-AllRanges, lay_out-Laid, Laid-weaken}
use cosmic.Connector.Table.Placement.{IsPlaced, place-IsPlaced}

-- What the kernel's answers are like where no fault is injected: pages of at most 16 MiB, a span
-- that starts at one and ends below the last 4 GiB, and a table that can be made read-only.
pub record IsUsual (s : System) (start : ℕ) : Type 0 where
  pub page_aligned : s.page % 32 ≡ 0
  pub page_known : 0 < s.page
  pub page_small : s.page ≤ 2 ^ 24
  pub mapped : s.mapped ≡ ok start
  pub start_aligned : start % 32 ≡ 0
  pub start_low : start < 2 ^ 64 - 2 ^ 33
  pub served : s.refused ≡ false
  pub unfaulted : s.straddle ≡ false
  pub protected : s.protected ≡ ok tt

round_up_bounds : (n unit : ℕ) → 0 < unit → (n ≤ round_up n unit) × (round_up n unit < n + unit)
round_up_bounds n unit h = (omega arith, omega arith)

-- The path on which nothing fails.
make_table_path :
    (es : List Endpoint) (s : System) (start : ℕ) (m : Mapping) (t : Table)
    → 0 < used_from 0 es
    → IsUsual s start
    → place (round_up (used_from 0 es) s.page) start ≡ ok m
    → lay_out m.base 0 es ≡ ok t
    → make_table es s
      ≡ ok (record { table = t; bytes = round_up (used_from 0 es) s.page; count = length es })
unfolding make_table map_table
make_table_path es s start m t some_used u placed laid =
    rw (empty, unknown, u.served, u.mapped, u.unfaulted, placed, laid, u.protected)
  where
    empty : (used_from 0 es == 0) ≡ false
    empty = ground arith

    unknown : (s.page == 0) ≡ false
    unknown = ground (arith, u.page_known)

-- For endpoints of either family with 1 to 65535 slots, whose table is not empty and takes at
-- most 32 MiB, on a kernel that answers as it does where nothing fails (pages of a multiple of
-- 32 bytes and at most 16 MiB, a span at a multiple of 32 below the last 8 GiB),
-- connector_table succeeds; its ranges are as many as the endpoints, the filter can express
-- each, and they lie apart, in order and inside the span that was mapped.
pub make_table-Laid :
    (es : List Endpoint) (s : System) (start : ℕ)
    → AreEndpoints es
    → 0 < used_from 0 es
    → used_from 0 es ≤ table_bytes
    → IsUsual s start
    → (plan : Plan) × (base : ℕ) × (make_table es s ≡ ok plan)
      × AllRanges plan.table.ranges
      × (length plan.table.ranges ≡ length es)
      × (start ≤ base)
      × Laid base plan.table.ranges (base + plan.bytes)
      × (base + plan.bytes ≤ start + 2 * plan.bytes)
make_table-Laid es s start v some_used limit u =
    from_placement
      (place-IsPlaced bytes start (omega (arith, u.start_low)) (omega (arith, u.page_small)))
  where
    bytes : ℕ
    bytes = round_up (used_from 0 es) s.page

    size : (used_from 0 es ≤ bytes) × (bytes < used_from 0 es + s.page)
    size = round_up_bounds (used_from 0 es) s.page u.page_known

    from_placement :
        (m : Mapping) × (place bytes start ≡ ok m) × IsPlaced bytes start m
        → (plan : Plan) × (base : ℕ) × (make_table es s ≡ ok plan)
          × AllRanges plan.table.ranges
          × (length plan.table.ranges ≡ length es)
          × (start ≤ base)
          × Laid base plan.table.ranges (base + plan.bytes)
          × (base + plan.bytes ≤ start + 2 * plan.bytes)
    from_placement (m, placed, at) =
        let (t, laid, ranges, counted) =
          lay_out-Laid m.base 0 es v (at.aligned u.start_aligned)
            (omega (arith, size, at.inside, u.start_low, u.page_small))
            (omega (arith, size, at.together)) in
        let whole : Laid m.base t.ranges (m.base + bytes) =
          Laid-weaken m.base t.ranges (m.base + used_from 0 es) (m.base + bytes)
            (omega (arith, size))
            (subst (λ lo. Laid lo t.ranges (m.base + used_from 0 es)) (omega arith) ranges) in
        (
          record { table = t; bytes = bytes; count = length es },
          m.base,
          make_table_path es s start m t some_used u placed laid,
          Laid-AllRanges m.base t.ranges (m.base + bytes) whole,
          counted,
          at.above,
          whole,
          at.inside,
        )
