-- ===== src/Connector/Filter/Size.antt =====
-- The program of connector_program always fits its buffer.
use cosmic.Prelude.{ℕ, ◌+◌, ◌*◌, ◌≤◌, ◌<◌, ◌≡◌, refl, List, length, arith, inl, inr}
use cosmic.Connector.Filter.{Range, Code, Numbers, program, x86, arm}
use cosmic.Connector.Filter.Layout.{
  IsKnown, ranges_max, whole_program, program_layout, length-ranges_block,
}

abbrev pub IsSized : ℕ → Code × ℕ → Type 0
IsSized bound (code, size) = (size ≡ length code.insns) × (0 < size) × (size ≤ bound)

sized_x86 :
    (ranges : List Range) (control status : ℕ)
    → (0 < length (whole_program x86 ranges control status))
      × (length (whole_program x86 ranges control status) ≤ 140 + 12 * length ranges)
sized_x86 ranges control status =
    (omega (arith, length-ranges_block ranges), omega (arith, length-ranges_block ranges))

sized_arm :
    (ranges : List Range) (control status : ℕ)
    → (0 < length (whole_program arm ranges control status))
      × (length (whole_program arm ranges control status) ≤ 140 + 12 * length ranges)
sized_arm ranges control status =
    (omega (arith, length-ranges_block ranges), omega (arith, length-ranges_block ranges))

-- On either architecture and for up to 130 ranges, the length that connector_program returns is
-- that of the program it wrote, is not 0, and is at most 140 more than twelve for each range,
-- so within the 4,096 instructions that fit.
pub program-fits :
    (n : Numbers) (ranges : List Range) (control status : ℕ)
    → IsKnown n
    → length ranges ≤ ranges_max
    → IsSized (140 + 12 * length ranges) (program n ranges control status)
program-fits n ranges control status (inl e) h =
    rw (program_layout n ranges control status (inl e) h)
      (rw e (refl, (sized_x86 ranges control status).0, (sized_x86 ranges control status).1))
program-fits n ranges control status (inr e) h =
    rw (program_layout n ranges control status (inr e) h)
      (rw e (refl, (sized_arm ranges control status).0, (sized_arm ranges control status).1))
