-- ===== src/Connector/Table/Placement.antt =====
-- connector_map: the table never straddles a 4 GiB boundary, and stays inside the span mapped.
use cosmic.Prelude.{
  ℕ, ◌+◌, ◌-◌, ◌*◌, ◌/◌, ◌%◌, ◌^◌, ◌≤◌, ◌<◌, ◌≡◌, refl, false, arith, ◌==◌, ltb, Bool-cases, inl,
  inr,
}
use cosmic.Prelude.Results.{ok}
use cosmic.Connector.Table.{Mapping, place, boundary}

-- A placement of `bytes` in the span mapped at `start`.
pub record IsPlaced (bytes start : ℕ) (m : Mapping) : Type 0 where
  pub together : (m.base + bytes) / 2 ^ 32 ≡ m.base / 2 ^ 32
  pub above : start ≤ m.base
  pub inside : m.base + bytes ≤ start + 2 * bytes
  pub aligned : start % 32 ≡ 0 → m.base % 32 ≡ 0

-- For a span that starts below the last 4 GiB and a table of less than 4 GiB, connector_map
-- finds a place: the table crosses no 4 GiB boundary, lies inside the span, and is at a
-- multiple of 32 if the span is.
pub place-IsPlaced :
    (bytes start : ℕ)
    → start < 2 ^ 64 - 2 ^ 32
    → bytes < 2 ^ 32
    → (m : Mapping) × (place bytes start ≡ ok m) × IsPlaced bytes start m
unfolding place
place-IsPlaced bytes start h k = elim (Bool-cases (ltb (start + bytes) (boundary start))) [
  | inl below ↦
      rw (some_boundary, below, place)
        (
          _,
          refl,
          record {
            together = ground arith;
            above = omega arith;
            inside = omega arith;
            aligned = λ e. e;
          },
        )
  | inr past ↦
      rw (some_boundary, past, place)
        (
          _,
          refl,
          record {
            together = ground arith;
            above = omega arith;
            inside = ground arith;
            aligned = λ e. omega arith;
          },
        )
]
  where
    some_boundary : (boundary start == 0) ≡ false
    some_boundary = ground arith
