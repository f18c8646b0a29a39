-- ===== src/Connector/Table/Offsets.antt =====
-- connector_table's loop: the ranges stand one after another, each at a multiple of its slots'
-- distance, and take what connector_endpoints counted.
use cosmic.Prelude.{
  ℕ, suc, ◌+◌, ◌*◌, ◌/◌, ◌%◌, ◌^◌, ◌≤◌, ◌<◌, ◌≡◌, refl, true, List, [], ◌∷◌, arith, ◌==◌,
  Bool-cases, inl, inr, ◌⊎◌, ap, length,
}
use mathlib.Core.Path.{subst}
use cosmic.Prelude.Results.{ok}
use cosmic.Connector.Filter.{Range, stride}
use cosmic.Connector.Filter.Blocks.{IsRange}
use cosmic.Connector.Filter.Policy.{AllRanges, nil, cons}
use cosmic.Connector.Table.{Endpoint, Table, round_up, grown, used_from, lay_out}

-- An endpoint as connector_endpoints leaves it.
pub record IsEndpoint (e : Endpoint) : Type 0 where
  pub sized : (e.length ≡ 16) ⊎ (e.length ≡ 28)
  pub filled : 1 ≤ e.slots
  pub fits : e.slots ≤ 65535

abbrev pub AreEndpoints : List Endpoint → Type 0
AreEndpoints [] = Unit
AreEndpoints (e ∷ rest) = IsEndpoint e × AreEndpoints rest

-- Ranges that lie between two addresses, in order and apart, and that the filter can express.
abbrev pub Laid : ℕ → List Range → ℕ → Type 0
Laid lo [] hi = lo ≤ hi
Laid lo (r ∷ rest) hi =
    (lo ≤ r.base) × IsRange r × Laid (r.base + r.slots * stride r.length) rest hi

Laid-le : (lo : ℕ) (ranges : List Range) (hi : ℕ) → Laid lo ranges hi → lo ≤ hi
Laid-le lo [] hi h = h
Laid-le lo (r ∷ rest) hi h = omega (arith, Laid-le (r.base + r.slots * stride r.length) rest hi h.2)

stride_cases : (length : ℕ) → (stride length ≡ 16) ⊎ (stride length ≡ 32)
stride_cases length = elim (Bool-cases (length == 28)) [
  | inl e ↦ rw e (inr refl)
  | inr e ↦ rw e (inl refl)
]

round_up_lem :
    (n unit : ℕ) → (unit ≡ 16) ⊎ (unit ≡ 32) → (n ≤ round_up n unit) × (round_up n unit % unit ≡ 0)
round_up_lem n unit (inl e) = rw e (omega arith, omega arith)
round_up_lem n unit (inr e) = rw e (omega arith, omega arith)

pub used_from-le : (used : ℕ) (es : List Endpoint) → used ≤ used_from used es
unfolding used_from
used_from-le used [] = omega arith
used_from-le used (e ∷ rest) = omega (
  arith,
  used_from-le (grown used e) rest,
  (round_up_lem used (stride e.length) (stride_cases e.length)).0,
)

-- A base that is aligned for any slot stays aligned by a rounded offset.
aligned_sum :
    (memory at unit : ℕ)
    → (unit ≡ 16) ⊎ (unit ≡ 32)
    → memory % 32 ≡ 0
    → at % unit ≡ 0
    → (memory + at) % unit ≡ 0
aligned_sum memory at unit (inl e) p q = rw e (omega (arith, rw e at q))
aligned_sum memory at unit (inr e) p q = rw e (omega (arith, rw e at q))

-- Where the table does not straddle a boundary, no endpoint of it is refused.
pub lay_out-Laid :
    (memory offset : ℕ) (es : List Endpoint)
    → AreEndpoints es
    → memory % 32 ≡ 0
    → memory + used_from offset es < 2 ^ 64
    → (memory + used_from offset es) / 2 ^ 32 ≡ memory / 2 ^ 32
    → (t : Table) × (lay_out memory offset es ≡ ok t)
      × Laid (memory + offset) t.ranges (memory + used_from offset es)
      × (length t.ranges ≡ length es)
unfolding lay_out used_from
lay_out-Laid memory offset [] v a b c = (_, refl, omega arith, refl)
lay_out-Laid memory offset (e ∷ rest) v a b c =
    let unit = stride e.length in
    let n = e.slots * unit in
    let at = round_up offset unit in
    let ceil : (offset ≤ at) × (at % unit ≡ 0) = round_up_lem offset unit (stride_cases e.length) in
    let (t, laid, ranges, counted) = lay_out-Laid memory (at + n) rest v.1 a b c in
    let last : at + n ≤ used_from (at + n) rest = used_from-le (at + n) rest in
    let same : ((memory + at) / 2 ^ 32 == (memory + at + n) / 2 ^ 32) ≡ true = ground arith in
    rw (same, laid)
      (
        _,
        refl,
        (
          omega arith,
          record {
            aligned = aligned_sum memory at unit (stride_cases e.length) a ceil.1;
            together = omega arith;
            below = omega arith;
            sized = v.0.sized;
          },
          subst (λ lo. Laid lo t.ranges (memory + used_from (at + n) rest)) (omega arith) ranges,
        ),
        ap suc counted,
      )

-- Such ranges are all the filter can express.
pub Laid-AllRanges : (lo : ℕ) (ranges : List Range) (hi : ℕ) → Laid lo ranges hi → AllRanges ranges
Laid-AllRanges lo [] hi h = nil
Laid-AllRanges lo (r ∷ rest) hi h =
    cons h.1 (Laid-AllRanges (r.base + r.slots * stride r.length) rest hi h.2)

pub Laid-weaken :
    (lo : ℕ) (ranges : List Range) (hi hi' : ℕ) → hi ≤ hi' → Laid lo ranges hi → Laid lo ranges hi'
Laid-weaken lo [] hi hi' h l = omega arith
Laid-weaken lo (r ∷ rest) hi hi' h l =
    (l.0, l.1, Laid-weaken (r.base + r.slots * stride r.length) rest hi hi' h l.2)
