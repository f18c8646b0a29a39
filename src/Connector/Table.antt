-- ===== src/Connector/Table.antt =====
-- core/connector.c: the endpoints a policy names (connector_endpoints) and the immutable table of
-- their socket addresses (connector_map, connector_table, connector_scratch). A socket address is
-- its family, host and port; memory is the list of the addresses written, the last one first.
pub mod Offsets
pub mod Placement
pub mod Made
pub mod Prepared
use cosmic.Prelude.{
  ℕ, zero, suc, ◌+◌, ◌-◌, ◌*◌, ◌/◌, ◌%◌, ◌^◌, Bool, true, false, not, ◌&&◌, ◌||◌, Option, none,
  some, List, [], ◌∷◌, ◌++◌, ◌==◌, ltb, leb, if◌then◌else◌, length,
}
use cosmic.Prelude.Results.{Result, ok, err, ◌>>=◌}
use cosmic.Connector.Address.{Resolver, numeric_host, contains}
use cosmic.Connector.Filter.{Range, stride}

abbrev pub endpoints_max : ℕ
endpoints_max = 128

abbrev pub table_bytes : ℕ
table_bytes = 33554432

abbrev pub scratch_stride : ℕ
scratch_stride = 128

pub data Family : Type 0 where
  inet : Family
  inet6 : Family

pub record Sockaddr : Type 0 where
  pub family : Family
  pub host : List ℕ
  pub port : ℕ

-- struct connector_endpoint
pub record Endpoint : Type 0 where
  pub address : Sockaddr
  pub slots : ℕ
  pub length : ℕ

-- What a caller's list holds: a host's text and a port, negative or not.
pub data Port : Type 0 where
  negative : Port
  port : ℕ → Port

pub record Item : Type 0 where
  pub host : List ℕ
  pub port : Port

-- The messages that connector_endpoints raises with.
pub data Refusal : Type 0 where
  wrong_count : Refusal
  host_has_nul : Refusal
  host_not_numeric : Refusal
  port_out_of_range : Refusal
  table_too_large : Refusal

abbrev pub Checked : Type 0 → Type 0
Checked A = Result Refusal A

-- (bytes + stride - 1) / stride * stride
abbrev pub round_up : ℕ → ℕ → ℕ
round_up n unit = (n + unit - 1) / unit * unit

abbrev pub size_of : Family → ℕ
size_of inet = 16
size_of inet6 = 28

-- The bytes that a table of this many takes with one endpoint more.
abbrev pub grown : ℕ → Endpoint → ℕ
grown bytes e = round_up bytes (stride e.length) + e.slots * stride e.length

module _ (r : Resolver) where
  resolve : List ℕ → Checked (Family × List ℕ)
  unfolding numeric_host
  resolve host =
      if contains 0 host
      then err host_has_nul
      else if not (numeric_host host)
      then err host_not_numeric
      else elim (if contains b':' host then none else r.pton4 host) [
        | some bytes ↦ ok (inet, bytes)
        | none ↦ elim (r.pton6 host) [
          | some bytes ↦ ok (inet6, bytes)
          | none ↦ err host_not_numeric
        ]
      ]

  checked_port : Port → Checked ℕ
  checked_port negative = err port_out_of_range
  checked_port (port n) = if ltb 65535 n then err port_out_of_range else ok n

  abbrev endpoint_of : Family × List ℕ → ℕ → Endpoint
  endpoint_of (family, host) n = record {
    address = record { family = family; host = host; port = n };
    slots = if n == 0 then 65535 else 1;
    length = size_of family;
  }

  -- The loop over the items, with the bytes that the table takes so far.
  endpoints_from : List Item → ℕ → Checked (List Endpoint)
  unfolding resolve checked_port
  endpoints_from [] bytes = ok []
  endpoints_from (item ∷ rest) bytes = do
    found ← resolve item.host
    n ← checked_port item.port
    let e = endpoint_of found n
    let more = endpoints_from rest (grown bytes e)
    if ltb table_bytes (grown bytes e) then err table_too_large else do es ← more; ok (e ∷ es)

  -- connector_endpoints; `empty` lets a public connector's list be empty.
  unfoldable pub endpoints : List Item → Bool → Checked (List Endpoint)
  unfolding endpoints_from
  endpoints items empty =
      if (length items == 0 && not empty) || ltb endpoints_max (length items)
      then err wrong_count
      else endpoints_from items 0

-- errno values
pub data Errno : Type 0 where
  einval : Errno
  eoverflow : Errno
  enomem : Errno
  system : ℕ → Errno

abbrev pub Outcome : Type 0 → Type 0
Outcome A = Result Errno A

-- What the system answers while a table is made: the page size (0 where it is not known), where
-- each mmap placed its span, and whether the table could be made read-only.
pub record System : Type 0 where
  pub page : ℕ
  -- COSMIC_FAULT("connector_mmap")
  pub refused : Bool
  pub mapped : Outcome ℕ
  -- COSMIC_FAULT("connector_straddle"), and the mapping made then
  pub straddle : Bool
  pub remapped : Outcome ℕ
  pub protected : Outcome (Unit {0})
  pub scratch : Outcome ℕ

-- The part of the span that is kept, and what is unmapped around it, as (start, bytes).
pub record Mapping : Type 0 where
  pub base : ℕ
  pub unmapped : List (ℕ × ℕ)

-- The first 4 GiB boundary above `start`, as a 64-bit word: (start | UINT32_MAX) + 1
abbrev pub boundary : ℕ → ℕ
boundary start = (start / 2 ^ 32 * 2 ^ 32 + (2 ^ 32 - 1) + 1) % 2 ^ 64

abbrev unmap_if : ℕ → ℕ → List (ℕ × ℕ)
unmap_if from to = if ltb from to then (from, to - from) ∷ [] else []

pub place : ℕ → ℕ → Outcome Mapping
place bytes start =
    if boundary start == 0
    then err eoverflow
    else let base = if ltb (start + bytes) (boundary start) then start else boundary start in
      ok (record {
        base = base;
        unmapped = unmap_if start base ++ unmap_if (base + bytes) (start + 2 * bytes);
      })

-- connector_map
unfoldable pub map_table : ℕ → System → Outcome Mapping
unfolding place
map_table bytes s = s.mapped >>= λ start.
    if s.straddle
    then (if leb (start - start % 2 ^ 32) s.page then err einval else s.remapped >>= place bytes)
    else place bytes start

-- The bytes of the whole table.
unfoldable pub used_from : ℕ → List Endpoint → ℕ
used_from used [] = used
used_from used (e ∷ rest) = used_from (grown used e) rest

-- The slots of one endpoint from the slot `j` on: a wildcard's slot `j` has the port `j + 1`.
pub slots_from : Endpoint → ℕ → ℕ → ℕ → List (ℕ × Sockaddr)
slots_from e base j zero = []
slots_from e base j (suc left) =
    let port = if ltb 1 e.slots then (j + 1) % 2 ^ 16 else e.address.port in
    (base + j * stride e.length, record e.address { port = port }) ∷ slots_from e base (j + 1) left

pub record Table : Type 0 where
  pub ranges : List Range
  pub memory : List (ℕ × Sockaddr)

-- The loop that lays the endpoints out.
pub lay_out : ℕ → ℕ → List Endpoint → Outcome Table
unfolding slots_from
lay_out memory offset [] = ok (record { ranges = []; memory = [] })
lay_out memory offset (e ∷ rest) =
    let at = round_up offset (stride e.length) in
    let base = memory + at in
    let end = base + e.slots * stride e.length in
    let more = lay_out memory (at + e.slots * stride e.length) rest in
    if base / 2 ^ 32 == end / 2 ^ 32
    then (more >>= λ t. ok (record {
      ranges = record { base = base; slots = e.slots; length = e.length } ∷ t.ranges;
      memory = slots_from e base 0 e.slots ++ t.memory;
    }))
    else err eoverflow

-- What a plan holds of the table: `count` ranges, of which the filter takes `filtered`.
pub record Plan : Type 0 where
  pub table : Table
  pub bytes : ℕ
  pub count : ℕ

-- connector_table
unfoldable pub make_table : List Endpoint → System → Outcome Plan
unfolding used_from lay_out map_table
make_table es s =
    if used_from 0 es == 0
    then ok (record { table = record { ranges = []; memory = [] }; bytes = 0; count = 0 })
    else if s.page == 0
    then err einval
    else if s.refused
    then err enomem
    else map_table (round_up (used_from 0 es) s.page) s >>= λ m. lay_out m.base 0 es >>= λ t.
        s.protected >>= λ _.
        ok (record { table = t; bytes = round_up (used_from 0 es) s.page; count = length es })

-- connector_scratch: the page's own two ranges, after the table's.
unfoldable pub scratch_ranges : System → Outcome (List Range)
scratch_ranges s =
    if ltb s.page (2 * scratch_stride)
    then err einval
    else s.scratch >>= λ base. ok (
        record { base = base; slots = 1; length = 16 }
        ∷ record { base = base + scratch_stride; slots = 1; length = 28 }
        ∷ [])
