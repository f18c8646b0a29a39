-- ===== src/Portable/Bytes.antt =====
-- core/portable.c: what is read of a file, the reasons of a refusal, and numbers and ranges.
use cosmic.Prelude.{
  ℕ, zero, suc, ◌+◌, ◌-◌, ◌*◌, ◌%◌, ◌^◌, Bool, true, false, ◌&&◌, Option, none, some, List, [], ◌∷◌,
  ◌++◌, ◌==◌, ltb, leb, if◌then◌else◌, length, get_or, drop, min,
}

-- What the system answers about a descriptor: the size of a regular file, and each pread of so many
-- bytes at an offset, which may give fewer. A call that is interrupted is made again and not told
-- apart here; an end of file is a failure.
pub record Source : Type 0 where
  pub size : Option ℕ
  pub pread : ℕ → ℕ → Option (List ℕ)

-- The reasons of a refusal, in the order of the checks.
pub data Why : Type 0 where
  size_unavailable artifact_too_large truncated trailer_unreadable trailer_magic old_version : Why
  unknown_version trailer_length manifest_length manifest_range database_range : Why
  manifest_unaligned manifest_unreadable manifest_magic manifest_encoded_length entry_length : Why
  prefix_length entry_count entries_exceed manifest_padding entry_identity entry_kind : Why
  entry_codec stub_codec raw_differs core_range database_header one_core one_raw_core : Why
  core_start core_padding zero_identity other_identity : Why

abbrev pub core_alignment : ℕ
core_alignment = 16384

abbrev pub manifest_bytes : ℕ
manifest_bytes = 4096

abbrev pub trailer_bytes : ℕ
trailer_bytes = 48

abbrev pub entry_bytes : ℕ
entry_bytes = 104

-- The loop of cosmic_read_at; a read gives at least one byte, so there are no more rounds than bytes.
unfoldable pub read_rounds : ℕ → Source → ℕ → ℕ → Option (List ℕ)
read_rounds zero source length_left offset = if length_left == 0 then some [] else none
read_rounds (suc rounds) source length_left offset = elim (length_left == 0) [
  | true ↦ some []
  | false ↦ elim (source.pread length_left offset) [
    | none ↦ none
    | some got ↦ elim (length got == 0) [
      | true ↦ none
      | false ↦ elim (read_rounds rounds source (length_left - length got) (offset + length got)) [
        | none ↦ none
        | some rest ↦ some (got ++ rest)
      ]
    ]
  ]
]

-- cosmic_read_at
unfoldable pub read_at : Source → ℕ → ℕ → Option (List ℕ)
unfolding read_rounds
read_at source wanted offset =
    if ltb (2 ^ 63 - 1) offset then none else read_rounds wanted source wanted offset

unfoldable pub be32 : List ℕ → ℕ
be32 p = get_or p 0 0 * 2 ^ 24 + get_or p 1 0 * 2 ^ 16 + get_or p 2 0 * 2 ^ 8 + get_or p 3 0

abbrev be_from : ℕ → List ℕ → ℕ → ℕ
be_from zero p value = value
be_from (suc left) p value = be_from left (drop 1 p) (value * 256 + get_or p 0 0)

unfoldable pub be64 : List ℕ → ℕ
be64 p = be_from 8 p 0

abbrev pub version_error : ℕ → Why
version_error version = if version == 1 then old_version else unknown_version

unfoldable pub range_ends_at_or_before : ℕ → ℕ → ℕ → Bool
range_ends_at_or_before offset size limit = leb offset limit && leb size (limit - offset)

unfoldable pub align_core : ℕ → Option ℕ
align_core value =
    let remainder = value % core_alignment in
    let padding = if remainder == 0 then 0 else core_alignment - remainder in
    if ltb (2 ^ 64 - 1 - padding) value then none else some (value + padding)

abbrev all_zero : List ℕ → Bool
all_zero [] = true
all_zero (b ∷ bytes) = b == 0 && all_zero bytes

-- The loop of zero_range, a block of at most 4,096 bytes at a time.
unfoldable zero_rounds : ℕ → Source → ℕ → ℕ → Bool
unfolding read_at
zero_rounds zero source offset left = left == 0
zero_rounds (suc rounds) source offset left = elim (left == 0) [
  | true ↦ true
  | false ↦ elim (read_at source (min left 4096) offset) [
    | none ↦ false
    | some bytes ↦ elim (all_zero bytes) [
      | false ↦ false
      | true ↦ zero_rounds rounds source (offset + min left 4096) (left - min left 4096)
    ]
  ]
]

unfoldable pub zero_range : Source → ℕ → ℕ → Bool
unfolding zero_rounds
zero_range source offset left = zero_rounds left source offset left
