-- ===== src/Portable/Decode.antt =====
-- core/portable.c: the checks of a manifest, of the blocks that both formats share, and of a host
-- program.
use cosmic.Prelude.{
  ℕ, zero, suc, ◌+◌, ◌-◌, ◌*◌, ◌%◌, ◌^◌, Bool, true, false, not, ◌&&◌, ◌||◌, Option, none, some,
  List, [], ◌∷◌, ◌++◌, ◌==◌, leb, take, drop,
}
use cosmic.Prelude.Results.{Result, ok, err, ◌>>=◌, ◌>>◌}
use cosmic.Prelude.Text.{codes}
use cosmic.Connector.Address.{same_bytes}
use cosmic.Portable.Bytes.{
  Source, Why, core_alignment, manifest_bytes, trailer_bytes, entry_bytes, read_at, be32, be64,
  version_error, range_ends_at_or_before, align_core, zero_range, size_unavailable,
  artifact_too_large, truncated, trailer_unreadable, trailer_magic, trailer_length, manifest_length,
  manifest_range, database_range, manifest_unaligned, manifest_unreadable, manifest_magic,
  manifest_encoded_length, entry_length, prefix_length, entry_count, entries_exceed,
  manifest_padding, entry_identity, entry_kind, entry_codec, stub_codec, raw_differs, core_range,
  database_header, one_core, one_raw_core, core_start, core_padding, zero_identity, other_identity,
}

-- struct cosmic_portable_entry
pub record Entry : Type 0 where
  pub target_id : ℕ
  pub configuration_id : ℕ
  pub kind : ℕ
  pub codec : ℕ
  pub offset : ℕ
  pub stored_length : ℕ
  pub stored_sha256 : List ℕ
  pub length : ℕ
  pub sha256 : List ℕ

-- struct cosmic_portable, without the selected entry; the count is that of the list.
pub record Decoded : Type 0 where
  pub manifest_offset : ℕ
  pub manifest_length : ℕ
  pub database_offset : ℕ
  pub database_length : ℕ
  pub prefix_length : ℕ
  pub entries : List Entry

abbrev pub require : Bool → Why → Result Why (Unit {0})
require true why = ok tt
require false why = err why

abbrev pub required : {A : Type 0} → Option A → Why → Result Why A
required none why = err why
required (some a) why = ok a

unfoldable entry_at : List ℕ → Entry
unfolding be32 be64
entry_at raw = record {
  target_id = be32 raw;
  configuration_id = be32 (drop 4 raw);
  kind = be32 (drop 8 raw);
  codec = be32 (drop 12 raw);
  offset = be64 (drop 16 raw);
  stored_length = be64 (drop 24 raw);
  stored_sha256 = take 32 (drop 32 raw);
  length = be64 (drop 64 raw);
  sha256 = take 32 (drop 72 raw);
}

-- The checks of one entry.
unfoldable check_entry : ℕ → ℕ → Entry → Result Why (Unit {0})
unfolding range_ends_at_or_before
check_entry first_core manifest_offset e = do
  require (not (e.target_id == 0 || e.configuration_id == 0)) entry_identity
  require (e.kind == 1 || e.kind == 2) entry_kind
  require (e.codec == 0 || e.codec == 1) entry_codec
  require (not (e.kind == 2 && not (e.codec == 0))) stub_codec
  require
      (not (
        e.codec == 0
        && (not (e.stored_length == e.length) || not (same_bytes e.stored_sha256 e.sha256))))
      raw_differs
  require
      (leb first_core e.offset
        && e.offset % core_alignment == 0
        && not (e.stored_length == 0)
        && not (e.length == 0)
        && range_ends_at_or_before e.offset e.stored_length manifest_offset)
      core_range

-- The loop over the entries of the manifest.
unfoldable pub entries_from : ℕ → ℕ → ℕ → List ℕ → Result Why (List Entry)
unfolding check_entry entry_at
entries_from zero first_core manifest_offset raw = ok []
entries_from (suc left) first_core manifest_offset raw =
    let e = entry_at raw in
    check_entry first_core manifest_offset e >>= λ _.
    entries_from left first_core manifest_offset (drop entry_bytes raw) >>= λ rest. ok (e ∷ rest)

-- The ranges that a trailer gives, held against the file.
unfoldable pub check_ranges : ℕ → ℕ → ℕ → ℕ → ℕ → ℕ → Result Why (Unit {0})
unfolding range_ends_at_or_before
check_ranges first_core trailer_offset manifest_at manifest_size database_at database_size = do
  require (manifest_size == manifest_bytes) manifest_length
  require
      (range_ends_at_or_before manifest_at manifest_size trailer_offset
        && (manifest_at + manifest_size) % 2 ^ 64 == database_at)
      manifest_range
  require
      (range_ends_at_or_before database_at database_size trailer_offset
        && (database_at + database_size) % 2 ^ 64 == trailer_offset)
      database_range
  require (leb first_core manifest_at && manifest_at % core_alignment == 0) manifest_unaligned

-- The manifest's own header, which tells how many entries there are.
unfoldable pub check_manifest : List ℕ → ℕ → ℕ → ℕ → Result Why (Unit {0})
unfolding be32 be64
check_manifest manifest manifest_at manifest_size database_at = do
  require (same_bytes (take 8 manifest) (codes "CosmicM1")) manifest_magic
  require (be32 (drop 8 manifest) == 2) (version_error (be32 (drop 8 manifest)))
  require (be32 (drop 12 manifest) == manifest_bytes) manifest_encoded_length
  require (be32 (drop 28 manifest) == entry_bytes) entry_length
  require
      (be64 (drop 16 manifest) == database_at
        && be64 (drop 16 manifest) == (manifest_at + manifest_size) % 2 ^ 64)
      prefix_length
  require (not (be32 (drop 24 manifest) == 0) && leb (be32 (drop 24 manifest)) 8) entry_count
  require (leb (32 + be32 (drop 24 manifest) * entry_bytes) manifest_size) entries_exceed

-- The database's first bytes.
abbrev sqlite_header : List ℕ
sqlite_header = codes "SQLite format 3" ++ 0 ∷ []

unfoldable pub is_database : Source → ℕ → ℕ → Bool
unfolding read_at
is_database source database_at database_size =
    leb 16 database_size && elim (read_at source 16 database_at) [
      | none ↦ false
      | some header ↦ same_bytes header sqlite_header
    ]

-- The first part of decode_blocks: the file's size and its trailer.
unfoldable pub read_trailer : Source → List ℕ → ℕ → Result Why (ℕ × List ℕ)
unfolding read_at be32
read_trailer source magic first_core = do
  size ← required source.size size_unavailable
  require (leb size (2 ^ 63 - 1)) artifact_too_large
  require (leb (first_core + manifest_bytes + 16 + trailer_bytes) size) truncated
  trailer ← required (read_at source trailer_bytes (size - trailer_bytes)) trailer_unreadable
  require (same_bytes (take 8 trailer) magic) trailer_magic
  require (be32 (drop 8 trailer) == 2) (version_error (be32 (drop 8 trailer)))
  require (be32 (drop 12 trailer) == trailer_bytes) trailer_length
  ok (size, trailer)

-- Its middle: the manifest, and the entries that it holds.
unfoldable pub read_entries : Source → ℕ → ℕ → ℕ → ℕ → Result Why (List ℕ × List Entry)
unfolding read_at be32 zero_range entries_from check_manifest
read_entries source first_core manifest_at manifest_size database_at = do
  manifest ← required (read_at source manifest_bytes manifest_at) manifest_unreadable
  check_manifest manifest manifest_at manifest_size database_at
  let count = be32 (drop 24 manifest)
  let used = 32 + count * entry_bytes
  require (zero_range source (manifest_at + used) (manifest_size - used)) manifest_padding
  entries ← entries_from count first_core manifest_at (drop 32 manifest)
  ok (manifest, entries)

abbrev pub decoded_of : List ℕ → List ℕ × List Entry → Decoded
decoded_of trailer found = record {
  manifest_offset = be64 (drop 16 trailer);
  manifest_length = be64 (drop 24 trailer);
  database_offset = be64 (drop 32 trailer);
  database_length = be64 (drop 40 trailer);
  prefix_length = be64 (drop 16 found.0);
  entries = found.1;
}

-- And its end.
unfoldable pub decode_rest : Source → ℕ → ℕ → List ℕ → Result Why Decoded
unfolding be64 check_ranges read_entries is_database
decode_rest source first_core size trailer = do
  check_ranges first_core (size - trailer_bytes) (be64 (drop 16 trailer)) (be64 (drop 24 trailer))
      (be64 (drop 32 trailer)) (be64 (drop 40 trailer))
  found ←
      read_entries source first_core (be64 (drop 16 trailer)) (be64 (drop 24 trailer))
        (be64 (drop 32 trailer))
  require (is_database source (be64 (drop 32 trailer)) (be64 (drop 40 trailer))) database_header
  ok (decoded_of trailer found)

-- decode_blocks
unfoldable pub decode_blocks : Source → List ℕ → ℕ → Result Why Decoded
unfolding read_trailer decode_rest
decode_blocks source magic first_core =
    read_trailer source magic first_core >>= λ found. decode_rest source first_core found.0 found.1

-- The one core of a host program, which starts the file.
unfoldable pub check_core : Source → ℕ → Entry → Result Why (Unit {0})
unfolding align_core zero_range
check_core source manifest_at e = do
  require (e.kind == 1 && e.codec == 0) one_raw_core
  require (e.offset == 0) core_start
  expected ← required (align_core e.length) core_start
  require (manifest_at == expected) core_start
  require (zero_range source e.length (expected - e.length)) core_padding

abbrev pub only : List Entry → Option Entry
only [] = none
only (e ∷ []) = some e
only (e ∷ e' ∷ entries) = none

-- decode_host, with the entry that is the core.
unfoldable pub decode_host : Source → Result Why (Decoded × Entry)
unfolding decode_blocks check_core
decode_host source = do
  decoded ← decode_blocks source (codes "CosmicH1") 0
  e ← required (only decoded.entries) one_core
  check_core source decoded.manifest_offset e
  ok (decoded, e)

-- cosmic_host_decode
unfoldable pub host_decode : Source → ℕ → ℕ → Result Why (Decoded × Entry)
unfolding decode_host
host_decode source target_id configuration_id = do
  require (not (target_id == 0 || configuration_id == 0)) zero_identity
  found ← decode_host source
  require (found.1.target_id == target_id && found.1.configuration_id == configuration_id)
      other_identity
  ok found

-- cosmic_host_trailer
unfoldable host_trailer : Source → Bool
unfolding read_at
host_trailer source = elim source.size [
  | none ↦ false
  | some size ↦ leb trailer_bytes size && elim (read_at source 8 (size - trailer_bytes)) [
    | none ↦ false
    | some magic ↦ same_bytes magic (codes "CosmicH1")
  ]
]
