-- ===== src/Portable/Tests.antt =====
-- core/portable.c: a host program read, and the theorem on where its parts lie at it.
use cosmic.Prelude.{
  take, drop, ℕ, zero, suc, ◌+◌, ◌≤◌, ◌<◌, ◌≡◌, refl, none, some, List, [], ◌∷◌, ◌++◌, ◌==◌,
  if◌then◌else◌,
}
use cosmic.Prelude.Results.{Result, ok, err}
use cosmic.Prelude.Text.{codes}
use cosmic.Portable.Bytes.{Source, Why, old_version, zero_identity}
use cosmic.Portable.Decode.{Entry, Decoded, host_decode}
use cosmic.Portable.Ranges.{IsLaid, host_decode-IsLaid}

abbrev zeros : ℕ → List ℕ
zeros zero = []
zeros (suc n) = 0 ∷ zeros n

abbrev word : ℕ → List ℕ
word n = 0 ∷ 0 ∷ 0 ∷ n ∷ []

abbrev trailer : ℕ → List ℕ
trailer version =
    codes "CosmicH1"
    ++ word version
    ++ word 48
    ++ zeros 6
    ++ (64 ∷ 0 ∷ [])
    ++ zeros 6
    ++ (16 ∷ 0 ∷ [])
    ++ zeros 6
    ++ (80 ∷ 0 ∷ [])
    ++ zeros 7
    ++ (16 ∷ [])

abbrev digest : List ℕ
digest = zeros 32

abbrev manifest : List ℕ
manifest =
    codes "CosmicM1"
    ++ word 2
    ++ (0 ∷ 0 ∷ 16 ∷ 0 ∷ [])
    ++ zeros 6
    ++ (80 ∷ 0 ∷ [])
    ++ word 1
    ++ word 104
    ++ word 3
    ++ word 7
    ++ word 1
    ++ word 0
    ++ zeros 8
    ++ zeros 6
    ++ (64 ∷ 0 ∷ [])
    ++ digest
    ++ zeros 6
    ++ (64 ∷ 0 ∷ [])
    ++ digest
    ++ zeros 3960

-- A host program: its core of 16,384 bytes, the manifest, a database of 16 bytes, and the trailer.
abbrev file : ℕ → Source
file version = record {
  size = some 20544;
  pread = λ wanted offset.
      if offset == 20496
      then some (trailer version)
      else if offset == 16384
      then some manifest
      else if offset == 16520
      then some (zeros 3960)
      else if offset == 20480
      then some (codes "SQLite format 3" ++ 0 ∷ [])
      else none;
}

abbrev core : Entry
core = record {
  target_id = 3;
  configuration_id = 7;
  kind = 1;
  codec = 0;
  offset = 0;
  stored_length = 16384;
  stored_sha256 = digest;
  length = 16384;
  sha256 = digest;
}

abbrev decoded : Decoded
decoded = record {
  manifest_offset = 16384;
  manifest_length = 4096;
  database_offset = 20480;
  database_length = 16;
  prefix_length = 20480;
  entries = core ∷ [];
}

host_decode_read :
    ◌≡◌ {A = Result Why (Decoded × Entry)} (host_decode (file 2) 3 7) (ok (decoded, core))
unfolding host_decode
host_decode_read = refl

host_decode_old : host_decode (file 1) 3 7 ≡ err old_version
unfolding host_decode
host_decode_old = refl

host_decode_zero : host_decode (file 2) 0 7 ≡ err zero_identity
unfolding host_decode
host_decode_zero = refl

host_decode-IsLaid_example :
    IsLaid (file 2) 0 decoded
    × (core.offset ≡ 0)
    × (core.length ≤ decoded.manifest_offset)
    × (decoded.manifest_offset < core.length + 16384)
    × (decoded.entries ≡ core ∷ [])
    × (core.target_id ≡ 3)
    × (core.configuration_id ≡ 7)
host_decode-IsLaid_example = host_decode-IsLaid (file 2) 3 7 decoded core host_decode_read

-- A file of five bytes whose reads give one byte each.
abbrev five : List ℕ
five = 10 ∷ 11 ∷ 12 ∷ 13 ∷ 14 ∷ []

abbrev one_each : Source
one_each = record { size = some 5; pread = λ wanted offset. some (take 1 (drop offset five)) }
