-- ===== src/Portable/Reads.antt =====
-- cosmic_read_at of core/portable.c: short reads add up to the bytes that were asked for.
use cosmic.Prelude.{
  ℕ, ◌+◌, ◌≤◌, ◌<◌, ◌≡◌, some, none, List, [], ◌++◌, ◌==◌, leb, Option, ◌||◌, length, take, drop,
  if◌then◌else◌,
}
use cosmic.Portable.Bytes.{Source}

-- A file of these bytes: before its end a read gives some of the bytes that stand there, one at least
-- and no more than were asked for, and from its end on it gives none.
pub record IsFile (source : Source) (content : List ℕ) : Type 0 where
  pub before_end :
      (wanted offset : ℕ)
      → 0 < wanted
      → offset < length content
      → (given : ℕ) × (0 < given)
        × (given ≤ wanted)
        × (offset + given ≤ length content)
        × (source.pread wanted offset ≡ some (take given (drop offset content)))
  pub at_end :
      (wanted offset : ℕ)
      → 0 < wanted
      → length content ≤ offset
      → source.pread wanted offset ≡ some []

-- The bytes that a read of so many at an offset is to give, if there are so many.
abbrev pub bytes_at : ℕ → ℕ → List ℕ → Option (List ℕ)
bytes_at wanted offset content =
    if wanted == 0 || leb (offset + wanted) (length content)
    then some (take wanted (drop offset content))
    else none

-- The bytes of a read and of those after it, where these were read.
abbrev joined : List ℕ → Option (List ℕ) → Option (List ℕ)
joined part none = none
joined part (some rest) = some (part ++ rest)
