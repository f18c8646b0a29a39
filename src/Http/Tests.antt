-- ===== src/Http/Tests.antt =====
-- The theorem on headers at a concrete input.
use cosmic.Prelude.{◌≡◌, ◌≢◌, refl, none, some, []}
use cosmic.Prelude.Text.{codes}
use cosmic.Http.{header_problem}
use cosmic.Http.Headers.{line, read_header, header_problem-read}

header_fine : header_problem (codes "accept") (codes "text/html") ≡ none
unfolding header_problem
header_fine = refl

header_problem-read_example :
    (read_header (line (codes "accept") (codes "text/html") (codes "host: a"))
      ≡ some (codes "accept", codes "text/html", codes "host: a"))
    × (codes "accept" ≢ [])
header_problem-read_example =
    header_problem-read (codes "accept") (codes "text/html") (codes "host: a") header_fine
