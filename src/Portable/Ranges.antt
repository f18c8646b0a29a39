-- ===== src/Portable/Ranges.antt =====
-- Where the parts of an artifact that core/portable.c accepts lie in the file.
use cosmic.Prelude.{
  ℕ, ◌+◌, ◌-◌, ◌%◌, ◌^◌, ◌≤◌, ◌<◌, ◌≡◌, refl, sym, ap, ◌∙◌, Bool, true, false, ◌&&◌, some, List, [],
  ◌∷◌, arith, not, ◌||◌, Option, none, ◌==◌, leb, drop, take, Option-cases, inl, inr,
}
use mathlib.Core.Path.{subst}
use cosmic.Prelude.Results.{Result, ok, err, ◌>>=◌, ◌>>◌, >>=-eq-ok}
use cosmic.Prelude.Text.{codes}
use cosmic.Connector.Address.{same_bytes}
use cosmic.Portable.Bytes.{
  Source, Why, be32, be64, read_at, range_ends_at_or_before, align_core, manifest_bytes,
  trailer_bytes, one_raw_core, core_start, size_unavailable, trailer_unreadable, trailer_magic,
  trailer_length, version_error, zero_identity, other_identity, one_core,
}
use cosmic.Portable.Decode.{
  Entry, Decoded, require, required, check_ranges, decode_blocks, check_core, only, read_trailer,
  decode_rest, decoded_of, decode_host, host_decode,
}

check_ranges-ok :
    (first_core limit manifest_at manifest_size database_at database_size : ℕ)
    → limit < 2 ^ 63
    → check_ranges first_core limit manifest_at manifest_size database_at database_size ≡ ok tt
    → (manifest_at + 4096 ≡ database_at)
      × (database_at + database_size ≡ limit)
      × (first_core ≤ manifest_at)
      × (manifest_at % 16384 ≡ 0)
unfolding check_ranges range_ends_at_or_before
check_ranges-ok first_core limit manifest_at manifest_size database_at database_size small h =
    ground arith

align_core-ok :
    (value aligned : ℕ)
    → align_core value ≡ some aligned
    → (value ≤ aligned) × (aligned < value + 16384)
unfolding align_core
align_core-ok value aligned h = ground arith

check_core-ok :
    (source : Source) (manifest_at : ℕ) (e : Entry)
    → check_core source manifest_at e ≡ ok tt
    → (e.offset ≡ 0) × (e.length ≤ manifest_at) × (manifest_at < e.length + 16384)
unfolding check_core
check_core-ok source manifest_at e h = elim (Option-cases (align_core e.length)) [
  | inl too_far ↦
      absurd (none_aligned (e.kind == 1 && e.codec == 0) (e.offset == 0) (rw too_far at h))
  | inr (expected, aligned) ↦
      let h' = rw aligned at h in
      let (near, far) = align_core-ok e.length expected aligned in ground arith
]
  where
    none_aligned :
        (a b : Bool)
        → (require a one_raw_core >> (require b core_start >> err core_start)) ≡ ok (tt {0})
        → ⊥
    none_aligned false b p = cc
    none_aligned true false p = cc
    none_aligned true true p = cc

err-ok : {A : Type 0} (why : Why) (x : A) → err why ≡ ok x → ⊥
err-ok why x h = cc

first_two :
    {A : Type 0} (a b : Bool) (why why' : Why) (rest : Result Why A) {x : A}
    → (require a why >> (require b why' >> rest)) ≡ ok x
    → (a ≡ true) × (b ≡ true) × (rest ≡ ok x)
first_two false b why why' rest h = cc
first_two true false why why' rest h = cc
first_two true true why why' rest h = (refl, refl, h)

last_three :
    (a b c : Bool) (why why' why'' : Why) (n size : ℕ) (t trailer : List ℕ)
    → ◌≡◌ {A = Result Why (ℕ × List ℕ)}
        (require a why >> (require b why' >> (require c why'' >> ok (n, t))))
        (ok (size, trailer))
    → n ≡ size
last_three false b c why why' why'' n size t trailer h = cc
last_three true false c why why' why'' n size t trailer h = cc
last_three true true false why why' why'' n size t trailer h = cc
last_three true true true why why' why'' n size t trailer h = cc

required-ok :
    {A X : Type 0} (o : Option A) (why : Why) (next : A → Result Why X) {x : X}
    → (required o why >>= next) ≡ ok x
    → (a : A) × (o ≡ some a) × (next a ≡ ok x)
required-ok none why next h = cc
required-ok (some a) why next h = (a, refl, h)

fits :
    (n first_core : ℕ)
    → leb n (2 ^ 63 - 1) ≡ true
    → leb (first_core + manifest_bytes + 16 + trailer_bytes) n ≡ true
    → (n < 2 ^ 63) × (48 ≤ n)
fits n first_core small long = ground arith

read_trailer-ok :
    (source : Source) (magic : List ℕ) (first_core size : ℕ) (trailer : List ℕ)
    → read_trailer source magic first_core ≡ ok (size, trailer)
    → (source.size ≡ some size) × (size < 2 ^ 63) × (48 ≤ size)
unfolding read_trailer
read_trailer-ok source magic first_core size trailer h =
    let (n, known, rest) = required-ok source.size size_unavailable _ h in
    let (small, long, rest') = first_two _ _ _ _ _ rest in
    let (t, read, last) =
      required-ok (read_at source trailer_bytes (n - trailer_bytes)) trailer_unreadable _ rest' in
    let same : n ≡ size =
      last_three (same_bytes (take 8 t) magic) (be32 (drop 8 t) == 2)
        (be32 (drop 12 t) == trailer_bytes) trailer_magic (version_error (be32 (drop 8 t)))
        trailer_length n size t trailer last in
    let (below, above) = fits n first_core small long in
    (known ∙ ap some same, subst (λ n. n < 2 ^ 63) same below, subst (λ n. 48 ≤ n) same above)

rest-ok :
    {X : Type 0} (first : Result Why (Unit {0})) (second : Result Why X) (b : Bool) (why : Why)
    (last : X → Decoded) {d : Decoded}
    → (first >> (second >>= λ x. (require b why >> ok (last x)))) ≡ ok d
    → (first ≡ ok tt) × (b ≡ true) × ((x : X) × (second ≡ ok x) × (last x ≡ d))
rest-ok (err e) second b why last h = cc
rest-ok (ok tt) (err e) b why last h = cc
rest-ok (ok tt) (ok x) false why last h = cc
rest-ok (ok tt) (ok x) true why last h = (refl, refl, (x, refl, cc))

-- Where the parts lie: the manifest at a multiple of the alignment after `first_core`, the database
-- directly behind it, and the trailer at the end.
pub record IsLaid (source : Source) (first_core : ℕ) (d : Decoded) : Type 0 where
  pub size : ℕ
  pub known : source.size ≡ some size
  pub manifest : d.manifest_offset + 4096 ≡ d.database_offset
  pub database : d.database_offset + d.database_length + 48 ≡ size
  pub after : first_core ≤ d.manifest_offset
  pub aligned : d.manifest_offset % 16384 ≡ 0

decode_rest-IsLaid :
    (source : Source) (first_core size : ℕ) (trailer : List ℕ) (d : Decoded)
    → source.size ≡ some size
    → size < 2 ^ 63
    → 48 ≤ size
    → decode_rest source first_core size trailer ≡ ok d
    → IsLaid source first_core d
unfolding decode_rest
decode_rest-IsLaid source first_core size trailer d known small long h =
    let (ranges, header, (found, entries, same)) = rest-ok _ _ _ _ (decoded_of trailer) h in
    let (manifest, database, after, aligned) =
      check_ranges-ok first_core (size - 48) (be64 (drop 16 trailer)) (be64 (drop 24 trailer))
        (be64 (drop 32 trailer)) (be64 (drop 40 trailer)) (omega arith) ranges in
    subst (IsLaid source first_core) same (record {
      size = size;
      known = known;
      manifest = manifest;
      database = omega arith;
      after = after;
      aligned = aligned;
    })

decode_blocks-IsLaid :
    (source : Source) (magic : List ℕ) (first_core : ℕ) (d : Decoded)
    → decode_blocks source magic first_core ≡ ok d
    → IsLaid source first_core d
unfolding decode_blocks
decode_blocks-IsLaid source magic first_core d h =
    let ((size, trailer), read, rest) = >>=-eq-ok (read_trailer source magic first_core) _ h in
    let (known, small, long) = read_trailer-ok source magic first_core size trailer read in
    decode_rest-IsLaid source first_core size trailer d known small long rest

only-eq : (entries : List Entry) (e : Entry) → only entries ≡ some e → entries ≡ e ∷ []
only-eq [] e h = cc
only-eq (a ∷ []) e h = cc
only-eq (a ∷ b ∷ entries) e h = cc

pair-eq :
    {A B : Type 0} (a c : A) (b d : B)
    → ◌≡◌ {A = Result Why (A × B)} (ok (a, b)) (ok (c, d))
    → (a ≡ c) × (b ≡ d)
pair-eq a c b d h = (cc, cc)

-- The checks of a host program after its blocks.
host_rest-ok :
    (source : Source) (decoded d : Decoded) (e : Entry)
    → IsLaid source 0 decoded
    → ◌≡◌ {A = Result Why (Decoded × Entry)}
        (◌>>=◌ {B = Decoded × Entry} (required (only decoded.entries) one_core) (λ core.
          ◌>>=◌ {B = Decoded × Entry}
            (check_core source decoded.manifest_offset core)
            (λ _. ok (decoded, core))))
        (ok (d, e))
    → IsLaid source 0 d
      × (e.offset ≡ 0)
      × (e.length ≤ d.manifest_offset)
      × (d.manifest_offset < e.length + 16384)
      × (d.entries ≡ e ∷ [])
host_rest-ok source decoded d e laid h = elim (Option-cases (only decoded.entries)) [
  | inl none_or_more ↦ absurd (err-ok {A = Decoded × Entry} one_core (d, e) (rw none_or_more at h))
  | inr (core, alone) ↦
      let (_, checked, last) =
        >>=-eq-ok (check_core source decoded.manifest_offset core) (λ _. ok (decoded, core))
          (rw alone at h) in
      let (same, same') = pair-eq decoded d core e last in
      let (first, near, far) = check_core-ok source decoded.manifest_offset core checked in
      let one = only-eq decoded.entries core alone in
      rw (sym same, sym same') (laid, first, near, far, one)
]

decode_host-ok :
    (source : Source) (d : Decoded) (e : Entry)
    → decode_host source ≡ ok (d, e)
    → IsLaid source 0 d
      × (e.offset ≡ 0)
      × (e.length ≤ d.manifest_offset)
      × (d.manifest_offset < e.length + 16384)
      × (d.entries ≡ e ∷ [])
unfolding decode_host
decode_host-ok source d e h =
    let (decoded, blocks, rest) = >>=-eq-ok (decode_blocks source (codes "CosmicH1") 0) _ h in
    host_rest-ok source decoded d e
      (decode_blocks-IsLaid source (codes "CosmicH1") 0 decoded blocks) rest

guarded :
    {A : Type 0} (b : Bool) (why : Why) (rest : Result Why A) {x : A}
    → (require b why >> rest) ≡ ok x
    → (b ≡ true) × (rest ≡ ok x)
guarded false why rest h = cc
guarded true why rest h = (refl, h)

both : (a b c d : ℕ) → (a == b && c == d) ≡ true → (a ≡ b) × (c ≡ d)
both a b c d h = ground arith

-- What cosmic_host_decode returns is of a file of known size in which the one core starts at 0,
-- the manifest follows within the next 16,384 bytes after the core at a multiple of 16,384, the
-- database follows the manifest, and the trailer follows the database and ends the file; and
-- the core is for the target and configuration that were asked for.
pub host_decode-IsLaid :
    (source : Source) (target_id configuration_id : ℕ) (d : Decoded) (e : Entry)
    → host_decode source target_id configuration_id ≡ ok (d, e)
    → IsLaid source 0 d
      × (e.offset ≡ 0)
      × (e.length ≤ d.manifest_offset)
      × (d.manifest_offset < e.length + 16384)
      × (d.entries ≡ e ∷ [])
      × (e.target_id ≡ target_id)
      × (e.configuration_id ≡ configuration_id)
unfolding host_decode
host_decode-IsLaid source target_id configuration_id d e h =
    let (nonzero, rest) =
      guarded (not (target_id == 0 || configuration_id == 0)) zero_identity _ h in
    let ((decoded, core), returns, last) = >>=-eq-ok (decode_host source) _ rest in
    let (same, kept) =
      guarded (core.target_id == target_id && core.configuration_id == configuration_id)
        other_identity _ last in
    let (same_decoded, same_core) = pair-eq decoded d core e kept in
    let (laid, first, near, far, one) = decode_host-ok source decoded core returns in
    let (target, configuration) = both _ _ _ _ same in
    rw (sym same_decoded, sym same_core) (laid, first, near, far, one, target, configuration)
