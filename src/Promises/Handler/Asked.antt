-- ===== src/Promises/Handler/Asked.antt =====
-- What a caller of promise_filter of core/promises.c asks for, and the program that it gets.
use cosmic.Prelude.{
  ℕ, ◌+◌, ◌%◌, ◌^◌, ◌≤◌, ◌<◌, ◌≡◌, refl, ap, ◌∙◌, Bool, true, false, ◌||◌, Option, none, some, List,
  [], ◌∷◌, ◌++◌, map, arith, ◌==◌, if◌then◌else◌, bit_or,
}
use cosmic.Prelude.Results.{ok}
use cosmic.Prelude.Text.{codes}
use cosmic.Connector.Bpf.{Insn, Call as Made, run}
use cosmic.Promises.Program.{program_for}
use cosmic.Promises.Program.Policy.{policy, program_for-policy}
use cosmic.Promises.Handler.{
  text, missing, natural, promise_named, c_string, Listed, bit_of, promises_from, architecture_of,
  PidField, Options, pid_of, sockets_of, held_of, promise_filter, bit_if,
}
use cosmic.Promises.Handler.Answers.{never_large}

pub data Promise : Type 0 where
  fork jit fattr nest : Promise

abbrev pub spelling : Promise → List ℕ
spelling fork = codes "fork"
spelling jit = codes "jit"
spelling fattr = codes "fattr"
spelling nest = codes "nest"

abbrev pub same_promise : Promise → Promise → Bool
same_promise fork fork = true
same_promise jit jit = true
same_promise fattr fattr = true
same_promise nest nest = true
same_promise p q = false

-- What follows a name in a string of Lua's that C reads as that name: nothing, or a zero byte and
-- whatever comes after it.
abbrev pub ending : Option (List ℕ) → List ℕ
ending none = []
ending (some rest) = 0 ∷ rest

-- A promise as it stands in the caller's list.
abbrev pub listed_as : Promise × Option (List ℕ) → Listed
listed_as (p, rest) = text (spelling p ++ ending rest)

abbrev pub asks : Promise → List (Promise × Option (List ℕ)) → Bool
asks p [] = false
asks p ((q, rest) ∷ asked) = same_promise p q || asks p asked

abbrev pub architecture_name : Bool → List ℕ
architecture_name false = codes "x86_64"
architecture_name true = codes "aarch64"

-- The pid that the options ask for: 1 where the field is missing, and else a positive integer of 31
-- bits.
pub data IsPid : PidField → ℕ → Type 0 where
  by_default : IsPid missing 1
  given : {n : ℕ} → 1 ≤ n → n < 2 ^ 31 → IsPid (natural n) n

-- Four flags as a number, the lowest bit first.
abbrev pub flags : Bool → Bool → Bool → Bool → ℕ
flags a b c d =
    (if a then 1 else 0) + (if b then 2 else 0) + (if c then 4 else 0) + (if d then 8 else 0)

abbrev promises_of : List (Promise × Option (List ℕ)) → ℕ
promises_of asked = flags (asks fork asked) (asks jit asked) (asks fattr asked) (asks nest asked)

abbrev bit : Promise → ℕ
bit fork = 1
bit jit = 2
bit fattr = 4
bit nest = 8

add_bit :
    (p : Promise) (a b c d : Bool)
    → bit_or (flags a b c d) (bit p)
      ≡ flags
          (a || same_promise fork p)
          (b || same_promise jit p)
          (c || same_promise fattr p)
          (d || same_promise nest p)
add_bit fork a b c d = ground arith
add_bit jit a b c d = ground arith
add_bit fattr a b c d = ground arith
add_bit nest a b c d = ground arith

c_string-ending :
    (p : Promise) (rest : Option (List ℕ)) → c_string (spelling p ++ ending rest) ≡ spelling p
c_string-ending fork none = refl
c_string-ending fork (some rest) = refl
c_string-ending jit none = refl
c_string-ending jit (some rest) = refl
c_string-ending fattr none = refl
c_string-ending fattr (some rest) = refl
c_string-ending nest none = refl
c_string-ending nest (some rest) = refl

bit_of-listed_as : (p : Promise) (rest : Option (List ℕ)) → bit_of (listed_as (p, rest)) ≡ bit p
unfolding promise_named
bit_of-listed_as p rest = ap promise_named (c_string-ending p rest) ∙ named p
  where
    named : (p : Promise) → promise_named (spelling p) ≡ bit p
    named fork = refl
    named jit = refl
    named fattr = refl
    named nest = refl

bit-nonzero : (p : Promise) → bit p == 0 ≡ false
bit-nonzero fork = refl
bit-nonzero jit = refl
bit-nonzero fattr = refl
bit-nonzero nest = refl

or_assoc : (a b c : Bool) → ((a || b) || c) ≡ (a || (b || c))
or_assoc false b c = refl
or_assoc true b c = refl

promises_from-asked :
    (asked : List (Promise × Option (List ℕ))) (a b c d : Bool)
    → promises_from (flags a b c d) (map listed_as asked)
      ≡ ok (
          flags
            (a || asks fork asked)
            (b || asks jit asked)
            (c || asks fattr asked)
            (d || asks nest asked))
unfolding promises_from
promises_from-asked [] a b c d = ground arith
promises_from-asked ((p, rest) ∷ asked) a b c d =
    rw (bit_of-listed_as p rest, bit-nonzero p, add_bit p a b c d)
      (promises_from-asked asked (a || same_promise fork p) (b || same_promise jit p)
          (c || same_promise fattr p) (d || same_promise nest p)
        ∙ rw
            (
              or_assoc a (same_promise fork p) (asks fork asked),
              or_assoc b (same_promise jit p) (asks jit asked),
              or_assoc c (same_promise fattr p) (asks fattr asked),
              or_assoc d (same_promise nest p) (asks nest asked),
            )
            refl)

sockets_of-flags : (o : Options) → sockets_of o ≡ flags o.unix o.inet false false
unfolding sockets_of
sockets_of-flags o = ground arith

held_of-flags : (o : Options) → held_of o ≡ flags o.scoped o.unix_held o.limits_held o.pids_held
unfolding held_of
held_of-flags o = spread o.scoped o.unix_held o.limits_held o.pids_held
  where
    spread : (a b c d : Bool) → bit_if d 8 (bit_if c 4 (bit_if b 2 (bit_if a 1 0))) ≡ flags a b c d
    spread a b c d = ground arith

architecture_of-name :
    (arm : Bool) (rest : Option (List ℕ))
    → architecture_of (c_string (architecture_name arm ++ ending rest)) ≡ ok arm
unfolding architecture_of
architecture_of-name false none = refl
architecture_of-name false (some rest) = refl
architecture_of-name true none = refl
architecture_of-name true (some rest) = refl

pid_of-IsPid : {field : PidField} {pid : ℕ} → IsPid field pid → pid_of field ≡ ok pid
unfolding pid_of
pid_of-IsPid by_default = refl
pid_of-IsPid (given positive small) = ground arith

IsPid-small : {field : PidField} {pid : ℕ} → IsPid field pid → pid % 2 ^ 32 ≡ pid
IsPid-small by_default = refl
IsPid-small (given positive small) = omega arith

-- A call of promise_filter with any list of names of promises, the name of either architecture
-- (each string alone or with a zero byte and anything after it), and a pid that is missing or
-- is from 1 to 2^31 - 1, always returns a program, and that program decides every call as the
-- policy says for that architecture, that pid (1 where it is missing), exactly the promises in
-- the list (`fork`, `jit`, `fattr` and `nest`, from the lowest bit), the sockets asked for
-- (`unix` and `inet`) and what is held (`scoped`, `unix_held`, `limits_held` and `pids_held`).
pub promise_filter-policy :
    (asked : List (Promise × Option (List ℕ))) (arm : Bool) (after : Option (List ℕ))
    (options : Options) (pid : ℕ)
    → IsPid options.pid pid
    → (code : List Insn) × (promise_filter
          (map listed_as asked)
          (architecture_name arm ++ ending after)
          options
        ≡ ok code)
      × ((c : Made)
          → run c code
            ≡ some (
                policy arm
                  (flags (asks fork asked) (asks jit asked) (asks fattr asked) (asks nest asked))
                  (flags options.unix options.inet false false)
                  pid
                  (flags options.scoped options.unix_held options.limits_held options.pids_held)
                  c))
unfolding promise_filter
promise_filter-policy asked arm after options pid valid =
    let promises = promises_of asked in
    let sockets = flags options.unix options.inet false false in
    let held = flags options.scoped options.unix_held options.limits_held options.pids_held in
    (
      (program_for arm promises sockets pid held).0,
      rw
          (
            promises_from-asked asked false false false false,
            architecture_of-name arm after,
            pid_of-IsPid valid,
            sockets_of-flags options,
            held_of-flags options,
            IsPid-small valid,
            never_large arm promises sockets pid held,
          )
          refl,
      λ c. program_for-policy arm promises sockets pid held c,
    )
