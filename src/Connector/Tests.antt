-- ===== src/Connector/Tests.antt =====
-- The connector's theorems at concrete inputs.
use cosmic.Prelude.{
  replicate, ◌⊎◌, map, ℕ, zero, suc, ◌+◌, ◌*◌, ◌^◌, ◌≤◌, ◌<◌, ◌≡◌, ◌↔◌, refl, true, false, Option,
  none, some, List, [], ◌∷◌, ◌++◌, arith, if◌then◌else◌, inl, inr, length, take, replicate,
  rev_onto,
}
use cosmic.Prelude.Results.{ok, err}
use cosmic.Connector.Bpf.{Call, Insn, run}
use cosmic.Connector.Filter.{Range, program, x86, arm, allow}
use cosmic.Connector.Filter.Policy.{IsCall, AllRanges, nil, cons, program-policy}
use cosmic.Connector.Filter.Size.{IsSized, program-fits}
use cosmic.Prelude.Text.{codes}
use cosmic.Connector.Filter.{Numbers}
use cosmic.Connector.Filter.Policy.{policy}
use cosmic.Connector.Filter.Handler.{
  Asked, natural, connector_filter, connector_filter-policy, IsNamed, asked_of,
}
use cosmic.Connector.Address.Texts.{DenotesCidr, Said, SaidOwn}
use cosmic.Connector.Address.Lists.{public_read, public_read-IsAllowed, deny_max, own_max}
use cosmic.Connector.Filter.Layout.{ranges_max}
use cosmic.Connector.Table.Prepared.{prepare, prepare-AllRanges}
use cosmic.Connector.Hold.{Action, Holding, install_filter, hold, survives, hold-survives}
use cosmic.Connector.Address.{
  Resolver, AreBytes, same_bytes, address, prefix, numeric_host, contains,
}
use cosmic.Connector.Address.{Prefix, Public, within, public_allowed}
use cosmic.Connector.Address.Within.{bits_of, within-bits}
use mathlib.Core.List.{Perm}
use cosmic.Connector.Request
use cosmic.Connector.Table.{
  Endpoint, inet, inet6, System, Plan, Mapping, make_table, place, table_bytes, used_from,
}
use cosmic.Connector.Table.Offsets.{Laid, AreEndpoints}
use cosmic.Connector.Table.Placement.{IsPlaced, place-IsPlaced}
use cosmic.Connector.Table.Made.{IsUsual, make_table-Laid}
use cosmic.Connector.Request.{
  Request, Network, decode, public_connect, begin, scratch_address, request_bytes, all_zero,
}
use cosmic.Connector.Request.Wire.{encode, decode-encode}
use cosmic.Connector.Request.Outward.{ConnectsTo, public_connect-IsAllowed}
use cosmic.Connector.Serve.{
  Flight, Serving, World, Polled, Stream, readable, bytes, round, sweep, serve,
}
use cosmic.Connector.Serve.Account.{count_tag}
use cosmic.Connector.Serve.Sweep.{kept, settled, sweep-settles}
use cosmic.Connector.Serve.Rounds.{completed, new_tag, count_round}
use cosmic.Connector.Serve.Bounds.{IsServing, round-IsServing}
use cosmic.Connector.Address.Allowed.{ArePrefixes, IsAllowed, public_allowed-IsAllowed}

-- connect(5, base + 16, 16) on x86-64, where the table's one range begins at `base`.
abbrev base : ℕ
base = 0x7f0000001000

abbrev range : Range
range = record { base = base; slots = 3; length = 16 }

abbrev argument : ℕ → ℕ
argument zero = 5
argument (suc zero) = base + 16
argument (suc (suc n)) = 16

abbrev call : Call
call = record { number = 42; architecture = 0xc000003e; args = argument }

argument_fits : (i : ℕ) → argument i < 2 ^ 64
argument_fits zero = omega arith
argument_fits (suc zero) = omega arith
argument_fits (suc (suc n)) = omega arith

call-IsCall : IsCall call
call-IsCall = record { number = omega arith; args = argument_fits }

range-AllRanges : AllRanges (range ∷ [])
range-AllRanges =
    cons
      (record {
        aligned = omega arith;
        together = omega arith;
        below = omega arith;
        sized = inl refl;
      })
      nil

program-policy_example : run call (program x86 (range ∷ []) 3 4).0.insns ≡ some allow
program-policy_example =
    program-policy x86 (range ∷ []) 3 4 call (inl refl) range-AllRanges (omega arith) (omega arith)
      (omega arith) call-IsCall

program-fits_example : IsSized 164 (program arm (range ∷ range ∷ []) 3 4)
program-fits_example = program-fits arm (range ∷ range ∷ []) 3 4 (inr refl) (omega arith)

abbrev instruction : ℕ → ℕ → ℕ → ℕ → Insn
instruction op jt jf k = record { code = op; jt = jt; jf = jf; k = k }

abbrev short_program : List Insn
short_program =
    instruction 0x20 0 0 0
    ∷ instruction 0x15 0 1 42
    ∷ instruction 0x06 0 0 1
    ∷ instruction 0x06 0 0 2
    ∷ []

-- 10.64.0.0/10, and the addresses 10.65.1.2 and 8.8.8.8.
abbrev carrier : Prefix
carrier = record { bytes = 10 ∷ 64 ∷ replicate 14 0; length = 4; bits = 10 }

abbrev inside : List ℕ
inside = 10 ∷ 65 ∷ 1 ∷ 2 ∷ []

abbrev outside : List ℕ
outside = 8 ∷ 8 ∷ 8 ∷ 8 ∷ []

within-bits_example :
    (within carrier inside 4 ≡ true)
    ↔ ((carrier.length ≡ 4) × (take 10 (bits_of carrier.bytes) ≡ take 10 (bits_of inside)))
within-bits_example =
    within-bits carrier inside 4 (ground arith) (ground arith) (omega arith) (λ e. omega arith)

abbrev lists : Public
lists = record { deny = carrier ∷ []; own = []; enabled = true }

public_allowed-IsAllowed_example : (public_allowed lists outside 4 ≡ true) ↔ IsAllowed lists outside
public_allowed-IsAllowed_example =
    public_allowed-IsAllowed lists outside
      (
        record {
          sixteen = refl;
          bytes = ground arith;
          sized = inl refl;
          within_size = omega arith;
        },
        tt,
      )
      tt (ground arith)

-- A wildcard endpoint of IPv4 and one of IPv6, on pages of 4 KiB.
abbrev endpoints : List Endpoint
endpoints =
    record {
      address = record { family = inet; host = outside; port = 0 };
      slots = 65535;
      length = 16;
    }
    ∷ record {
      address = record { family = inet6; host = replicate 16 1; port = 443 };
      slots = 1;
      length = 28;
    }
    ∷ []

abbrev start : ℕ
start = 0x7ffffff000

abbrev usual : System
usual = record {
  page = 4096;
  refused = false;
  mapped = ok start;
  straddle = false;
  remapped = ok 0;
  protected = ok tt;
  scratch = ok 0;
}

endpoints-AreEndpoints : AreEndpoints endpoints
endpoints-AreEndpoints = (
  record { sized = inl refl; filled = omega arith; fits = omega arith },
  (record { sized = inr refl; filled = omega arith; fits = omega arith }, tt),
)

usual-IsUsual : IsUsual usual start
usual-IsUsual = record {
  page_aligned = omega arith;
  page_known = omega arith;
  page_small = omega arith;
  mapped = refl;
  start_aligned = omega arith;
  start_low = omega arith;
  served = refl;
  unfaulted = refl;
  protected = refl;
}

endpoints_used : (0 < used_from 0 endpoints) × (used_from 0 endpoints ≤ table_bytes)
unfolding used_from
endpoints_used = (omega arith, omega arith)

make_table-Laid_example :
    (plan : Plan) × (at : ℕ) × (make_table endpoints usual ≡ ok plan)
    × AllRanges plan.table.ranges
    × (length plan.table.ranges ≡ 2)
    × (start ≤ at)
    × Laid at plan.table.ranges (at + plan.bytes)
    × (at + plan.bytes ≤ start + 2 * plan.bytes)
make_table-Laid_example =
    make_table-Laid endpoints usual start endpoints-AreEndpoints endpoints_used.0 endpoints_used.1
      usual-IsUsual

place-IsPlaced_example : (m : Mapping) × (place 0x200000 start ≡ ok m) × IsPlaced 0x200000 start m
place-IsPlaced_example = place-IsPlaced 0x200000 start (omega arith) (omega arith)

-- A request for 8.8.8.8, port 443.
abbrev request : Request
request = record {
  tag = 7;
  index = 0xffffffff;
  port = 443;
  wait = 0;
  family = 4;
  address = outside ++ replicate 12 0;
}

decode-encode_example :
    (decode (encode request) ≡ request) × (length (encode request) ≡ request_bytes)
decode-encode_example = decode-encode request (record {
  tag = omega arith;
  index = omega arith;
  port = omega arith;
  wait = omega arith;
  family = omega arith;
  address = refl;
})

abbrev network : Network
network = record { socket = λ a. ok 9; connect = λ fd a size. err 115 }

abbrev plan : Request.Plan
plan = record { ranges = []; memory = []; lists = lists; timeout = 1000 }

request_connects : (public_connect network plan request true).fd ≡ some 9
unfolding public_connect begin public_allowed within all_zero
request_connects = refl

lists-ArePrefixes : ArePrefixes lists.deny
lists-ArePrefixes = (
  record { sixteen = refl; bytes = ground arith; sized = inl refl; within_size = omega arith },
  tt,
)

public_connect-IsAllowed_example :
    ((request.family ≡ 4)
      × ConnectsTo network plan request
          (public_connect network plan request true)
          9
          inet
          (take 4 request.address)
          16)
    ⊎ ((request.family ≡ 6)
        × ConnectsTo network plan request
            (public_connect network plan request true)
            9
            inet6
            request.address
            28)
public_connect-IsAllowed_example =
    public_connect-IsAllowed network plan request true 9 lists-ArePrefixes tt (ground arith) refl
      request_connects

-- Two connects in flight, of which the first has ended, and all but one byte of a request.
abbrev flights : List Flight
flights =
    record { fd = 5; tag = 1; deadline = 100 } ∷ record { fd = 6; tag = 2; deadline = 200 } ∷ []

abbrev serving : Serving
serving = record { flight = flights; held = take 35 (encode request); replies = []; closed = [] }

abbrev world : World
world = record { net = network; takes = λ n r. true; now = some 50; later = some 60 }

abbrev polled : ℕ → Polled
polled zero = record { ready = true; failure = 0 }
polled (suc n) = record { ready = false; failure = 0 }

sweep-settles_example :
    (s' : Serving) × (sweep world polled 2 serving ≡ some s')
    × Perm s'.flight (kept world polled (rev_onto flights []))
    × (s'.replies ≡ settled world polled (rev_onto flights []))
    × (s'.held ≡ serving.held)
sweep-settles_example = sweep-settles world polled (λ n r. refl) serving

abbrev served : Serving
served = record {
  flight =
      record { fd = 6; tag = 2; deadline = 200 } ∷ record { fd = 9; tag = 7; deadline = 1060 } ∷ [];
  held = [];
  replies = record { tag = 1; failure = 0; fd = some 5 } ∷ [];
  closed = 5 ∷ [];
}

abbrev stream : Stream
stream = readable (bytes (0 ∷ []))

serving-round : round world plan polled stream serving ≡ some served
unfolding round serve decode public_connect begin public_allowed within all_zero
serving-round = refl

count_round_example :
    count_tag 7 served ≡ new_tag (completed stream serving.held) 7 + count_tag 7 serving
count_round_example = count_round world plan polled stream serving served 7 serving-round

round-IsServing_example : IsServing served
round-IsServing_example =
    round-IsServing world plan polled stream serving served
      (record { flights = omega arith; room = omega arith }) (omega arith) serving-round

-- One wildcard range of IPv4 on AArch64, as a caller of connector_filter names it.
abbrev asked : List Asked
asked = record { base = natural base; slots = natural 3; length = natural 16 } ∷ []

abbrev filter_code : List Insn
filter_code = (program arm (range ∷ []) 3 4).0.insns

filter_built : connector_filter (codes "aarch64") asked 3 4 ≡ ok filter_code
unfolding connector_filter
filter_built = let fits = program-fits arm (range ∷ []) 3 4 (inr refl) (omega arith) in ground arith

connector_filter-policy_example :
    (n : Numbers) × (ranges : List Range) × IsNamed (codes "aarch64") n
    × (map asked_of ranges ≡ asked)
    × AllRanges ranges
    × ((c : Call) → IsCall c → run c filter_code ≡ some (policy n ranges 3 4 c))
connector_filter-policy_example =
    connector_filter-policy (codes "aarch64") asked 3 4 filter_code (omega arith, tt) (omega arith)
      (omega arith) filter_built

-- A resolver that knows two addresses.
abbrev pton4 : List ℕ → Option (List ℕ)
pton4 text = if same_bytes text (codes "10.64.0.0") then some (10 ∷ 64 ∷ 0 ∷ 0 ∷ []) else none

pton4-length : (text found : List ℕ) → pton4 text ≡ some found → length found ≡ 4
pton4-length text found e = ground arith

pton4-AreBytes : (text found : List ℕ) → pton4 text ≡ some found → AreBytes found
pton4-AreBytes text found e = ground arith

no_address : (text found : List ℕ) → none ≡ some found → (length found ≡ 16) × AreBytes found
no_address text found e = absurd cc

abbrev resolver : Resolver
resolver = record {
  pton4 = pton4;
  pton6 = λ text. none;
  pton4-length = pton4-length;
  pton6-length = λ text found e. (no_address text found e).0;
  pton4-AreBytes = pton4-AreBytes;
  pton6-AreBytes = λ text found e. (no_address text found e).1;
}

abbrev both_lists : Public
both_lists = record {
  deny = carrier ∷ [];
  own = record { bytes = 10 ∷ 64 ∷ replicate 14 0; length = 4; bits = 32 } ∷ [];
  enabled = true;
}

lists_read :
    public_read resolver (codes "10.64.0.0/10" ∷ []) (some (codes "10.64.0.0" ∷ [])) ≡ ok both_lists
unfolding public_read address prefix numeric_host contains
lists_read = refl

public_read-IsAllowed_example :
    Said (DenotesCidr resolver) (codes "10.64.0.0/10" ∷ []) both_lists.deny
    × SaidOwn resolver (some (codes "10.64.0.0" ∷ [])) both_lists.own
    × (both_lists.enabled ≡ true)
    × (length both_lists.deny ≤ deny_max)
    × (length both_lists.own ≤ own_max)
    × ((public_allowed both_lists outside 4 ≡ true) ↔ IsAllowed both_lists outside)
public_read-IsAllowed_example =
    public_read-IsAllowed resolver (codes "10.64.0.0/10" ∷ []) (some (codes "10.64.0.0" ∷ []))
      both_lists outside (ground arith) lists_read

abbrev kernel : Action → ℕ
kernel a = 0

abbrev holding : Holding
holding = record { control = 3; status = 7; close_refused = false; filter_refused = false }

hold_ends : (hold kernel 65 1024 holding).1 ≡ 0
unfolding hold
hold_ends = refl

hold-survives_example :
    ((before : List Action) × ((hold kernel 65 1024 holding).0 ≡ before ++ install_filter ∷ []))
    × (survives 5 (hold kernel 65 1024 holding).0 ≡ false)
hold-survives_example = hold-survives kernel 65 1024 holding 5 (omega arith) hold_ends

abbrev scratch_base : ℕ
scratch_base = 0x7f00001000

abbrev with_scratch : System
with_scratch = record usual { scratch = ok scratch_base }

prepare-AllRanges_example :
    (ranges : List Range) × (prepare (ok tt) endpoints true with_scratch ≡ ok ranges)
    × AllRanges ranges
    × (length ranges ≤ ranges_max)
prepare-AllRanges_example =
    prepare-AllRanges endpoints true with_scratch start scratch_base endpoints-AreEndpoints
      (omega arith) endpoints_used.0 endpoints_used.1
      (record {
        page_aligned = omega arith;
        page_known = omega arith;
        page_small = omega arith;
        mapped = refl;
        start_aligned = omega arith;
        start_low = omega arith;
        served = refl;
        unfaulted = refl;
        protected = refl;
      })
      (record { page_large = omega arith; mapped = refl; aligned = omega arith; low = omega arith })
