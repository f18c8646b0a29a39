-- ===== src/Connector/Request.antt =====
-- core/connector.c: a request and what it is answered with: connector_decode, connector_begin,
-- connector_connect and connector_public_connect. Errors are errno values (Linux), 0 for none.
pub mod Wire
pub mod Outward
use cosmic.Prelude.{
  ℕ, zero, suc, ◌+◌, ◌-◌, ◌*◌, ◌/◌, ◌%◌, ◌^◌, Bool, true, false, not, ◌&&◌, ◌||◌, Option, none,
  some, List, [], ◌∷◌, ◌++◌, ◌==◌, ltb, leb, if◌then◌else◌, length, get_or, get_elem?, take, drop,
}
use cosmic.Prelude.Results.{Result, ok, err}
use cosmic.Connector.Filter.{Range, stride}
use cosmic.Connector.Address.{Public, public_allowed}
use cosmic.Connector.Table.{Sockaddr, Family, inet, inet6, scratch_stride}

abbrev pub eperm : ℕ
eperm = 1

abbrev pub eintr : ℕ
eintr = 4

abbrev pub eio : ℕ
eio = 5

abbrev pub einval : ℕ
einval = 22

abbrev pub etimedout : ℕ
etimedout = 110

abbrev pub einprogress : ℕ
einprogress = 115

-- CONNECTOR_DENIED and CONNECTOR_BUSY
abbrev pub denied : ℕ
denied = 0x10000

abbrev pub busy : ℕ
busy = 0x10001

-- CONNECTOR_PUBLIC
abbrev pub public_index : ℕ
public_index = 0xffffffff

-- CONNECTOR_REQUEST_BYTES
abbrev pub request_bytes : ℕ
request_bytes = 36

-- struct connector_request
pub record Request : Type 0 where
  pub tag : ℕ
  pub index : ℕ
  pub port : ℕ
  pub wait : ℕ
  pub family : ℕ
  pub address : List ℕ

-- ntohl of the four bytes at `at`
pub word_at : List ℕ → ℕ → ℕ
word_at bytes at =
    get_or bytes at 0 * 2 ^ 24
    + get_or bytes (at + 1) 0 * 2 ^ 16
    + get_or bytes (at + 2) 0 * 2 ^ 8
    + get_or bytes (at + 3) 0

-- connector_decode
unfoldable pub decode : List ℕ → Request
unfolding word_at
decode bytes = record {
  tag = word_at bytes 0;
  index = word_at bytes 4;
  port = word_at bytes 8;
  wait = word_at bytes 12;
  family = word_at bytes 16;
  address = take 16 (drop 20 bytes);
}

-- What the system answers to socket() and connect(), asked for one address and its size.
pub record Network : Type 0 where
  pub socket : Sockaddr → Result ℕ ℕ
  pub connect : ℕ → Sockaddr → ℕ → Result ℕ (Unit {0})

-- An answer: 0 or an error, and the socket there is.
pub record Answer : Type 0 where
  pub failure : ℕ
  pub fd : Option ℕ

abbrev pub refusing : ℕ → Answer
refusing e = record { failure = e; fd = none }

-- connector_begin
unfoldable pub begin : Network → Sockaddr → ℕ → Answer
begin net address size = elim (net.socket address) [
  | err e ↦ refusing e
  | ok fd ↦ elim (net.connect fd address size) [
    | ok _ ↦ record { failure = 0; fd = some fd }
    | err e ↦
        if e == einprogress || e == eintr
        then record { failure = einprogress; fd = some fd }
        else refusing e
  ]
]

-- What connects: the table's ranges and memory, the public lists, the longest wait in
-- milliseconds (struct connector_plan).
pub record Plan : Type 0 where
  pub ranges : List Range
  pub memory : List (ℕ × Sockaddr)
  pub lists : Public
  pub timeout : ℕ

unfoldable pub all_zero : List ℕ → Bool
all_zero [] = true
all_zero (b ∷ bs) = b == 0 && all_zero bs

-- Reading the address that a pointer names.
unfoldable pub read_slot : List (ℕ × Sockaddr) → ℕ → Option Sockaddr
read_slot [] at = none
read_slot ((base, address) ∷ rest) at = if base == at then some address else read_slot rest at

-- The slot of a range that a port is looked for in.
abbrev pub slot_pointer : Range → ℕ → ℕ
slot_pointer r port = r.base + (if ltb 1 r.slots then (port - 1) * stride r.length else 0)

-- The request's slot and the size it is connected at, if the table holds its port.
unfoldable pub table_slot : Plan → ℕ → ℕ → Option (Sockaddr × ℕ)
unfolding read_slot
table_slot plan index port =
    if ltb index 1 || ltb (length plan.ranges) index || ltb port 1 || ltb 65535 port
    then none
    else elim (get_elem? plan.ranges (index - 1)) [
      | none ↦ none
      | some r ↦ elim (read_slot plan.memory (slot_pointer r port)) [
        | none ↦ none
        | some address ↦ if address.port == port then some (address, r.length) else none
      ]
    ]

-- connector_connect
unfoldable pub connect : Network → Plan → Request → Bool → Answer
connect net plan request room =
    if not (request.family == 0)
    then refusing einval
    else if not (all_zero request.address)
    then refusing einval
    else elim (table_slot plan request.index request.port) [
      | none ↦ refusing eperm
      | some (address, size) ↦ if room then begin net address size else refusing busy
    ]

abbrev pub family_length : ℕ → ℕ
family_length family = if family == 4 then 4 else if family == 6 then 16 else 0

-- The address that a public request writes to its scratch slot, and its size.
abbrev pub scratch_address : Request → Sockaddr × ℕ
scratch_address request =
    if family_length request.family == 4
    then (record { family = inet; host = take 4 request.address; port = request.port }, 16)
    else (record { family = inet6; host = request.address; port = request.port }, 28)

-- connector_public_connect
unfoldable pub public_connect : Network → Plan → Request → Bool → Answer
public_connect net plan request room =
    let length = family_length request.family in
    if not plan.lists.enabled
    then refusing eperm
    else if length == 0 || ltb 65535 request.port
    then refusing einval
    else if not (all_zero (drop length request.address))
    then refusing einval
    else if not (public_allowed plan.lists (take length request.address) length)
    then refusing denied
    else if request.port == 0
    then record { failure = 0; fd = none }
    else if not room
    then refusing busy
    else begin net (scratch_address request).0 (scratch_address request).1
