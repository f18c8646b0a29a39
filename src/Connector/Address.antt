-- ===== src/Connector/Address.antt =====
-- core/connector.c: address prefixes, read from text and held against an address
-- (connector_address, connector_prefix, connector_within, connector_public_allowed), and
-- cosmic_numeric_host of core/socket.c, which they call. A text is the list of its bytes.
pub mod Within
pub mod Allowed
pub mod Texts
pub mod Lists
use cosmic.Prelude.{
  ℕ, zero, suc, ◌+◌, ◌-◌, ◌*◌, ◌/◌, ◌%◌, ◌^◌, ◌<◌, ◌≡◌, Bool, true, false, not, ◌&&◌, ◌||◌, Option,
  none, some, List, [], ◌∷◌, ◌++◌, ◌==◌, ltb, leb, if◌then◌else◌, bit_and, bit_xor, length, get_or,
  take, drop, replicate,
}
pub use cosmic.Prelude.Text.{AreBytes}

-- struct connector_prefix: 16 bytes, of which the first `length` count, and of those `bits` bits.
pub record Prefix : Type 0 where
  pub bytes : List ℕ
  pub length : ℕ
  pub bits : ℕ

-- struct connector_public: the lists a public connector refuses.
pub record Public : Type 0 where
  pub deny : List Prefix
  pub own : List Prefix
  pub enabled : Bool

-- memcmp(a, b, n) == 0
abbrev pub same_bytes : List ℕ → List ℕ → Bool
same_bytes [] [] = true
same_bytes [] (y ∷ ys) = false
same_bytes (x ∷ xs) [] = false
same_bytes (x ∷ xs) (y ∷ ys) = x == y && same_bytes xs ys

-- connector_within
unfoldable pub within : Prefix → List ℕ → ℕ → Bool
within prefix address length =
    if prefix.length == length
    then (let whole = prefix.bits / 8 in
        let rest = prefix.bits % 8 in
        if same_bytes (take whole prefix.bytes) (take whole address)
        then (if rest == 0
            then true
            else bit_and (bit_xor (get_or prefix.bytes whole 0) (get_or address whole 0))
                (0xff * 2 ^ (8 - rest) % 256)
              == 0)
        else false)
    else false

-- Whether one of a list's prefixes holds the address.
pub any_within : List Prefix → List ℕ → ℕ → Bool
any_within [] address length = false
any_within (prefix ∷ rest) address length =
    if within prefix address length then true else any_within rest address length

-- connector_public_allowed
unfoldable pub public_allowed : Public → List ℕ → ℕ → Bool
unfolding any_within
public_allowed pub_lists address length =
    if length == 16 && not (bit_and (get_or address 0 0) 0xe0 == 0x20)
    then false
    else if any_within pub_lists.deny address length
    then false
    else if any_within pub_lists.own address length
    then false
    else true

-- What connector_address and connector_prefix ask of inet_pton: the bytes of an address.
pub record Resolver : Type 0 where
  pub pton4 : List ℕ → Option (List ℕ)
  pub pton6 : List ℕ → Option (List ℕ)
  pub pton4-length : (text bytes : List ℕ) → pton4 text ≡ some bytes → length bytes ≡ 4
  pub pton6-length : (text bytes : List ℕ) → pton6 text ≡ some bytes → length bytes ≡ 16
  pub pton4-AreBytes : (text bytes : List ℕ) → pton4 text ≡ some bytes → AreBytes bytes
  pub pton6-AreBytes : (text bytes : List ℕ) → pton6 text ≡ some bytes → AreBytes bytes

unfoldable pub contains : ℕ → List ℕ → Bool
contains c [] = false
contains c (x ∷ xs) = x == c || contains c xs

abbrev pub mapped : List ℕ
mapped = 0 ∷ 0 ∷ 0 ∷ 0 ∷ 0 ∷ 0 ∷ 0 ∷ 0 ∷ 0 ∷ 0 ∷ 0xff ∷ 0xff ∷ []

abbrev pub is_digit : ℕ → Bool
is_digit c = leb b'0' c && leb c b'9'

abbrev is_hex : ℕ → Bool
is_hex c = is_digit c || (leb b'a' c && leb c b'f') || (leb b'A' c && leb c b'F')

-- The first loop of cosmic_numeric_host: whether there is a colon, and what follows the last one.
-- `none` where a byte is neither a colon, a dot nor a hexadecimal digit.
scan_host : List ℕ → Bool → List ℕ → Option (Bool × List ℕ)
scan_host [] ipv6 v4 = some (ipv6, v4)
scan_host (c ∷ rest) ipv6 v4 =
    if c == b':' || c == b'.' || is_hex c
    then scan_host rest (c == b':' || ipv6) (if c == b':' then rest else v4)
    else none

-- An octet's own test, after its digits: `count` of them, of this value, the first one a zero.
abbrev pub octet_ok : ℕ → ℕ → Bool → Bool
octet_ok count value leading_zero =
    not (count == 0 || ltb 255 value || (ltb 1 count && leading_zero))

-- The loop over the octets, with what it has read of the present one.
pub scan_octets : List ℕ → ℕ → ℕ → Bool → ℕ → Bool
scan_octets [] count value leading_zero octets =
    octet_ok count value leading_zero && octets + 1 == 4
scan_octets (c ∷ rest) count value leading_zero octets = elim (is_digit c) [
  | true ↦
      if leb 3 count
      then false
      else scan_octets rest (count + 1) (value * 10 + (c - b'0'))
          (if count == 0 then c == b'0' else leading_zero) octets
  | false ↦
      if octet_ok count value leading_zero && c == b'.' && ltb 0 (length rest)
      then scan_octets rest 0 0 false (octets + 1)
      else false
]

-- cosmic_numeric_host
unfoldable pub numeric_host : List ℕ → Bool
unfolding scan_host scan_octets contains
numeric_host host = elim (scan_host host false host) [
  | none ↦ false
  | some (ipv6, v4) ↦
      if ipv6 && not (contains b'.' v4)
      then not (contains b'.' host)
      else scan_octets v4 0 0 false 0
]

with_bits : ℕ → Prefix → Option Prefix
with_bits bits found =
    if ltb (found.length * 8) bits then none else some (record found { bits = bits })

-- strchr(text, '/'): what precedes the first slash, and what follows it.
pub split_slash : List ℕ → Option (List ℕ × List ℕ)
split_slash [] = none
split_slash (c ∷ rest) =
    if c == b'/'
    then some ([], rest)
    else elim (split_slash rest) [ none ↦ none | some (a, b) ↦ some (c ∷ a, b) ]

-- The digits' loop.
pub decimal : List ℕ → ℕ → Option ℕ
decimal [] bits = some bits
decimal (c ∷ rest) bits =
    let more = decimal rest (bits * 10 + (c - b'0')) in if is_digit c then more else none

-- The prefix length of "address/bits": one to three digits, with no leading zero.
pub prefix_bits : List ℕ → Option ℕ
unfolding decimal
prefix_bits digits =
    if length digits == 0 || ltb 3 (length digits)
    then none
    else if get_or digits 0 0 == b'0' && ltb 1 (length digits)
    then none
    else decimal digits 0

reduced : Bool → List ℕ → Prefix
reduced reduce bytes =
    if reduce && same_bytes (take 12 bytes) mapped
    then record { bytes = drop 12 bytes ++ replicate 12 0; length = 4; bits = 32 }
    else record { bytes = bytes; length = 16; bits = 128 }

module _ (r : Resolver) where
  -- connector_address
  unfoldable pub address : List ℕ → Bool → Option Prefix
  unfolding numeric_host reduced
  address text reduce =
      if numeric_host text
      then (if contains b':' text
          then elim (r.pton6 text) [ none ↦ none | some bytes ↦ some (reduced reduce bytes) ]
          else elim (r.pton4 text) [
            | none ↦ none
            | some bytes ↦ some (record { bytes = bytes ++ replicate 12 0; length = 4; bits = 32 })
          ])
      else none

  -- connector_prefix
  unfoldable pub prefix : List ℕ → Bool → Option Prefix
  unfolding address split_slash prefix_bits with_bits
  prefix text cidr =
      if cidr
      then elim (split_slash text) [
        | none ↦ none
        | some (before, digits) ↦ elim (prefix_bits digits) [
          | none ↦ none
          | some bits ↦ elim (address before false) [
            | none ↦ none
            | some found ↦ with_bits bits found
          ]
        ]
      ]
      else address text true
