-- ===== src/Connector/Address/Allowed.antt =====
-- connector_public_allowed: which addresses a public connector connects to.
use cosmic.Prelude.{
  ℕ, ◌*◌, ◌/◌, ◌≤◌, ◌<◌, ◌≡◌, ◌↔◌, refl, Bool, true, false, not, ◌&&◌, List, [], ◌∷◌, ◌==◌,
  if◌then◌else◌, bit_and, length, get_or, take, arith, ◌⊎◌, Bool-cases, inl, inr, ==_iff,
}
use cosmic.Prelude.Bits.{holds_below, holds_below-at}
use cosmic.Connector.Address.{Prefix, Public, within, any_within, public_allowed, AreBytes}
use cosmic.Connector.Address.Within.{bits_of, within-bits}

-- A prefix holds an address: one family, and the same first bits.
abbrev pub Covers : Prefix → List ℕ → Type 0
Covers prefix address =
    (prefix.length ≡ length address)
    × (take prefix.bits (bits_of prefix.bytes) ≡ take prefix.bits (bits_of address))

abbrev pub NoneCovers : List Prefix → List ℕ → Type 0
NoneCovers [] address = Unit
NoneCovers (prefix ∷ rest) address = (¬ (Covers prefix address)) × NoneCovers rest address

-- A prefix as connector_prefix leaves it: an IPv4 or IPv6 one, of so many bits at most.
pub record IsPrefix (prefix : Prefix) : Type 0 where
  pub sixteen : length prefix.bytes ≡ 16
  pub bytes : AreBytes prefix.bytes
  pub sized : (prefix.length ≡ 4) ⊎ (prefix.length ≡ 16)
  pub within_size : prefix.bits ≤ 8 * prefix.length

abbrev pub ArePrefixes : List Prefix → Type 0
ArePrefixes [] = Unit
ArePrefixes (prefix ∷ rest) = IsPrefix prefix × ArePrefixes rest

-- The test of an IPv6 address's first byte, by a table.
unicast_agrees : ℕ → Bool
unicast_agrees b = if bit_and b 0xe0 == 0x20 then b / 32 == 1 else not (b / 32 == 1)

unicast_table : holds_below unicast_agrees 256 ≡ true
unfolding holds_below unicast_agrees
unicast_table = refl

unicast_lem : (b : ℕ) → b < 256 → (bit_and b 0xe0 == 0x20) ≡ (b / 32 == 1)
unfolding unicast_agrees
unicast_lem b h = agreed _ _ (holds_below-at unicast_agrees 256 b unicast_table h)
  where
    agreed : (x y : Bool) → (if x then y else not y) ≡ true → x ≡ y
    agreed true true e = refl
    agreed true false e = cc
    agreed false true e = cc
    agreed false false e = refl

within-Covers :
    (prefix : Prefix) (address : List ℕ)
    → IsPrefix prefix
    → AreBytes address
    → (within prefix address (length address) ≡ true) ↔ Covers prefix address
within-Covers prefix address v ba =
    within-bits prefix address (length address) v.bytes ba (omega arith) (λ e. omega arith)

any_within-NoneCovers :
    (prefixes : List Prefix) (address : List ℕ)
    → ArePrefixes prefixes
    → AreBytes address
    → (any_within prefixes address (length address) ≡ false) ↔ NoneCovers prefixes address
unfolding any_within
any_within-NoneCovers [] address v ba = (λ e. tt, λ e. refl)
any_within-NoneCovers (prefix ∷ rest) address v ba =
    elim (Bool-cases (within prefix address (length address))) [
      | inl e ↦
          rw e (λ h. absurd (cc), λ h. absurd (h.0 ((within-Covers prefix address v.0 ba).0 e)))
      | inr e ↦ rw e (
        λ h. (
          λ covers. absurd (cc ((within-Covers prefix address v.0 ba).1 covers)),
          (any_within-NoneCovers rest address v.1 ba).0 h,
        ),
        λ h. (any_within-NoneCovers rest address v.1 ba).1 h.1,
      )
    ]

-- A public connector connects to an address exactly when no denied prefix covers it, no own
-- address does and, of IPv6, its first three bits are 001.
pub record IsAllowed (lists : Public) (address : List ℕ) : Type 0 where
  pub unicast : length address ≡ 16 → take 3 (bits_of address) ≡ 0 ∷ 0 ∷ 1 ∷ []
  pub denied : NoneCovers lists.deny address
  pub owned : NoneCovers lists.own address

first_bits :
    (address : List ℕ)
    → AreBytes address
    → length address ≡ 16
    → ((get_or address 0 0 / 32 == 1) ≡ true) ↔ (take 3 (bits_of address) ≡ 0 ∷ 0 ∷ 1 ∷ [])
first_bits [] ba h = absurd (omega arith)
first_bits (x ∷ rest) ba h = (λ e. ground arith, λ e. ground arith)

first_byte : (address : List ℕ) → AreBytes address → get_or address 0 0 < 256
first_byte [] ba = omega arith
first_byte (x ∷ rest) ba = ba.0

three_refusals :
    (a b c : Bool)
    → ((if a then false else if b then false else if c then false else true) ≡ true)
      ↔ ((a ≡ false) × (b ≡ false) × (c ≡ false))
three_refusals true b c = (λ e. absurd (cc), λ e. absurd (cc e.0))
three_refusals false true c = (λ e. absurd (cc), λ e. absurd (cc e.1))
three_refusals false false true = (λ e. absurd (cc), λ e. absurd (cc e.2))
three_refusals false false false = (λ e. (refl, refl, refl), λ e. refl)

-- The guard on IPv6 addresses passes exactly the global unicast ones.
unicast_guard :
    (address : List ℕ)
    → AreBytes address
    → ((length address == 16 && not (bit_and (get_or address 0 0) 0xe0 == 0x20)) ≡ false)
      ↔ (length address ≡ 16 → take 3 (bits_of address) ≡ 0 ∷ 0 ∷ 1 ∷ [])
unicast_guard address ba = rw (unicast_lem (get_or address 0 0) (first_byte address ba)) (
  λ e h. (first_bits address ba h).0 (ground arith),
  λ f. elim (Bool-cases (length address == 16)) [
    | inl same ↦
        rw (same, (first_bits address ba ((==_iff _ _).0 same)).1 (f ((==_iff _ _).0 same)))
    | inr other ↦ rw other
  ],
)

-- For lists of well-formed prefixes, connector_public_allowed passes an address of bytes
-- exactly when no denied prefix covers it, no own address does and, if it has 16 bytes, its
-- first three bits are 001.
pub public_allowed-IsAllowed :
    (lists : Public) (address : List ℕ)
    → ArePrefixes lists.deny
    → ArePrefixes lists.own
    → AreBytes address
    → (public_allowed lists address (length address) ≡ true) ↔ IsAllowed lists address
unfolding public_allowed
public_allowed-IsAllowed lists address vd vo ba = (
  λ h.
      let parts = (three_refusals _ _ _).0 h in
      record {
        unicast = (unicast_guard address ba).0 parts.0;
        denied = (any_within-NoneCovers lists.deny address vd ba).0 parts.1;
        owned = (any_within-NoneCovers lists.own address vo ba).0 parts.2;
      },
  λ v. (three_refusals _ _ _).1 (
    (unicast_guard address ba).1 v.unicast,
    (any_within-NoneCovers lists.deny address vd ba).1 v.denied,
    (any_within-NoneCovers lists.own address vo ba).1 v.owned,
  ),
)
