-- ===== src/Connector/Address/Within.antt =====
-- connector_within compares whole bytes and then a masked byte: it holds exactly the addresses
-- whose first bits are the prefix's.
use cosmic.Prelude.{
  ℕ, zero, suc, ◌+◌, ◌-◌, ◌*◌, ◌/◌, ◌%◌, ◌^◌, ◌≤◌, ◌<◌, ◌≡◌, ◌↔◌, refl, Bool, true, false, not,
  List, [], ◌∷◌, ◌++◌, ◌==◌, ltb, if◌then◌else◌, bit_and, bit_xor, length, get_or, take, arith, ◌∙◌,
  sym, Bool-cases, inl, inr, ==_iff, ltb→lt, lt→ltb,
}
use Prim.Native.Nat.add
use mathlib.Core.Path.{ap₂, subst}
use cosmic.Prelude.Bits.{bit_xor-lt, halve, holds_below, holds_below-at}
use cosmic.Connector.Address.{Prefix, within, same_bytes, AreBytes}

-- The comparison of memory is equality.
pub same_bytes-eq : (xs ys : List ℕ) → same_bytes xs ys ≡ true → xs ≡ ys
same_bytes-eq [] [] h = refl
same_bytes-eq [] (y ∷ ys) h = cc
same_bytes-eq (x ∷ xs) [] h = cc
same_bytes-eq (x ∷ xs) (y ∷ ys) h = ground (arith, same_bytes-eq xs ys)

pub same_bytes_self : (xs : List ℕ) → same_bytes xs xs ≡ true
same_bytes_self [] = refl
same_bytes_self (x ∷ xs) = ground (arith, same_bytes_self xs)

-- The eight bits of a byte, the highest first, and the bits of some bytes.
abbrev pub bits_of : List ℕ → List ℕ
bits_of [] = []
bits_of (b ∷ bs) =
    b / 128 % 2
    ∷ b / 64 % 2
    ∷ b / 32 % 2
    ∷ b / 16 % 2
    ∷ b / 8 % 2
    ∷ b / 4 % 2
    ∷ b / 2 % 2
    ∷ b % 2
    ∷ bits_of bs

-- The masked test of one byte, `rest` of whose bits count.
abbrev masked : ℕ → ℕ → ℕ → Bool
masked rest x y = bit_and (bit_xor x y) (0xff * 2 ^ (8 - rest) % 256) == 0

-- The masks, by a table: what one leaves is zero exactly below the first digit that counts.
mask_agrees : ℕ → ℕ → Bool
mask_agrees rest w =
    if bit_and w (0xff * 2 ^ (8 - rest) % 256) == 0
    then ltb w (2 ^ (8 - rest))
    else not (ltb w (2 ^ (8 - rest)))

mask_table : holds_below (λ rest. holds_below (mask_agrees rest) 256) 8 ≡ true
unfolding holds_below mask_agrees
mask_table = refl

agreed : (a b : Bool) → (if a then b else not b) ≡ true → a ≡ b
agreed true true h = refl
agreed true false h = cc
agreed false true h = cc
agreed false false h = refl

mask_lem :
    (rest w : ℕ)
    → rest < 8
    → w < 256
    → (bit_and w (0xff * 2 ^ (8 - rest) % 256) == 0) ≡ ltb w (2 ^ (8 - rest))
unfolding mask_agrees
mask_lem rest w p q = agreed _ _ (
    holds_below-at (mask_agrees rest) 256 w
      (holds_below-at (λ rest. holds_below (mask_agrees rest) 256) 8 rest mask_table p) q)

-- The digits that count are the first ones of the byte.
halve-bits :
    (rest x y : ℕ)
    → rest < 8
    → x < 256
    → y < 256
    → (halve (8 - rest) x ≡ halve (8 - rest) y)
      ↔ (take rest (bits_of (x ∷ [])) ≡ take rest (bits_of (y ∷ [])))
halve-bits zero x y h p q = (λ e. refl, λ e. omega arith)
halve-bits (suc zero) x y h p q = (λ e. ground arith, λ e. ground arith)
halve-bits (suc (suc zero)) x y h p q = (λ e. ground arith, λ e. ground arith)
halve-bits (suc (suc (suc zero))) x y h p q = (λ e. ground arith, λ e. ground arith)
halve-bits (suc (suc (suc (suc zero)))) x y h p q = (λ e. ground arith, λ e. ground arith)
halve-bits (suc (suc (suc (suc (suc zero))))) x y h p q = (λ e. ground arith, λ e. ground arith)
halve-bits (suc (suc (suc (suc (suc (suc zero)))))) x y h p q =
    (λ e. ground arith, λ e. ground arith)
halve-bits (suc (suc (suc (suc (suc (suc (suc zero))))))) x y h p q =
    (λ e. ground arith, λ e. ground arith)
halve-bits (suc (suc (suc (suc (suc (suc (suc (suc n)))))))) x y h p q = absurd (omega arith)

bit_xor-byte : (x y : ℕ) → x < 256 → y < 256 → bit_xor x y < 256
bit_xor-byte x y p q = (bit_xor-lt 8 x y).1 (omega arith)

-- The masked test compares the first `rest` bits of a byte.
masked_iff :
    (rest x y : ℕ)
    → rest < 8
    → x < 256
    → y < 256
    → (masked rest x y ≡ true) ↔ (take rest (bits_of (x ∷ [])) ≡ take rest (bits_of (y ∷ [])))
masked_iff rest x y h p q = (
  λ e. (halve-bits rest x y h p q).0 ((bit_xor-lt (8 - rest) x y).0 (ltb→lt _ _ (sym same ∙ e))),
  λ e. same ∙ lt→ltb _ _ ((bit_xor-lt (8 - rest) x y).1 ((halve-bits rest x y h p q).1 e)),
)
  where
    same : masked rest x y ≡ ltb (bit_xor x y) (2 ^ (8 - rest))
    same = mask_lem rest (bit_xor x y) h (bit_xor-byte x y p q)

-- Eight bits are those of one byte.
bits-injective :
    (x y : ℕ) (xs ys : List ℕ)
    → x < 256
    → y < 256
    → bits_of (x ∷ []) ++ xs ≡ bits_of (y ∷ []) ++ ys
    → (x ≡ y) × (xs ≡ ys)
bits-injective x y xs ys p q e = ground arith

-- The loop of memcmp and the masked byte after it, over what is left of both.
holds : ℕ → ℕ → List ℕ → List ℕ → Bool
holds whole rest xs ys =
    if same_bytes (take whole xs) (take whole ys)
    then (if rest == 0 then true else masked rest (get_or xs whole 0) (get_or ys whole 0))
    else false

holds-cons :
    (whole rest x y : ℕ) (xs ys : List ℕ)
    → holds (suc whole) rest (x ∷ xs) (y ∷ ys) ≡ (if x == y then holds whole rest xs ys else false)
unfolding holds
holds-cons whole rest x y xs ys = elim (Bool-cases (x == y)) [ inl e ↦ rw e | inr e ↦ rw e ]

holds-masked :
    (rest x y : ℕ) (xs ys : List ℕ)
    → holds zero (suc rest) (x ∷ xs) (y ∷ ys) ≡ masked (suc rest) x y
unfolding holds
holds-masked rest x y xs ys = rw (not_zero rest)
  where
    not_zero : (n : ℕ) → (suc n == 0) ≡ false
    not_zero n = ground arith

take_first :
    (rest x : ℕ) (xs : List ℕ)
    → rest < 8
    → take rest (bits_of (x ∷ xs)) ≡ take rest (bits_of (x ∷ []))
take_first zero x xs h = refl
take_first (suc zero) x xs h = refl
take_first (suc (suc zero)) x xs h = refl
take_first (suc (suc (suc zero))) x xs h = refl
take_first (suc (suc (suc (suc zero)))) x xs h = refl
take_first (suc (suc (suc (suc (suc zero))))) x xs h = refl
take_first (suc (suc (suc (suc (suc (suc zero)))))) x xs h = refl
take_first (suc (suc (suc (suc (suc (suc (suc zero))))))) x xs h = refl
take_first (suc (suc (suc (suc (suc (suc (suc (suc n)))))))) x xs h = absurd (omega arith)

-- Eight more bits are one more byte.
abbrev bits_past : ℕ → ℕ
bits_past n = suc (suc (suc (suc (suc (suc (suc (suc n)))))))

bits_more : (whole rest : ℕ) → 8 * suc whole + rest ≡ bits_past (8 * whole + rest)
bits_more whole rest = omega arith

holds_iff :
    (whole rest : ℕ) (xs ys : List ℕ)
    → rest < 8
    → 8 * whole + rest ≤ 8 * length xs
    → 8 * whole + rest ≤ 8 * length ys
    → AreBytes xs
    → AreBytes ys
    → (holds whole rest xs ys ≡ true)
      ↔ (take (8 * whole + rest) (bits_of xs) ≡ take (8 * whole + rest) (bits_of ys))
unfolding holds
holds_iff zero zero xs ys h p q bx by' = (λ e. refl, λ e. refl)
holds_iff zero (suc rest) [] ys h p q bx by' = absurd (omega arith)
holds_iff zero (suc rest) (x ∷ xs) [] h p q bx by' = absurd (omega arith)
holds_iff zero (suc rest) (x ∷ xs) (y ∷ ys) h p q bx by' =
    rw
      (
        add.zero,
        holds-masked rest x y xs ys,
        take_first (suc rest) x xs h,
        take_first (suc rest) y ys h,
      )
      (masked_iff (suc rest) x y h bx.0 by'.0)
holds_iff (suc whole) rest [] ys h p q bx by' = absurd (omega arith)
holds_iff (suc whole) rest (x ∷ xs) [] h p q bx by' = absurd (omega arith)
holds_iff (suc whole) rest (x ∷ xs) (y ∷ ys) h p q bx by' =
    let ih : (holds whole rest xs ys ≡ true)
        ↔ (take (8 * whole + rest) (bits_of xs) ≡ take (8 * whole + rest) (bits_of ys)) =
      holds_iff whole rest xs ys h (omega arith) (omega arith) bx.1 by'.1 in
    rw (bits_more whole rest, holds-cons)
      (
        λ e.
            let both : (x ≡ y) × (holds whole rest xs ys ≡ true) = ground arith in
            ap₂ (λ b bs. bits_of (b ∷ []) ++ bs) both.0 (ih.0 both.1),
        λ e.
            let both : (x ≡ y)
                × (take (8 * whole + rest) (bits_of xs) ≡ take (8 * whole + rest) (bits_of ys)) =
              bits-injective x y _ _ bx.0 by'.0 e in
            ground (arith, both.0, ih.1 both.1),
      )

within-holds :
    (prefix : Prefix) (address : List ℕ) (size : ℕ)
    → within prefix address size ≡ (
        if prefix.length == size
        then holds (prefix.bits / 8) (prefix.bits % 8) prefix.bytes address
        else false)
unfolding within holds
within-holds prefix address size = refl

-- connector_within, on bytes and for no more bits than there are, holds exactly when the
-- lengths agree and the address's first bits are the prefix's, as many as it counts.
pub within-bits :
    (prefix : Prefix) (address : List ℕ) (size : ℕ)
    → AreBytes prefix.bytes
    → AreBytes address
    → prefix.bits ≤ 8 * length prefix.bytes
    → (prefix.length ≡ size → prefix.bits ≤ 8 * length address)
    → (within prefix address size ≡ true) ↔ (
        (prefix.length ≡ size)
        × (take prefix.bits (bits_of prefix.bytes) ≡ take prefix.bits (bits_of address)))
within-bits prefix address size bp ba p q = elim (Bool-cases (prefix.length == size)) [
  | inl same ↦
      rw (within-holds, same)
        (
          λ e. ((==_iff _ _).0 same, (loop ((==_iff _ _).0 same)).0 e),
          λ e. (loop ((==_iff _ _).0 same)).1 e.1,
        )
  | inr other ↦ rw (within-holds, other) (λ e. absurd (cc), λ e. absurd (ground arith))
]
  where
    split : prefix.bits ≡ 8 * (prefix.bits / 8) + prefix.bits % 8
    split = omega arith

    loop :
        prefix.length ≡ size
        → (holds (prefix.bits / 8) (prefix.bits % 8) prefix.bytes address ≡ true)
          ↔ (take prefix.bits (bits_of prefix.bytes) ≡ take prefix.bits (bits_of address))
    loop same =
        subst
          (λ n.
            (holds (prefix.bits / 8) (prefix.bits % 8) prefix.bytes address ≡ true)
            ↔ (take n (bits_of prefix.bytes) ≡ take n (bits_of address)))
          (sym split)
          (holds_iff (prefix.bits / 8) (prefix.bits % 8) prefix.bytes address (omega arith)
            (omega arith) (omega (arith, q same)) bp ba)
