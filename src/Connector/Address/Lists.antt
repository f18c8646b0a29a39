-- ===== src/Connector/Address/Lists.antt =====
-- connector_prefixes and connector_public_read of core/connector.c: the lists of a public connector,
-- read from the caller's texts.
use cosmic.Prelude.{
  ℕ, zero, suc, ◌-◌, ◌*◌, ◌≤◌, ◌≡◌, ◌↔◌, refl, ap, Bool, true, false, ◌&&◌, ◌||◌, Option, none,
  some, List, [], ◌∷◌, ◌++◌, leb, ltb, arith, if◌then◌else◌, Bool-cases, Option-cases, inl, inr,
  length, of-some, take, drop, replicate, length-append,
}
use mathlib.Core.Path.{subst}
use cosmic.Prelude.Results.{Result, ok, err, ◌>>=◌, >>=-eq-ok}
use cosmic.Connector.Address.{
  Prefix, Public, Resolver, AreBytes, address, prefix, contains, with_bits, reduced, split_slash,
  prefix_bits, numeric_host, same_bytes, mapped, public_allowed,
}
use cosmic.Connector.Address.Texts.{
  Denotes, DenotesCidr, Said, SaidOwn, nil, cons, prefix-Denotes, prefix-DenotesCidr,
}
use cosmic.Connector.Address.Allowed.{IsPrefix, ArePrefixes, IsAllowed, public_allowed-IsAllowed}

abbrev pub deny_max : ℕ
deny_max = 128

abbrev pub own_max : ℕ
own_max = 256

pub data Refused : Type 0 where
  too_many : Refused
  not_address : Refused
  bad_entry : Refused

drop-AreBytes : (n : ℕ) (bs : List ℕ) → AreBytes bs → AreBytes (drop n bs)
drop-AreBytes zero bs h = h
drop-AreBytes (suc n) [] h = tt
drop-AreBytes (suc n) (b ∷ bs) h = drop-AreBytes n bs h.1

append-AreBytes : (xs ys : List ℕ) → AreBytes xs → AreBytes ys → AreBytes (xs ++ ys)
append-AreBytes [] ys h k = k
append-AreBytes (x ∷ xs) ys h k = (h.0, append-AreBytes xs ys h.1 k)

length-drop : (n : ℕ) (bs : List ℕ) → length (drop n bs) ≡ length bs - n
length-drop zero bs = omega arith
length-drop (suc n) [] = omega arith
length-drop (suc n) (b ∷ bs) = omega (arith, length-drop n bs)

abbrev pad : List ℕ
pad = replicate 12 0

pad-AreBytes : AreBytes pad
pad-AreBytes = ground arith

-- The prefixes that stand for one address.
ipv4-IsPrefix :
    (bytes : List ℕ)
    → length bytes ≡ 4
    → AreBytes bytes
    → IsPrefix (record { bytes = bytes ++ pad; length = 4; bits = 32 })
ipv4-IsPrefix bytes size b = record {
  sixteen = omega (arith, length-append bytes pad);
  bytes = append-AreBytes bytes pad b pad-AreBytes;
  sized = inl refl;
  within_size = omega arith;
}

reduced-IsPrefix :
    (reduce : Bool) (bytes : List ℕ)
    → length bytes ≡ 16
    → AreBytes bytes
    → IsPrefix (reduced reduce bytes)
unfolding reduced
reduced-IsPrefix reduce bytes size b =
    elim (Bool-cases (reduce && same_bytes (take 12 bytes) mapped)) [
      | inl e ↦
          rw (reduced, e)
            (ipv4-IsPrefix (drop 12 bytes) (omega (arith, length-drop 12 bytes))
              (drop-AreBytes 12 bytes b))
      | inr e ↦
          rw (reduced, e)
            (record { sixteen = size; bytes = b; sized = inr refl; within_size = omega arith })
    ]

module _ (r : Resolver) where
  -- The loop of connector_prefixes.
  pub prefixes_from : Bool → List (List ℕ) → Result Refused (List Prefix)
  prefixes_from cidr [] = ok []
  prefixes_from cidr (text ∷ rest) =
      let more = prefixes_from cidr rest in
      if leb 64 (length text) || contains 0 text
      then err not_address
      else elim (prefix r text cidr) [
        | none ↦ err bad_entry
        | some found ↦ more >>= λ prefixes. ok (found ∷ prefixes)
      ]

  -- connector_prefixes
  pub prefixes : Bool → ℕ → List (List ℕ) → Result Refused (List Prefix)
  unfolding prefixes_from
  prefixes cidr limit texts =
      if ltb limit (length texts) then err too_many else prefixes_from cidr texts

  -- The list of a connector's own addresses, which may be missing.
  own_list : Option (List (List ℕ)) → Result Refused (List Prefix)
  unfolding prefixes
  own_list none = ok []
  own_list (some texts) = prefixes false own_max texts

  -- connector_public_read
  unfoldable pub public_read : List (List ℕ) → Option (List (List ℕ)) → Result Refused Public
  unfolding prefixes own_list
  public_read deny own = do
    denied ← prefixes true deny_max deny
    owned ← own_list own
    ok (record { deny = denied; own = owned; enabled = true })

  address-IsPrefix :
      (text : List ℕ) (reduce : Bool) (found : Prefix)
      → address r text reduce ≡ some found
      → IsPrefix found
  unfolding address
  address-IsPrefix text reduce found e = elim (Bool-cases (numeric_host text)) [
    | inr bad ↦ let no : none ≡ some found = rw (address, bad) at e in absurd cc
    | inl good ↦ elim (Bool-cases (contains b':' text)) [
      | inl six ↦ elim (Option-cases (r.pton6 text)) [
        | inl bad ↦ let no : none ≡ some found = rw (address, good, six, bad) at e in absurd cc
        | inr (bytes, p) ↦
            let same : some (reduced reduce bytes) ≡ some found = rw (address, good, six, p) at e in
            subst IsPrefix (of-some same) (
              reduced-IsPrefix reduce bytes (r.pton6-length text bytes p)
                (r.pton6-AreBytes text bytes p))
      ]
      | inr four ↦ elim (Option-cases (r.pton4 text)) [
        | inl bad ↦ let no : none ≡ some found = rw (address, good, four, bad) at e in absurd cc
        | inr (bytes, p) ↦
            let same : some (record { bytes = bytes ++ pad; length = 4; bits = 32 }) ≡ some found =
              rw (address, good, four, p) at e in
            subst IsPrefix (of-some same)
              (ipv4-IsPrefix bytes (r.pton4-length text bytes p) (r.pton4-AreBytes text bytes p))
      ]
    ]
  ]

  with_bits-IsPrefix :
      (bits : ℕ) (found out : Prefix)
      → IsPrefix found
      → with_bits bits found ≡ some out
      → IsPrefix out
  unfolding with_bits
  with_bits-IsPrefix bits found out v e = elim (Bool-cases (ltb (found.length * 8) bits)) [
    | inl over ↦ let no : none ≡ some out = rw (with_bits, over) at e in absurd cc
    | inr fits ↦
        let same : some (record found { bits = bits }) ≡ some out = rw (with_bits, fits) at e in
        subst IsPrefix (of-some same) (record {
          sixteen = v.sixteen;
          bytes = v.bytes;
          sized = v.sized;
          within_size = ground arith;
        })
  ]

  prefix-IsPrefix :
      (text : List ℕ) (cidr : Bool) (found : Prefix)
      → prefix r text cidr ≡ some found
      → IsPrefix found
  unfolding prefix
  prefix-IsPrefix text false found e = address-IsPrefix text true found e
  prefix-IsPrefix text true found e = elim (Option-cases (split_slash text)) [
    | inl bad ↦ let no : none ≡ some found = rw (prefix, bad) at e in absurd cc
    | inr ((before, digits), cut) ↦ elim (Option-cases (prefix_bits digits)) [
      | inl bad ↦ let no : none ≡ some found = rw (prefix, cut, bad) at e in absurd cc
      | inr (bits, read) ↦ elim (Option-cases (address r before false)) [
        | inl bad ↦ let no : none ≡ some found = rw (prefix, cut, read, bad) at e in absurd cc
        | inr (whole, at) ↦
            with_bits-IsPrefix bits whole found (address-IsPrefix before false whole at)
              (rw (prefix, cut, read, at) at e)
      ]
    ]
  ]

  -- What the text of an entry says, of either kind.
  abbrev Says : Bool → List ℕ → Prefix → Type 0
  Says true = DenotesCidr r
  Says false = Denotes r true

  prefix-Says :
      (cidr : Bool) (text : List ℕ) (found : Prefix)
      → prefix r text cidr ≡ some found
      → Says cidr text found
  prefix-Says true text found e = prefix-DenotesCidr r text found e
  prefix-Says false text found e = prefix-Denotes r text found e

  prefixes_from-ArePrefixes :
      (cidr : Bool) (texts : List (List ℕ)) (found : List Prefix)
      → prefixes_from cidr texts ≡ ok found
      → ArePrefixes found × Said (Says cidr) texts found × (length found ≡ length texts)
  unfolding prefixes_from
  prefixes_from-ArePrefixes cidr [] found e =
      let none_left : [] ≡ found = ground arith in
      subst (λ ps. ArePrefixes ps × Said (Says cidr) [] ps × (length ps ≡ 0)) none_left
        (tt, nil, refl)
  prefixes_from-ArePrefixes cidr (text ∷ rest) found e =
      elim (Bool-cases (leb 64 (length text) || contains 0 text)) [
        | inl bad ↦ let no : err not_address ≡ ok found = rw (prefixes_from, bad) at e in absurd cc
        | inr good ↦ elim (Option-cases (prefix r text cidr)) [
          | inl bad ↦
              let no : err bad_entry ≡ ok found = rw (prefixes_from, good, bad) at e in absurd cc
          | inr (p, read) ↦
              let e₁ : (prefixes_from cidr rest >>= λ ps. ok (p ∷ ps)) ≡ ok found =
                rw (prefixes_from, good, read) at e in
              let (ps, more, e₂) = >>=-eq-ok (prefixes_from cidr rest) (λ ps. ok (p ∷ ps)) e₁ in
              let (all, said, counted) = prefixes_from-ArePrefixes cidr rest ps more in
              let whole : p ∷ ps ≡ found = ground arith in
              subst
                (λ l.
                  ArePrefixes l × Said (Says cidr) (text ∷ rest) l × (length l ≡ suc (length rest)))
                whole
                (
                  (prefix-IsPrefix text cidr p read, all),
                  cons (prefix-Says cidr text p read) said,
                  ap suc counted,
                )
        ]
      ]

  prefixes-ArePrefixes :
      (cidr : Bool) (limit : ℕ) (texts : List (List ℕ)) (found : List Prefix)
      → prefixes cidr limit texts ≡ ok found
      → ArePrefixes found × Said (Says cidr) texts found × (length found ≤ limit)
  unfolding prefixes
  prefixes-ArePrefixes cidr limit texts found e = elim (Bool-cases (ltb limit (length texts))) [
    | inl over ↦ let no : err too_many ≡ ok found = rw (prefixes, over) at e in absurd cc
    | inr fits ↦
        let (all, said, counted) =
          prefixes_from-ArePrefixes cidr texts found (rw (prefixes, fits) at e) in
        (all, said, ground arith)
  ]

  own_list-ArePrefixes :
      (own : Option (List (List ℕ))) (found : List Prefix)
      → own_list own ≡ ok found
      → ArePrefixes found × SaidOwn r own found × (length found ≤ own_max)
  unfolding own_list
  own_list-ArePrefixes none found e =
      let none_left : [] ≡ found = ground arith in
      subst (λ ps. ArePrefixes ps × (ps ≡ []) × (length ps ≤ own_max)) none_left
        (tt, refl, omega arith)
  own_list-ArePrefixes (some texts) found e = prefixes-ArePrefixes false own_max texts found e

  -- The lists that connector_public_read returns are enabled, fit their arrays, and hold for
  -- each denied text, in its place, the prefix that the text says (an address as the resolver
  -- reads it, cut to the number of bits written in decimal after the slash), and for each text
  -- of the connector's own, if there are any, the whole address that it says, an IPv6 address
  -- that stands for an IPv4 one as the latter; and with these lists an address of bytes is
  -- allowed exactly when no denied prefix covers it, no own address does and, if it has 16
  -- bytes, its first three bits are 001.
  pub public_read-IsAllowed :
      (deny : List (List ℕ)) (own : Option (List (List ℕ))) (lists : Public) (address : List ℕ)
      → AreBytes address
      → public_read deny own ≡ ok lists
      → Said (DenotesCidr r) deny lists.deny
        × SaidOwn r own lists.own
        × (lists.enabled ≡ true)
        × (length lists.deny ≤ deny_max)
        × (length lists.own ≤ own_max)
        × ((public_allowed lists address (length address) ≡ true) ↔ IsAllowed lists address)
  unfolding public_read
  public_read-IsAllowed deny own lists address b e =
      let (denied, first, e₁) = >>=-eq-ok (prefixes true deny_max deny) _ e in
      let (owned, second, e₂) = >>=-eq-ok (own_list own) _ e₁ in
      let (all, said, few) = prefixes-ArePrefixes true deny_max deny denied first in
      let (mine, said', few') = own_list-ArePrefixes own owned second in
      let made : record { deny = denied; own = owned; enabled = true } ≡ lists = ground arith in
      subst
        (λ l.
          Said (DenotesCidr r) deny l.deny
          × SaidOwn r own l.own
          × (l.enabled ≡ true)
          × (length l.deny ≤ deny_max)
          × (length l.own ≤ own_max)
          × ((public_allowed l address (length address) ≡ true) ↔ IsAllowed l address))
        made (said, said', refl, few, few', public_allowed-IsAllowed _ address all mine b)
