-- ===== src/Connector/Request/Wire.antt =====
-- The wire form of a request: connector_decode reads back what a client writes.
use cosmic.Prelude.{
  ℕ, zero, suc, ◌/◌, ◌%◌, ◌^◌, ◌<◌, ◌≡◌, refl, List, [], ◌∷◌, arith, ap, length, take,
}
use cosmic.Connector.Request.{Request, decode, word_at, request_bytes}

abbrev word_bytes : ℕ → List ℕ → List ℕ
word_bytes w rest = (w / 2 ^ 24) ∷ (w / 2 ^ 16 % 256) ∷ (w / 2 ^ 8 % 256) ∷ (w % 256) ∷ rest

-- What a client writes: five big-endian words and the address.
abbrev pub encode : Request → List ℕ
encode r =
    word_bytes r.tag
      (word_bytes r.index (word_bytes r.port (word_bytes r.wait (word_bytes r.family r.address))))

-- Requests whose words are 32 bits wide and whose address has 16 bytes.
pub record IsRequest (r : Request) : Type 0 where
  pub tag : r.tag < 2 ^ 32
  pub index : r.index < 2 ^ 32
  pub port : r.port < 2 ^ 32
  pub wait : r.wait < 2 ^ 32
  pub family : r.family < 2 ^ 32
  pub address : length r.address ≡ 16

pub take_all {ℓ} : {A : Type ℓ} (n : ℕ) (xs : List A) → length xs ≡ n → take n xs ≡ xs
take_all zero [] h = refl
take_all zero (x ∷ xs) h = absurd (omega arith)
take_all (suc n) [] h = refl
take_all (suc n) (x ∷ xs) h = ap (λ l. x ∷ l) (take_all n xs (omega arith))

-- A request of 32-bit words and a 16-byte address, written as five big-endian words and the
-- address, decodes to itself and is as long as the server waits for.
pub decode-encode :
    (r : Request) → IsRequest r → (decode (encode r) ≡ r) × (length (encode r) ≡ request_bytes)
unfolding decode word_at
decode-encode r v = (ground (arith, take_all 16 r.address v.address), omega (arith, v.address))
