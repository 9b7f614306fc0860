-- ===== src/Verify/Difficulty/Packed.antt =====
-- The packed bytes that are hashed hold the proof, `edge_bits` bits for each nonce.
use rust_miner.Base.{ℕ, zero, suc, ◌+◌, ◌*◌, ◌/◌, ◌%◌, ◌^◌, ◌≤◌, ◌<◌, ◌≡◌, ◌≢◌, ◌⊎◌, inl, inr}
use rust_miner.Base.{refl, subst, ◌∙◌, arith, bit_and, not, ◌==◌, Bool-cases, if◌then◌else◌}
use rust_miner.Base.{List, [], ◌∷◌, length, get_or, replicate, length-set, length-replicate}
use rust_miner.Base.{get_or-replicate, get_or-set_self, get_or-set_ne}
use rust_miner.Base.Bits.{bit, bit-zero, bit-bit_or, bit-pow_self, bit-pow_ne, bit-lt, bit-eq_shift}
use rust_miner.Verify.{Proof}
use rust_miner.Verify.Difficulty.{set_packed, pack_bits, pack_nonces, packed_proof}

-- Bit `p` of a sequence of bytes.
abbrev pub packed_bit : List ℕ → ℕ → ℕ
packed_bit packed p = bit (get_or packed (p / 8) 0) (p % 8)

length-set_packed : (packed : List ℕ) (q : ℕ) → length (set_packed packed q) ≡ length packed
unfolding set_packed
length-set_packed packed q = length-set packed (q / 8) _

set_packed_self :
    (packed : List ℕ) (q : ℕ) → q / 8 < length packed → packed_bit (set_packed packed q) q ≡ 1
unfolding set_packed
set_packed_self packed q h = rw (get_or-set_self packed (q / 8) _ 0 h) (
    omega (
      arith,
      bit-bit_or (get_or packed (q / 8) 0) (2 ^ (q % 8)) (q % 8),
      bit-pow_self (q % 8),
      bit-lt (get_or packed (q / 8) 0) (q % 8),
    ))

set_packed_ne :
    (packed : List ℕ) (p q : ℕ)
    → q / 8 < length packed
    → p ≢ q
    → packed_bit (set_packed packed q) p ≡ packed_bit packed p
unfolding set_packed
set_packed_ne packed p q h ne = elim (Bool-cases (q / 8 == p / 8)) [
  | inl e ↦
      let same : q / 8 ≡ p / 8 = ground arith in
      let byte = get_or packed (q / 8) 0 in
      let low : q % 8 ≢ p % 8 = λ l. ne (omega arith) in
      rw (← same) (
        rw (get_or-set_self packed (q / 8) _ 0 h)
          (omega (arith, bit-bit_or byte (2 ^ (q % 8)) (p % 8), bit-pow_ne (q % 8) (p % 8) low)))
  | inr e ↦
      let other : q / 8 ≢ p / 8 = ground arith in
      rw (get_or-set_ne packed (q / 8) (p / 8) _ 0 other)
]

length-pack_bits :
    (left b start nonce : ℕ) (packed : List ℕ)
    → length (pack_bits left b start nonce packed) ≡ length packed
unfolding pack_bits
length-pack_bits zero b start nonce packed = refl
length-pack_bits (suc left) b start nonce packed =
    length-pack_bits left (suc b) start nonce _
    ∙ ground (arith, length-set_packed packed (start + b))

-- One round of the inner loop writes bit `b` of the nonce at a clear position.
abbrev put_bit : ℕ → ℕ → ℕ → List ℕ → List ℕ
put_bit b start nonce packed =
    if not (bit_and (nonce / 2 ^ b) 1 == 0) then set_packed packed (start + b) else packed

put_bit_self :
    (b start nonce : ℕ) (packed : List ℕ)
    → (start + b) / 8 < length packed
    → packed_bit packed (start + b) ≡ 0
    → packed_bit (put_bit b start nonce packed) (start + b) ≡ bit nonce b
put_bit_self b start nonce packed h clear =
    ground (arith, set_packed_self packed (start + b), bit-eq_shift nonce b, bit-lt nonce b)

put_bit_ne :
    (b start nonce p : ℕ) (packed : List ℕ)
    → (start + b) / 8 < length packed
    → p ≢ start + b
    → packed_bit (put_bit b start nonce packed) p ≡ packed_bit packed p
put_bit_ne b start nonce p packed h ne = ground (arith, set_packed_ne packed p (start + b))

pack_bits_outside :
    (left b start nonce p : ℕ) (packed : List ℕ)
    → start + b + left ≤ 8 * length packed
    → (p < start + b) ⊎ (start + b + left ≤ p)
    → packed_bit (pack_bits left b start nonce packed) p ≡ packed_bit packed p
unfolding pack_bits
pack_bits_outside zero b start nonce p packed room out = refl
pack_bits_outside (suc left) b start nonce p packed room out =
    let size : length (put_bit b start nonce packed) ≡ length packed =
      ground (arith, length-set_packed packed (start + b)) in
    let out' : (p < start + suc b) ⊎ (start + suc b + left ≤ p) = omega arith in
    pack_bits_outside left (suc b) start nonce p (put_bit b start nonce packed) (omega arith) out'
    ∙ put_bit_ne b start nonce p packed (omega arith) (omega arith)

pack_bits_inside :
    (left b start nonce k : ℕ) (packed : List ℕ)
    → start + b + left ≤ 8 * length packed
    → ((p : ℕ) → start + b ≤ p → packed_bit packed p ≡ 0)
    → b ≤ k
    → k < b + left
    → packed_bit (pack_bits left b start nonce packed) (start + k) ≡ bit nonce k
unfolding pack_bits
pack_bits_inside zero b start nonce k packed room clear l u = absurd (omega arith)
pack_bits_inside (suc left) b start nonce k packed room clear l u =
    let next = put_bit b start nonce packed in
    let size : length next ≡ length packed = ground (arith, length-set_packed packed (start + b)) in
    elim (Bool-cases (k == b)) [
      | inl e ↦
          let same : k ≡ b = ground arith in
          rw same (
            pack_bits_outside left (suc b) start nonce (start + b) next (omega arith)
              (inl (omega arith))
            ∙ put_bit_self b start nonce packed (omega arith) (clear (start + b) (omega arith)))
      | inr e ↦
          let above : k ≢ b = ground arith in
          pack_bits_inside left (suc b) start nonce k next (omega arith)
            (λ p q.
              put_bit_ne b start nonce p packed (omega arith) (omega arith) ∙ clear p (omega arith))
            (omega arith) (omega arith)
    ]

pack_nonces_before :
    (edge_bits i p : ℕ) (nonces packed : List ℕ)
    → (i + length nonces) * edge_bits ≤ 8 * length packed
    → p < i * edge_bits
    → packed_bit (pack_nonces edge_bits i nonces packed) p ≡ packed_bit packed p
unfolding pack_nonces
pack_nonces_before edge_bits i p [] packed room h = refl
pack_nonces_before edge_bits i p (n ∷ ns) packed room h =
    let next = pack_bits edge_bits 0 (i * edge_bits) n packed in
    let size = length-pack_bits edge_bits 0 (i * edge_bits) n packed in
    let fits : i * edge_bits + 0 + edge_bits ≤ 8 * length packed = (omega arith) in
    pack_nonces_before edge_bits (suc i) p ns next (omega arith) (omega arith)
    ∙ pack_bits_outside edge_bits 0 (i * edge_bits) n p packed fits (inl (omega arith))

pack_nonces_bits :
    (edge_bits i k b : ℕ) (nonces packed : List ℕ)
    → (i + length nonces) * edge_bits ≤ 8 * length packed
    → ((p : ℕ) → i * edge_bits ≤ p → packed_bit packed p ≡ 0)
    → k < length nonces
    → b < edge_bits
    → packed_bit (pack_nonces edge_bits i nonces packed) ((i + k) * edge_bits + b)
      ≡ bit (get_or nonces k 0) b
unfolding pack_nonces
pack_nonces_bits edge_bits i k b [] packed room clear l u = absurd (omega arith)
pack_nonces_bits edge_bits i zero b (n ∷ ns) packed room clear l u =
    let next = pack_bits edge_bits 0 (i * edge_bits) n packed in
    let size = length-pack_bits edge_bits 0 (i * edge_bits) n packed in
    let fits : i * edge_bits + 0 + edge_bits ≤ 8 * length packed = (omega arith) in
    let q : (i + 0) * edge_bits + b ≡ i * edge_bits + b = (omega arith) in
    rw q (
      pack_nonces_before edge_bits (suc i) (i * edge_bits + b) ns next (omega arith) (omega arith)
      ∙ pack_bits_inside edge_bits 0 (i * edge_bits) n b packed fits (λ p h. clear p (omega arith))
          (omega arith) (omega arith))
pack_nonces_bits edge_bits i (suc k) b (n ∷ ns) packed room clear l u =
    let next = pack_bits edge_bits 0 (i * edge_bits) n packed in
    let size = length-pack_bits edge_bits 0 (i * edge_bits) n packed in
    let fits : i * edge_bits + 0 + edge_bits ≤ 8 * length packed = (omega arith) in
    let q : suc i + k ≡ i + suc k = omega arith in
    rw (← q) (
      pack_nonces_bits edge_bits (suc i) k b ns next (omega arith)
        (λ p h.
          pack_bits_outside edge_bits 0 (i * edge_bits) n p packed fits (omega arith)
          ∙ clear p (omega arith))
        (omega arith) u)

packed_bit-replicate : (n p : ℕ) → packed_bit (replicate n 0) p ≡ 0
packed_bit-replicate n p = rw (get_or-replicate {A = ℕ} n (p / 8) 0) (bit-zero (p % 8))

-- For every nonce `i` of the proof and bit `b < edge_bits`, bit `i * edge_bits + b` of the hashed
-- bytes, counted from the lowest bit of each byte, is bit `b` of the nonce.
pub packed_proof_bits :
    (proof : Proof) (edge_bits i b : ℕ)
    → i < length proof.nonces
    → b < edge_bits
    → packed_bit (packed_proof proof edge_bits) (i * edge_bits + b)
      ≡ bit (get_or proof.nonces i 0) b
unfolding packed_proof
packed_proof_bits proof edge_bits i b l u =
    let bytes = (length proof.nonces * edge_bits + 7) / 8 in
    let start : List ℕ = replicate bytes 0 in
    let size : length start ≡ bytes = length-replicate bytes 0 in
    let q : 0 + i ≡ i = omega arith in
    let all : 0 + length proof.nonces ≡ length proof.nonces = omega arith in
    let room : (0 + length proof.nonces) * edge_bits ≤ 8 * length start =
      rw (size, all) (omega arith) in
    subst
      (λ k.
        packed_bit (pack_nonces edge_bits 0 proof.nonces start) (k * edge_bits + b)
        ≡ bit (get_or proof.nonces i 0) b)
      q
      (pack_nonces_bits edge_bits 0 i b proof.nonces start room
        (λ p h. packed_bit-replicate bytes p) l u)
