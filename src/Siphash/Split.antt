-- ===== src/Siphash/Split.antt =====
-- The key words for the GPU hold the keys.
use rust_miner.Base.{ℕ, ◌+◌, ◌*◌, ◌^◌, ◌<◌, ◌≡◌, List, [], ◌∷◌, Option, none, some, arith}
use rust_miner.Siphash.{SipKeys, split, gpu_sip_keys}
use rust_miner.Siphash.Bounds.{AreKeys}

-- What a kernel makes of the eight words: four pairs of a low and a high half.
abbrev pub join_words : List ℕ → Option SipKeys
join_words (a0 ∷ a1 ∷ b0 ∷ b1 ∷ c0 ∷ c1 ∷ d0 ∷ d1 ∷ []) = some (record {
  k0 = a0 + a1 * 2 ^ 32;
  k1 = b0 + b1 * 2 ^ 32;
  k2 = c0 + c1 * 2 ^ 32;
  k3 = d0 + d1 * 2 ^ 32;
})
join_words _ = none

split-join : (value : ℕ) → value < 2 ^ 64 → (split value).0 + (split value).1 * 2 ^ 32 ≡ value
unfolding split
split-join value h = omega arith

-- For keys that are `u64`, the eight words give the four keys back.
pub join_words-gpu_sip_keys :
    (keys : SipKeys) → AreKeys keys → join_words (gpu_sip_keys keys).words ≡ some keys
unfolding gpu_sip_keys
join_words-gpu_sip_keys keys h = ground (
  arith,
  split-join keys.k0 h.in0,
  split-join keys.k1 h.in1,
  split-join keys.k2 h.in2,
  split-join keys.k3 h.in3,
)
