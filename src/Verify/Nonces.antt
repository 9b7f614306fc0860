-- ===== src/Verify/Nonces.antt =====
-- The range and order checks of src/verify.rs.
use rust_miner.Base.{ℕ, ◌≡◌, ◌↔◌, Option, none, some, List, [], ◌∷◌, arith, ok, refl}
use rust_miner.Verify.{check_nonces}
use rust_miner.Verify.Spec.{AscendingFrom}

-- The loop passes exactly the strictly ascending nonces below the limit.
pub check_nonces_iff :
    (limit : ℕ) (previous : Option ℕ) (nonces : List ℕ)
    → (check_nonces limit previous nonces ≡ ok tt) ↔ AscendingFrom limit previous nonces
unfolding check_nonces
check_nonces_iff limit previous [] = (λ _. tt, λ _. refl)
check_nonces_iff limit none (n ∷ ns) =
    let ih = check_nonces_iff limit (some n) ns in
    (λ h. ground (arith, ih.0), λ h. ground (arith, ih.1))
check_nonces_iff limit (some p) (n ∷ ns) =
    let ih = check_nonces_iff limit (some n) ns in
    (λ h. ground (arith, ih.0), λ h. ground (arith, ih.1))
