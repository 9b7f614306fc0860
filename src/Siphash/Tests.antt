-- ===== src/Siphash/Tests.antt =====
-- Tests of src/siphash.rs.
use rust_miner.Base.{◌+◌, ◌-◌, ◌*◌, ◌%◌, ◌^◌, ◌<◌, ◌≡◌, arith}
use rust_miner.Siphash.{SipKeys, SipState, sip_round, siphash24, endpoint}
use rust_miner.Siphash.Bounds.{AreKeys, IsU64, endpoint-eq-mod, endpoint-lt}
use rust_miner.Siphash.Round.{undo_round, undo_round-sip_round}

abbrev keys : SipKeys
keys = record { k0 = 1; k1 = 2; k2 = 3; k3 = 2 ^ 64 - 1 }

keys-AreKeys : AreKeys keys
keys-AreKeys = record { in0 = omega arith; in1 = omega arith; in2 = omega arith; in3 = omega arith }

abbrev state : SipState
state = record { v0 = 2 ^ 64 - 1; v1 = 2; v2 = 2 ^ 63; v3 = 5 }

state-IsU64 : IsU64 state
state-IsU64 = record { in0 = omega arith; in1 = omega arith; in2 = omega arith; in3 = omega arith }

endpoint-eq-mod_example : endpoint keys 32 7 1 ≡ siphash24 keys (7 * 2 % 2 ^ 64 + 1 % 2) % 2 ^ 32
endpoint-eq-mod_example = endpoint-eq-mod keys 32 7 1 (omega arith)

endpoint-lt_example : endpoint keys 20 7 1 < 2 ^ 20
endpoint-lt_example = endpoint-lt keys 20 7 1 (omega arith)

undo_round-sip_round_example : undo_round (sip_round state) ≡ state
undo_round-sip_round_example = undo_round-sip_round state state-IsU64
