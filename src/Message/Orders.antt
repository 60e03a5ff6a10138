-- ===== src/Message/Orders.antt =====
-- The wire value of a QoS level and the minimum that a delivery takes.
use ch_relay.Prelude.{ℕ, zero, suc, some, ◌≡◌, refl, ◌↔◌, arith}
use ch_relay.Message.{QoS, at_most_once, at_least_once, exactly_once, as_u8, from_u8}

-- `from_u8` reads back what `as u8` writes, and nothing else: 3 and above are refused.
pub from_u8_iff : (n : ℕ) (q : QoS) → (from_u8 n ≡ some q) ↔ (n ≡ as_u8 q)
unfolding from_u8
from_u8_iff zero q = ground arith
from_u8_iff (suc zero) q = ground arith
from_u8_iff (suc (suc zero)) q = ground arith
from_u8_iff (suc (suc (suc n))) q = ground arith

pub as_u8-injective : (p q : QoS) → as_u8 p ≡ as_u8 q → p ≡ q
as_u8-injective at_most_once at_most_once h = refl
as_u8-injective at_least_once at_least_once h = refl
as_u8-injective exactly_once exactly_once h = refl
as_u8-injective p q h = ground arith
