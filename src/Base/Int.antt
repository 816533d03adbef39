-- ===== src/Base/Int.antt =====
-- Signed integers: a duration may be negative.
use docker_network_dhcp.Base.{ℕ, zero, suc, Bool, true, false}

-- `negsuc n` is -(n + 1).
pub data ℤ : Type 0 where
  pos : ℕ → ℤ
  negsuc : ℕ → ℤ

abbrev pub is_zero : ℤ → Bool
is_zero (pos zero) = true
is_zero (pos (suc n)) = false
is_zero (negsuc n) = false
