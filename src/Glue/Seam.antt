-- ===== src/Glue/Seam.antt =====
-- src/lk_glue.c: the state behind the seam, and the world around it.
use open_gbflash_firmware.Common.{ℕ, List, Bool}
use open_gbflash_firmware.Proto.State.{FwState}

-- One turn of a waiting loop: what the poll brought into the receive ring, what the clock read, and
-- how many bytes the transmit side could take.
pub record Round : Type 0 where
  pub arrived : List ℕ
  pub now : ℕ
  pub room : ℕ

-- `push` and `pend` are what is left of `g_push` and `g_pend`, and `pend_used` is `g_pend_used`.
-- `incoming` is the receive ring, `sent` what the transmit side has taken, `rounds` the turns to
-- come, `now` the last clock reading. `vsel` is the 5 V select pin, `ready_at` is `g_cart_ready_at`.
pub record Seam : Type 0 where
  pub st : FwState
  pub push : List ℕ
  pub pend : List ℕ
  pub pend_used : ℕ
  pub recv_short : Bool
  pub send_stall : Bool
  pub incoming : List ℕ
  pub sent : List ℕ
  pub rounds : List Round
  pub now : ℕ
  pub ready_at : ℕ
  pub vsel : Bool
