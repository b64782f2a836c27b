-- ===== src/Melsec.antt =====
-- drivers/rx-melsec-mc/src/lib.rs: the MC 3E client. Bytes and words are numbers; the texts of errors
-- are left out.
pub mod Profile
pub mod Codec
pub mod Client
mod Tests
use rx_solutions.Base.{ℕ, List}

pub data Error : Type 0 where
  configuration access_denied faulted io protocol : Error
  plc : ℕ → List ℕ → Error
