-- ===== src/Gate/Claims/Tests.antt =====
-- A claim of `claim_rpc` of runtime/rx-host/src/gate/mod.rs, and its law at it.
use rx_solutions.Base.{ℕ, ◌≡◌, refl, Option, some, [], ◌∷◌, ok, err, arith, lookup, insert}
use rx_solutions.Domain.Types.{increment}
use rx_solutions.Gate.Model.{key_conflict}
use rx_solutions.Gate.Store.{Table, put, next_revision}
use rx_solutions.Gate.Claims.{Claims, claim_key, claim_tx, claim_tx-once}

abbrev claimed : Claims
claimed = record {
  keys = (7, record { revision = 1; document = 40 }) ∷ [];
  effects = (8, record { revision = 1; document = 40 }) ∷ [];
}

claims_both : claim_tx 7 (some 8) 40 (record { keys = []; effects = [] }) ≡ ok claimed
unfolding claim_tx claim_key put next_revision increment lookup insert
claims_both = refl

claim_tx-once_example :
    (claim_tx 7 (some 8) 40 claimed ≡ ok claimed)
    × ((effect : Option ℕ) → claim_tx 7 effect 41 claimed ≡ err key_conflict)
    × ((key' : ℕ) (ks : Table ℕ)
        → claim_key key' 41 claimed.keys ≡ ok ks
        → claim_tx key' (some 8) 41 claimed ≡ err key_conflict)
claim_tx-once_example =
    claim_tx-once 7 8 40 41 (record { keys = []; effects = [] }) claims_both (omega arith)
