-- ===== src/Gate/Store/Laws.antt =====
-- What the transactions of runtime/rx-host/src/journal.rs leave in the store.
use rx_solutions.Base.{
  ℕ, ◌+◌, ◌≡◌, Option, none, some, arith, ◌==◌, if◌then◌else◌, ok, lookup, insert, lookup-insert,
}
use rx_solutions.Domain.Types.{Uuid, Counter}
use rx_solutions.Gate.Model.{DeliveryRecord}
use rx_solutions.Gate.Store.{Row, Table, Store, or_zero, put, next_sequence, record_delivery}

-- The document in a row.
abbrev pub document_of : {V : Type 0} → Option (Row V) → Option V
document_of none = none
document_of (some row) = some row.document

abbrev pub document_at : {V : Type 0} → ℕ → Table V → Option V
document_at k t = document_of (lookup k t)

put-row :
    {V : Type 0} (k : ℕ) (expected : Option Counter) (v : V) (t : Table V) {t' : Table V}
    → put k expected v t ≡ ok t'
    → t' ≡ insert k (record { revision = or_zero expected + 1; document = v }) t
unfolding put
put-row k expected v t h = ground arith

pub put-document_at :
    {V : Type 0} (j k : ℕ) (expected : Option Counter) (v : V) (t : Table V) {t' : Table V}
    → put k expected v t ≡ ok t'
    → document_at j t' ≡ (if j == k then some v else document_at j t)
put-document_at {V} j k expected v t {t'} h =
    let row : Row V = record { revision = or_zero expected + 1; document = v } in
    ground (arith, put-row k expected v t h, lookup-insert j k row t)

-- A sequence number touches the meta row alone.
pub next_sequence-frame :
    (s : Store) → (next_sequence s).1 ≡ record s { host_meta = (next_sequence s).1.host_meta }
unfolding next_sequence
next_sequence-frame s = ground arith

-- A record that was written is the one found, with its place in the journal.
pub record_delivery-document_at :
    (j : Uuid) (r : DeliveryRecord) (expected : Option Counter) (s : Store) {r' : DeliveryRecord}
    → (record_delivery r expected s).0 ≡ ok r'
    → (document_at j (record_delivery r expected s).1.deliveries
        ≡ (if j == r.operation then some r' else document_at j s.deliveries))
      × (r' ≡ record r { journal_seq = r'.journal_seq })
unfolding record_delivery
record_delivery-document_at j r expected s {r'} h = ground (
  arith,
  next_sequence-frame s,
  put-document_at j r.operation expected r' (next_sequence s).1.deliveries
      {t' = (record_delivery r expected s).1.deliveries},
)

pub record_delivery-frame :
    (r : DeliveryRecord) (expected : Option Counter) (s : Store)
    → let s' = (record_delivery r expected s).1 in
      s' ≡ record s {
        host_meta = s'.host_meta;
        deliveries = s'.deliveries;
        delivery_history = s'.delivery_history;
      }
unfolding record_delivery
record_delivery-frame r expected s = ground (arith, next_sequence-frame s)
