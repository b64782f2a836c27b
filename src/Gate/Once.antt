-- ===== src/Gate/Once.antt =====
-- What one operation may have behind it: at most one native submission, entered in the journal
-- before it, and none at all once it is voided.
pub mod Prepare
pub mod Dispatch
pub mod Receipts
pub mod Frame
pub mod Again
pub mod Calls
mod Tests
use rx_solutions.Base.{
  ℕ, suc, ◌+◌, ◌≤◌, ◌<◌, ◌≡◌, refl, Bool, true, false, not, Option, none, some, List, [], ◌∷◌,
  arith, ◌==◌, if◌then◌else◌, Result, ok, err, lookup, ◌⊎◌, inl, inr, Result-cases,
}
use rx_solutions.Domain.Types.{Uuid, Digest, Counter}
use rx_solutions.Gate.Model.{
  Caller, DeliveryRecord, ReceiptState, prepared, voided_before_send, VoidRecord, Request,
  NativeCapture, CellTarget, HostError, store, StoreError, EvidenceRecord,
}
use rx_solutions.Gate.Store.{Row, Store, Table, Tx, record_delivery, put}
use rx_solutions.Gate.Store.Laws.{
  document_of, document_at, record_delivery-document_at, record_delivery-frame, put-document_at,
  next_sequence-frame,
}
use rx_solutions.Gate.Core.{Core, Hashes, transact}
use rx_solutions.Gate.Receipts.{is_prepared, capture_tx, persist_capture, add_evidence}

abbrev pub count : Uuid → List Uuid → ℕ
count x [] = 0
count x (y ∷ ys) = (if x == y then 1 else 0) + count x ys

-- Past preparation: entered, rejected, accepted or captured.
abbrev pub is_past : Option DeliveryRecord → Bool
is_past none = false
is_past (some d) = elim d.state [ prepared ↦ false | voided_before_send ↦ false | _ ↦ true ]

abbrev pub is_unsent : Option DeliveryRecord → Bool
is_unsent none = true
is_unsent (some d) = elim d.state [ voided_before_send ↦ true | _ ↦ false ]

abbrev pub is_some : {A : Type 0} → Option A → Bool
is_some none = false
is_some (some a) = true

-- A row stands under its operation.
abbrev pub is_keyed : Uuid → Option DeliveryRecord → Bool
is_keyed j none = true
is_keyed j (some d) = d.operation == j

abbrev pub IsKeyed : Core → Type 0
IsKeyed c = (j : Uuid) → is_keyed j (document_at j c.durable.deliveries) ≡ true

pub record IsSafe (op : Uuid) (c : Core) : Type 0 where
  pub once : count op c.native ≤ 1
  pub entered_first : 0 < count op c.native → is_past (document_at op c.durable.deliveries) ≡ true
  pub void_unsent :
      is_some (document_at op c.durable.voids) ≡ true
      → is_unsent (document_at op c.durable.deliveries) ≡ true

pub record Inv (c : Core) : Type 0 where
  pub keyed : IsKeyed c
  pub safe : (op : Uuid) → IsSafe op c

-- A transaction that writes the record of one operation, and touches no void.
abbrev pub Writes : DeliveryRecord → Store → Store → Type 0
Writes d s s' =
    (s'.voids ≡ s.voids)
    × ((j : Uuid)
        → document_at j s'.deliveries
          ≡ (if j == d.operation then some d else document_at j s.deliveries))

pub record_delivery-Writes :
    (r : DeliveryRecord) (expected : Option Counter) (s : Store) {d : DeliveryRecord}
    → (record_delivery r expected s).0 ≡ ok d
    → Writes d s (record_delivery r expected s).1 × (d ≡ record r { journal_seq = d.journal_seq })
record_delivery-Writes r expected s {d} h =
    let same = (record_delivery-document_at r.operation r expected s h).1 in
    (
      (
        ground (arith, record_delivery-frame r expected s),
        λ j. ground (arith, record_delivery-document_at j r expected s h),
      ),
      same,
    )

-- What a new record of an operation must say of its state.
abbrev pub Fits : DeliveryRecord → Core → Type 0
Fits d c =
    (0 < count d.operation c.native → is_past (some d) ≡ true)
    × (is_some (document_at d.operation c.durable.voids) ≡ true → is_unsent (some d) ≡ true)

pub write-Inv :
    (d : DeliveryRecord) (c : Core) (s' : Store)
    → Writes d c.durable s'
    → Fits d c
    → Inv c
    → Inv (record c { durable = s' })
write-Inv d c s' w f v = record {
  keyed = λ j. ground (arith, w.1 j, v.keyed j);
  safe = λ op. ground (arith, w.1 op, v.safe op);
}

pub transact-ok :
    {A : Type 0} (t : Tx A) (c : Core) {a : A}
    → (t c.durable).0 ≡ ok a
    → transact t c ≡ (ok a, record c { durable = (t c.durable).1 })
unfolding transact
transact-ok t c e = rw (e, transact)

pub transact-err :
    {A : Type 0} (t : Tx A) (c : Core) {x : StoreError}
    → (t c.durable).0 ≡ err x
    → transact t c ≡ (err (store x), c)
unfolding transact
transact-err t c e = rw (e, transact)

-- A transaction keeps what its successful end keeps, since a failed one is rolled back.
pub transact-Inv :
    {A : Type 0} (t : Tx A) (c : Core)
    → Inv c
    → ((a : A) → (t c.durable).0 ≡ ok a → Inv (record c { durable = (t c.durable).1 }))
    → Inv (transact t c).1
unfolding transact
transact-Inv t c v good = elim (Result-cases (t c.durable).0) [
  | inl (a, e) ↦ rw (e, transact) (good a e)
  | inr (x, e) ↦ rw (e, transact) v
]

-- The invariant reads the store and the adapter's log alone.
pub reframe-Inv : (c c' : Core) → c'.durable ≡ c.durable → c'.native ≡ c.native → Inv c → Inv c'
reframe-Inv c c' e f v = record {
  keyed = λ j. ground (arith, e, v.keyed j);
  safe = λ op. ground (arith, e, f, v.safe op);
}
