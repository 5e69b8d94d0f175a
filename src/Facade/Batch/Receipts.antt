-- ===== src/Facade/Batch/Receipts.antt =====
-- crates/bat-markets/src/runtime.rs: what a batch of receipts leaves pending.
use bat_markets.Prelude.{
  ◌≡◌, ◌⊎◌, refl, ap, sym, subst, inl, inr, Bool-cases, Option, none, some, List, [], ◌∷◌, map, In,
  In-append-cases, true, ◌↔◌, Option-cases, arith,
}
use bat_markets.Core.Types.{InstrumentId, TimestampMs}
use bat_markets.Core.Command.{CommandOperation, CommandReceipt, CommandStatus, CommandTransport}
use bat_markets.Facade.Entry.{is_unknown}
use bat_markets.Facade.Pending.{PendingUnknownCommand, cache_pending_unknown}
use bat_markets.Facade.Pending.Evidence.{cache_pending_unknown-keeps}
use bat_markets.Facade.Reconcile.{Live}
use bat_markets.Facade.Reconcile.Pass.{apply_command_receipt}
use bat_markets.Facade.Reconcile.Answered.{applied_pending}
use bat_markets.Facade.Place.Kept.{In-cache_pending_unknown, cache_pending_unknown-IsRecorded}
use bat_markets.Facade.Batch.{
  BatchIdentity, cache_and_emit_batch_receipts, keep_pending, pending_of,
}

-- The receipts that have a request beside them.
abbrev pub paired : List CommandReceipt → List BatchIdentity → List CommandReceipt
paired (receipt ∷ receipts) (identity ∷ identities) = receipt ∷ paired receipts identities
paired _ _ = []

-- The command stands for a receipt of unknown outcome, the request beside which names its
-- instrument.
abbrev pub IsOf :
    CommandOperation → TimestampMs → PendingUnknownCommand → CommandReceipt → BatchIdentity → Type 0
IsOf operation now command receipt identity =
    (receipt.status ≡ CommandStatus.unknown_execution)
    × ((id : InstrumentId) × (identity.instrument_id ≡ some id)
        × (command ≡ record {
          operation = operation;
          instrument_id = id;
          order_id = identity.order_id;
          client_order_id = identity.client_order_id;
          recorded_at = now;
        }))

abbrev pub IsOneOf :
    CommandOperation
    → TimestampMs
    → PendingUnknownCommand
    → List CommandReceipt
    → List BatchIdentity
    → Type 0
IsOneOf operation now command (receipt ∷ receipts) (identity ∷ identities) =
    IsOf operation now command receipt identity ⊎ IsOneOf operation now command receipts identities
IsOneOf operation now command _ _ = ⊥

unknown_status :
    (status : CommandStatus) → is_unknown status ≡ true → status ≡ CommandStatus.unknown_execution
unknown_status CommandStatus.accepted h = absurd (cc)
unknown_status CommandStatus.rejected h = absurd (cc)
unknown_status CommandStatus.unknown_execution h = refl

IsOf-pending :
    (operation : CommandOperation) (now : TimestampMs) (command : PendingUnknownCommand)
    (receipt : CommandReceipt) (identity : BatchIdentity)
    → IsOf operation now command receipt identity
    → pending_of operation now receipt identity ≡ some command
IsOf-pending operation now command receipt identity (unknown, (id, named, same)) =
    rw (named, unknown) (ap some (sym same))

pending-IsOf :
    (operation : CommandOperation) (now : TimestampMs) (command : PendingUnknownCommand)
    (receipt : CommandReceipt) (identity : BatchIdentity)
    → pending_of operation now receipt identity ≡ some command
    → IsOf operation now command receipt identity
pending-IsOf operation now command receipt identity h = elim (Option-cases identity.instrument_id) [
  | inl missing ↦ absurd (ground (arith, missing, h))
  | inr (id, named) ↦ elim (Bool-cases (is_unknown receipt.status)) [
    | inl unknown ↦ (
      unknown_status receipt.status unknown,
      (id, named, some_same (sym (rw (named, unknown) at h))),
    )
    | inr known ↦ absurd (ground (arith, named, known, h))
  ]
]
  where
    some_same : {x y : PendingUnknownCommand} → some x ≡ some y → x ≡ y
    some_same e = cc

cache_pending_unknown-adds :
    (p command : PendingUnknownCommand) (ps : List PendingUnknownCommand)
    → In p (cache_pending_unknown command ps)
    → (p ≡ command) ⊎ In p ps
cache_pending_unknown-adds p command ps h = elim (cache_pending_unknown-IsRecorded command ps) [
  | inl found ↦ inr (subst (In p) found.1 h)
  | inr missing ↦ elim (In-append-cases p ps (command ∷ []) (subst (In p) missing.1 h)) [
    | inl old ↦ inr old
    | inr (inl same) ↦ inl same
    | inr (inr none_else) ↦ absurd none_else
  ]
]

applied_receipt :
    {D : Type 0} (r : CommandReceipt) (transport : CommandTransport) (now : TimestampMs)
    (c : Live D)
    → (apply_command_receipt r transport now c).0.receipt ≡ r
unfolding apply_command_receipt
applied_receipt r transport now c = refl

module _ {D : Type 0} (operation : CommandOperation) (transport : CommandTransport)
    (now : TimestampMs) (command : PendingUnknownCommand) where
  keep_pending-keeps :
      (o : Option PendingUnknownCommand) (c : Live D)
      → In command c.pending
      → In command (keep_pending o c).pending
  keep_pending-keeps none c h = h
  keep_pending-keeps (some other) c h = cache_pending_unknown-keeps command other c.pending h

  keep_pending-keeps_new :
      (o : Option PendingUnknownCommand) (c : Live D)
      → o ≡ some command
      → In command (keep_pending o c).pending
  keep_pending-keeps_new none c h = absurd (cc)
  keep_pending-keeps_new (some other) c h =
      let same : other ≡ command = cc in
      subst (λ x. In command (cache_pending_unknown x c.pending)) (sym same)
        (In-cache_pending_unknown command c.pending)

  batch_receipts :
      (receipts : List CommandReceipt) (identities : List BatchIdentity) (c : Live D)
      → map
          (λ ack. ack.receipt)
          (cache_and_emit_batch_receipts receipts identities operation transport now c).0
        ≡ paired receipts identities
  unfolding cache_and_emit_batch_receipts
  batch_receipts [] identities c = refl
  batch_receipts (receipt ∷ receipts) [] c = refl
  batch_receipts (receipt ∷ receipts) (identity ∷ identities) c =
      let kept = keep_pending (pending_of operation now receipt identity) c in
      rw (applied_receipt receipt transport now kept) (
        ap (λ xs. receipt ∷ xs)
          (batch_receipts receipts identities (apply_command_receipt receipt transport now kept).1))

  batch_pending :
      (receipts : List CommandReceipt) (identities : List BatchIdentity) (c : Live D)
      → IsOneOf operation now command receipts identities ⊎ In command c.pending
      → In command
          (cache_and_emit_batch_receipts receipts identities operation transport now c).1.pending
  unfolding cache_and_emit_batch_receipts
  batch_pending [] identities c (inl h) = absurd h
  batch_pending [] identities c (inr h) = h
  batch_pending (receipt ∷ receipts) [] c (inl h) = absurd h
  batch_pending (receipt ∷ receipts) [] c (inr h) = h
  batch_pending (receipt ∷ receipts) (identity ∷ identities) c h =
      let kept = keep_pending (pending_of operation now receipt identity) c in
      let told : In command kept.pending
          → In command (apply_command_receipt receipt transport now kept).1.pending =
        subst (In command) (sym (applied_pending receipt transport now kept)) in
      batch_pending receipts identities (apply_command_receipt receipt transport now kept).1
        (elim h [
          | inl (inl new) ↦ inr (
              told (
                keep_pending-keeps_new (pending_of operation now receipt identity) c
                  (IsOf-pending operation now command receipt identity new)))
          | inl (inr later) ↦ inl later
          | inr old ↦
              inr (told (keep_pending-keeps (pending_of operation now receipt identity) c old))
        ])

  keep_pending-adds :
      (o : Option PendingUnknownCommand) (c : Live D)
      → In command (keep_pending o c).pending
      → (o ≡ some command) ⊎ In command c.pending
  keep_pending-adds none c h = inr h
  keep_pending-adds (some other) c h = elim (cache_pending_unknown-adds command other c.pending h) [
    | inl same ↦ inl (ap some (sym same))
    | inr old ↦ inr old
  ]

  pending_batch :
      (receipts : List CommandReceipt) (identities : List BatchIdentity) (c : Live D)
      → In command
          (cache_and_emit_batch_receipts receipts identities operation transport now c).1.pending
      → IsOneOf operation now command receipts identities ⊎ In command c.pending
  unfolding cache_and_emit_batch_receipts
  pending_batch [] identities c h = inr h
  pending_batch (receipt ∷ receipts) [] c h = inr h
  pending_batch (receipt ∷ receipts) (identity ∷ identities) c h =
      let kept = keep_pending (pending_of operation now receipt identity) c in
      elim (pending_batch receipts identities (apply_command_receipt receipt transport now kept).1
        h) [
          | inl later ↦ inl (inr later)
          | inr now_kept ↦
              elim (keep_pending-adds (pending_of operation now receipt identity) c
                (subst (In command) (applied_pending receipt transport now kept) now_kept)) [
                  | inl new ↦ inl (inl (pending-IsOf operation now command receipt identity new))
                  | inr old ↦ inr old
                ]
        ]

  -- A batch of receipts is acknowledged receipt by receipt, for as many as there are requests. After
  -- it exactly these commands are pending: those that were, and the command of each receipt of
  -- unknown outcome whose request names its instrument.
  pub batch_kept :
      (receipts : List CommandReceipt) (identities : List BatchIdentity) (c : Live D)
      → let (acks, after) =
          cache_and_emit_batch_receipts receipts identities operation transport now c in
        (map (λ ack. ack.receipt) acks ≡ paired receipts identities)
        × (In command after.pending
            ↔ (IsOneOf operation now command receipts identities ⊎ In command c.pending))
  batch_kept receipts identities c = (
    batch_receipts receipts identities c,
    (pending_batch receipts identities c, batch_pending receipts identities c),
  )
