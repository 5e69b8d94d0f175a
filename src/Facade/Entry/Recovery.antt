-- ===== src/Facade/Entry/Recovery.antt =====
-- crates/bat-markets/src/entry.rs: how `resolved` ends.
use mathlib.Core.Bool.{decide}
use bat_markets.Prelude.{
  ℕ, zero, suc, ◌<◌, ◌≡◌, ◌≢◌, refl, true, false, none, some, List, [], ◌∷◌, ◌++◌, arith, length,
  if◌then◌else◌, ◌↔◌, is_some, Option-cases, ◌⊎◌, All, Bool-cases, inl, inr, decide_yes, decide_no,
}
use bat_markets.Core.Failure.{MarketError, ok, err}
use bat_markets.Core.Command.{
  CommandAck, CommandLaneEvent, CommandLifecycleEvent, CommandReceipt, CommandStatus,
  ReconcileOutcome, ReconcileReport,
}
use bat_markets.Facade.Entry.{
  Delivery, delivered, failed, Await, ready, waiting, PendingCommandHandle, matches_lifecycle,
  CommandAck-discrete, receipt_after_recovery, lifecycle_loop, recovered_by, resolved_loop,
  resolved, is_unknown, receive_failure,
}

-- An event that neither fails the receiver nor completes the recovery of this command.
abbrev pub IsQuiet : CommandAck → Delivery → Type 0
IsQuiet ack (failed text) = ⊥
IsQuiet ack (delivered (CommandLaneEvent.receipt r)) = Unit {0}
IsQuiet ack (delivered (CommandLaneEvent.lifecycle (CommandLifecycleEvent.ack a))) = Unit {0}
IsQuiet ack (delivered (CommandLaneEvent.lifecycle (CommandLifecycleEvent.receipt r))) = Unit {0}
IsQuiet ack (delivered (CommandLaneEvent.lifecycle (CommandLifecycleEvent.recovery_scheduled a))) =
    Unit {0}
IsQuiet ack
      (delivered (CommandLaneEvent.lifecycle (CommandLifecycleEvent.recovery_completed a r))) =
    ack ≢ a

abbrev pub completion : CommandAck → ReconcileReport → Delivery
completion ack report =
    delivered (CommandLaneEvent.lifecycle (CommandLifecycleEvent.recovery_completed ack report))

lifecycle_shorter :
    (ack : CommandAck) (ds : List Delivery) (l : CommandLifecycleEvent)
    → (lifecycle_loop ack ds).0 ≡ ready (ok l)
    → length (lifecycle_loop ack ds).1 < length ds
unfolding lifecycle_loop
lifecycle_shorter ack [] l e = cc
lifecycle_shorter ack (failed text ∷ ds) l e = cc
lifecycle_shorter ack (delivered (CommandLaneEvent.receipt r) ∷ ds) l e =
    omega (arith, lifecycle_shorter ack ds l e)
lifecycle_shorter ack (delivered (CommandLaneEvent.lifecycle k) ∷ ds) l e =
    ground (arith, lifecycle_shorter ack ds l)

-- What `resolved` amounts to, in one pass over what the bus delivers: receipts and events that
-- complete nothing of this command are skipped.
unfoldable pub settle : CommandAck → List Delivery → Await CommandReceipt × List Delivery
settle ack [] = (waiting, [])
settle ack (failed text ∷ ds) = (ready (err (receive_failure text)), ds)
settle ack (delivered (CommandLaneEvent.receipt r) ∷ ds) = settle ack ds
settle ack (delivered (CommandLaneEvent.lifecycle (CommandLifecycleEvent.ack a)) ∷ ds) =
    settle ack ds
settle ack (delivered (CommandLaneEvent.lifecycle (CommandLifecycleEvent.receipt r)) ∷ ds) =
    settle ack ds
settle ack
      (delivered (CommandLaneEvent.lifecycle (CommandLifecycleEvent.recovery_scheduled a)) ∷ ds) =
    settle ack ds
settle ack
      (delivered (CommandLaneEvent.lifecycle (CommandLifecycleEvent.recovery_completed a report))
        ∷ ds) =
    let rest = settle ack ds in
    if decide (CommandAck-discrete ack a)
    then (ready (ok (receipt_after_recovery ack.receipt report)), ds)
    else rest

-- One round of `resolved_loop`, with the pass for the rounds after it.
unfoldable round :
    CommandAck → Await CommandLifecycleEvent → List Delivery → Await CommandReceipt × List Delivery
unfolding settle
round ack waiting ds = (waiting, ds)
round ack (ready (err e)) ds = (ready (err e), ds)
round ack (ready (ok l)) ds = elim (recovered_by ack l) [
  | some r ↦ (ready (ok r), ds)
  | none ↦ settle ack ds
]

settle_round :
    (ack : CommandAck) (ds : List Delivery)
    → settle ack ds ≡ round ack (lifecycle_loop ack ds).0 (lifecycle_loop ack ds).1
unfolding settle round lifecycle_loop matches_lifecycle recovered_by
settle_round ack [] = refl
settle_round ack (failed text ∷ ds) = refl
settle_round ack (delivered (CommandLaneEvent.receipt r) ∷ ds) = settle_round ack ds
settle_round ack (delivered (CommandLaneEvent.lifecycle (CommandLifecycleEvent.ack a)) ∷ ds) =
    ground (arith, settle_round ack ds)
settle_round ack (delivered (CommandLaneEvent.lifecycle (CommandLifecycleEvent.receipt r)) ∷ ds) =
    ground (arith, settle_round ack ds)
settle_round ack
      (delivered (CommandLaneEvent.lifecycle (CommandLifecycleEvent.recovery_scheduled a)) ∷ ds) =
    ground (arith, settle_round ack ds)
settle_round ack
      (delivered (CommandLaneEvent.lifecycle (CommandLifecycleEvent.recovery_completed a report))
        ∷ ds) =
    ground (arith, settle_round ack ds)

Await-cases :
    {A : Type 0} (r : Await A)
    → (r ≡ waiting) ⊎ ((e : MarketError) × (r ≡ ready (err e))) ⊎ ((a : A) × (r ≡ ready (ok a)))
Await-cases waiting = inl refl
Await-cases (ready (err e)) = inr (inl (e, refl))
Await-cases (ready (ok a)) = inr (inr (a, refl))

-- With more rounds than there are deliveries, the loop is the pass.
pub resolved_loop_settle :
    (fuel : ℕ) (ack : CommandAck) (ds : List Delivery)
    → length ds < fuel
    → resolved_loop fuel ack ds ≡ settle ack ds
unfolding resolved_loop round
resolved_loop_settle zero ack ds h = absurd (omega (arith, h))
resolved_loop_settle (suc fuel) ack ds h =
    rw (settle_round ack ds) (elim (Await-cases (lifecycle_loop ack ds).0) [
      | inl w ↦ rw (w, resolved_loop) refl
      | inr (inl (e, w)) ↦ rw (w, resolved_loop) refl
      | inr (inr (l, w)) ↦ elim (Option-cases (recovered_by ack l)) [
        | inl n ↦
            rw (w, resolved_loop)
              (rw (n, round)
                (resolved_loop_settle fuel ack (lifecycle_loop ack ds).1
                  (omega (arith, h, lifecycle_shorter ack ds l w))))
        | inr (r, n) ↦ rw (w, resolved_loop) (rw (n, round) refl)
      ]
    ])

resolved_known :
    (h : PendingCommandHandle)
    → is_unknown h.ack.receipt.status ≡ false
    → resolved h ≡ (ready (ok h.ack.receipt), h)
unfolding resolved
resolved_known h k = rw k refl

resolved_unknown :
    (h : PendingCommandHandle)
    → is_unknown h.ack.receipt.status ≡ true
    → resolved h
      ≡ ((settle h.ack h.receiver).0, record h { receiver = (settle h.ack h.receiver).1 })
unfolding resolved
resolved_unknown h u =
    rw u (rw (resolved_loop_settle (suc (length h.receiver)) h.ack h.receiver (omega arith)) refl)

-- `resolved` answers at once where the outcome of the command is known, and gives what the pass
-- over the deliveries gives where it is not; the rounds of its loop do not run out.
pub resolved_settles :
    (h : PendingCommandHandle)
    → ((is_unknown h.ack.receipt.status ≡ false) × (resolved h ≡ (ready (ok h.ack.receipt), h)))
      ⊎ ((is_unknown h.ack.receipt.status ≡ true)
          × (resolved h
              ≡ ((settle h.ack h.receiver).0, record h { receiver = (settle h.ack h.receiver).1 })))
resolved_settles h = elim (Bool-cases (is_unknown h.ack.receipt.status)) [
  | inl u ↦ inr (u, resolved_unknown h u)
  | inr k ↦ inl (k, resolved_known h k)
]

settle_quiet :
    (ack : CommandAck) (before : List Delivery) (report : ReconcileReport) (ds : List Delivery)
    → All (IsQuiet ack) before
    → settle ack (before ++ completion ack report ∷ ds)
      ≡ (ready (ok (receipt_after_recovery ack.receipt report)), ds)
unfolding settle
settle_quiet ack [] report ds q = rw (decide_yes (CommandAck-discrete ack ack) refl) refl
settle_quiet ack (failed text ∷ before) report ds q = absurd q.0
settle_quiet ack (delivered (CommandLaneEvent.receipt r) ∷ before) report ds q =
    settle_quiet ack before report ds q.1
settle_quiet ack (delivered (CommandLaneEvent.lifecycle (CommandLifecycleEvent.ack a)) ∷ before)
      report ds q =
    settle_quiet ack before report ds q.1
settle_quiet ack (delivered (CommandLaneEvent.lifecycle (CommandLifecycleEvent.receipt r)) ∷ before)
      report ds q =
    settle_quiet ack before report ds q.1
settle_quiet ack
      (delivered (CommandLaneEvent.lifecycle (CommandLifecycleEvent.recovery_scheduled a)) ∷ before)
      report ds q =
    settle_quiet ack before report ds q.1
settle_quiet ack
      (delivered (CommandLaneEvent.lifecycle (CommandLifecycleEvent.recovery_completed a r))
        ∷ before)
      report ds q =
    rw (decide_no (CommandAck-discrete ack a) q.0) (settle_quiet ack before report ds q.1)

receipt_after_recovery_lem :
    (receipt : CommandReceipt) (report : ReconcileReport)
    → let after = receipt_after_recovery receipt report in
      ((after.status ≡ CommandStatus.accepted) ↔ (report.outcome ≡ ReconcileOutcome.synchronized))
      × (after.retriable ≡ is_unknown after.status)
      × is_some after.message ≡ true
unfolding receipt_after_recovery
receipt_after_recovery_lem receipt report = ground arith

-- A command of unknown outcome whose completion comes before the receiver fails: `resolved` gives
-- the receipt after the recovery, accepted exactly when the reconcile was synchronized and
-- retriable otherwise, and leaves on the bus what came after the completion.
pub resolved_completes :
    (h : PendingCommandHandle) (before ds : List Delivery) (report : ReconcileReport)
    → is_unknown h.ack.receipt.status ≡ true
    → h.receiver ≡ before ++ completion h.ack report ∷ ds
    → All (IsQuiet h.ack) before
    → let after = receipt_after_recovery h.ack.receipt report in
      (resolved h ≡ (ready (ok after), record h { receiver = ds }))
      × ((after.status ≡ CommandStatus.accepted) ↔ (report.outcome ≡ ReconcileOutcome.synchronized))
      × (after.retriable ≡ is_unknown after.status)
      × is_some after.message ≡ true
resolved_completes h before ds report u e q = (
  rw (resolved_unknown h u) (rw e (rw (settle_quiet h.ack before report ds q) refl)),
  (receipt_after_recovery_lem h.ack.receipt report).0,
  (receipt_after_recovery_lem h.ack.receipt report).1,
  (receipt_after_recovery_lem h.ack.receipt report).2,
)
