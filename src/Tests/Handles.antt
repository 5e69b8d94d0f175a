-- ===== src/Tests/Handles.antt =====
-- crates/bat-markets/src: the properties of the sequence tracker and of the pending command handle
-- at concrete streams.
use bat_markets.Prelude.{
  ℕ, ◌≡◌, ◌⊎◌, ◌↔◌, refl, true, false, none, some, List, [], ◌∷◌, ◌++◌, arith, All, ◌≤◌, ◌≢◌, any,
  is_some,
}
use bat_markets.Prelude.Int.{ℤ, pos, ◌≤ℤ◌, ◌+ℤ◌, wrap_i64, eqb_ℤ}
use bat_markets.Prelude.Text.{Str, str}
use bat_markets.Ord.{str_ord}
use bat_markets.OrdMap.{get, insert}
use bat_markets.Core.Types.{Venue, Product}
use bat_markets.Core.Failure.{ok}
use bat_markets.Core.Command.{
  CommandAck, CommandLaneEvent, CommandLifecycleEvent, CommandOperation, CommandReceipt,
  CommandStatus, CommandTransport, ReconcileOutcome, ReconcileReport, ReconcileTrigger,
}
use bat_markets.Facade.Sequence.{
  SequenceObservation, SequenceTracker, Watermark, in_order, gap, observe, observe_all,
}
use bat_markets.Facade.Sequence.Gaps.{
  Follows, mark_at, observe_exact, observe_all_gapless, IsStrictOn,
}
use bat_markets.Facade.Entry.{
  Delivery, delivered, ready, PendingCommandHandle, is_unknown, receipt_after_recovery, resolved,
}
use bat_markets.Facade.Entry.Recovery.{
  settle, completion, resolved_settles, resolved_completes, IsQuiet,
}

abbrev topic : Str
topic = str "orderbook"

abbrev numbered : ℕ → SequenceObservation
numbered n = record { topic = topic; value = pos n; strict_gap = true; reset = false }

abbrev marked : SequenceTracker
marked = (topic, record { value = pos 7; strict_gap = true }) ∷ []

abbrev seven : Watermark
seven = record { value = pos 7; strict_gap = true }

seven-marked : get topic marked ≡ some seven
unfolding get
seven-marked = refl

observe_exact_example :
    (((observe (numbered 9) marked).1 ≡ in_order)
      × Follows seven (pos 9)
      × (mark_at topic (observe (numbered 9) marked).0 ≡ some (pos 9)))
    ⊎ (((n : ℤ) × ((observe (numbered 9) marked).1 ≡ gap n))
        × ¬ Follows seven (pos 9)
        × ((observe (numbered 9) marked).0 ≡ marked))
observe_exact_example =
    observe_exact (numbered 9) marked seven refl seven-marked (ground arith) (ground arith)

abbrev stream : List SequenceObservation
stream = numbered 8 ∷ numbered 9 ∷ []

numbered-IsStrictOn : (n : ℕ) → n ≤ 100 → IsStrictOn topic (numbered n)
numbered-IsStrictOn n h = record {
  on_topic = refl;
  strict = refl;
  no_reset = refl;
  in_range = ground (arith, h);
}

stream-in_order : (observe_all stream marked).1 ≡ in_order
unfolding observe_all get insert wrap_i64 ◌+ℤ◌
stream-in_order = refl

stream-end : mark_at topic (observe_all stream marked).0 ≡ some (pos 9)
unfolding observe_all get insert wrap_i64 ◌+ℤ◌
stream-end = refl

observe_all_gapless_example : (pos 7 ≤ℤ pos 9) × (any (λ o. eqb_ℤ o.value (pos 8)) stream ≡ true)
observe_all_gapless_example =
    observe_all_gapless topic stream marked (pos 7) (pos 9) (pos 8) seven-marked (ground arith)
      (numbered-IsStrictOn 8 (omega arith), (numbered-IsStrictOn 9 (omega arith), tt))
      stream-in_order stream-end (ground arith) (ground arith)

abbrev unknown : CommandReceipt
unknown = record {
  operation = CommandOperation.create_order;
  status = CommandStatus.unknown_execution;
  venue = Venue.binance;
  product = Product.linear_usdt;
  instrument_id = none;
  order_id = some (str "o1");
  client_order_id = none;
  request_id = none;
  message = none;
  native_code = none;
  retriable = true;
}

abbrev ack_of : ℕ → CommandAck
ack_of at = record {
  receipt = unknown;
  transport = CommandTransport.rest;
  acknowledged_at = pos at;
}

abbrev report : ReconcileReport
report = record {
  trigger = ReconcileTrigger.unknown_execution;
  outcome = ReconcileOutcome.synchronized;
  repaired_at = pos 20;
  note = none;
}

-- The handle of a command, with another command's completion on the bus before its own.
abbrev others : List Delivery
others =
    delivered (CommandLaneEvent.lifecycle (CommandLifecycleEvent.recovery_scheduled (ack_of 1)))
    ∷ completion (ack_of 2) report
    ∷ []

abbrev handle : PendingCommandHandle
handle = record {
  ack = ack_of 1;
  receiver = others ++ completion (ack_of 1) report ∷ [];
  initial_receipt_pending = false;
}

resolved_settles_example :
    ((is_unknown handle.ack.receipt.status ≡ false)
      × (resolved handle ≡ (ready (ok handle.ack.receipt), handle)))
    ⊎ ((is_unknown handle.ack.receipt.status ≡ true)
        × (resolved handle ≡ (
          (settle handle.ack handle.receiver).0,
          record handle { receiver = (settle handle.ack handle.receiver).1 },
        )))
resolved_settles_example = resolved_settles handle

other_ack : ack_of 1 ≢ ack_of 2
other_ack e = ground arith

others-IsQuiet : All (IsQuiet (ack_of 1)) others
others-IsQuiet = (tt, (other_ack, tt))

resolved_completes_example :
    (resolved handle
      ≡ (ready (ok (receipt_after_recovery unknown report)), record handle { receiver = [] }))
    × (((receipt_after_recovery unknown report).status ≡ CommandStatus.accepted)
        ↔ (report.outcome ≡ ReconcileOutcome.synchronized))
    × ((receipt_after_recovery unknown report).retriable
        ≡ is_unknown (receipt_after_recovery unknown report).status)
    × (is_some (receipt_after_recovery unknown report).message ≡ true)
resolved_completes_example = resolved_completes handle others [] report refl refl others-IsQuiet
