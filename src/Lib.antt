-- ===== src/Lib.antt =====
-- A model of the bat-markets engine (crates/bat-markets-core and crates/bat-markets), which keeps the
-- state of one account on one futures venue, tells how far that state can be trusted, and serves
-- public and private streams and commands.
--
-- How the parts interact. Venue adapters turn payloads into lane events. The runtime checks their
-- sequence numbers, applies them to the engine state, which updates the health report with them, and
-- sends them to subscribers. A command is checked, sent and acknowledged; where its outcome is
-- unknown the health report becomes uncertain, the command is kept as pending, and a reconcile pass
-- looks for evidence in order history and fills. The handle of the command waits on the command bus
-- for that pass. Subscription hubs share one websocket stream per route among all leases.
--
-- Where each part is modelled:
--   Core/Types, Core/Failure     crates/bat-markets-core/src/types.rs, ids.rs, primitives.rs, error.rs
--   Core/Numeric                 crates/bat-markets-core/src/numeric.rs
--   Core/Instrument              crates/bat-markets-core/src/instrument.rs
--   Core/Market, with Interval   crates/bat-markets-core/src/market.rs: the records, KlineInterval and
--   and Request                  FetchOhlcvRequest
--   Core/Trade                   crates/bat-markets-core/src/trade.rs, account.rs, position.rs
--   Core/Command, Core/Execution crates/bat-markets-core/src/command.rs, reconcile.rs, execution.rs
--   Core/Health                  crates/bat-markets-core/src/health.rs, one function per method
--   Core/Engine                  crates/bat-markets-core/src/state.rs: EngineState; Engine/Public and
--                                Engine/Private hold its mutators, Engine/Read its reads, Engine/Ops
--                                every public mutator as one type and histories of them; Engine/Tape
--                                says what a batch of public events leaves to be read
--   Binance                      crates/bat-markets-binance/src/lib.rs: classify_command, over the
--                                payload types of native.rs
--   Facade/Sequence              crates/bat-markets/src/runtime.rs: SequenceTracker::observe
--   Facade/Entry                 crates/bat-markets/src/entry.rs: PendingCommandHandle
--   Facade/Pending               crates/bat-markets/src/runtime.rs: order_matches_pending,
--                                unresolved_pending_after_*, pending_by_instrument, reconcile_mode,
--                                execution_repair_scope, repair_window_start_ms
--   Facade/Validation            crates/bat-markets/src/runtime.rs: validate_create_order(s),
--                                validate_cancel_orders
--   Facade/Retry                 crates/bat-markets/src/runtime.rs: with_rest_retries, rest_backoff,
--                                should_reconnect, reconnect_backoff
--   Facade/Reconcile             crates/bat-markets/src/runtime.rs: reconcile_private,
--                                resolve_pending_unknown_commands, apply_command_receipt and what
--                                they write to the state and to the lanes
--   Facade/Place                 crates/bat-markets/src/runtime.rs: create_order on Binance, from the
--                                checks to the receipt
--   Facade/Amend                 crates/bat-markets/src/runtime.rs: amend_order on Binance
--   Facade/Batch                 crates/bat-markets/src/runtime.rs: the receipts of a batch of commands
--                                (cache_and_emit_batch_receipts), the checks of amended orders
--   Facade/Shared                crates/bat-markets/src/client.rs: SharedState, with the health watch
--                                and the lane each batch of events is sent to
--   Facade/Session               crates/bat-markets/src/runtime.rs: the turns of a public stream over
--                                parsed frames, retain_public_events_for_subscription and
--                                run_public_stream with its reconnects
--   Facade/Hub                   crates/bat-markets/src/subscriptions.rs: merging, routing and both
--                                hub loops, with the records of stream.rs that they use
-- Prelude, Ord and OrdMap hold the shared helpers: Boolean tests, lists and integers over the native
-- numbers, text as its bytes, and BTreeMap as an association list in key order with its laws.
-- Tests holds concrete values and the properties at them.
--
-- State and operations. A struct is a record, an enum a data type with the source's variants. A method
-- on &mut self takes the state last and returns the state after it; one that may fail returns the
-- state and a Result, so what an error leaves behind is visible. An async call that waits on a channel
-- takes the list of what the channel delivers, and is waiting where the list ends. Signed 64-bit
-- arithmetic that can wrap or saturate says so; unsigned counters that only count are not bounded.
--
-- Parameters. rust_decimal::Decimal is a type with the operations called (Core/Numeric). The calendar
-- of the time crate, the clock, the instruments that an adapter resolves, the texts of its errors,
-- the outcome of each attempt to call a venue or start a stream, the parsed answers of the REST calls
-- of a reconcile pass, the commands that other tasks cache while a pass runs, the payloads that
-- answer an order with what serde_json makes of them, and the parsed frames of a stream are
-- arguments.
--
-- Concurrency. Facade/Shared splits SharedState::write where the lock is released, and
-- Facade/Shared/Watch interleaves the writes of several tasks. A reconcile pass is one function: of
-- what other tasks do while it awaits, the commands they cache between its reading of the list of
-- pending commands and its overwriting of the list are modelled, and nothing else.
--
-- Fuel. The loop of resolved takes one event off the bus in each round, so one more round than there
-- are deliveries is enough; that it is enough is part of a theorem. The retry loop runs on the retries
-- that are left, and the reconnects of a public stream on the streams that may be started, one more
-- than the attempts that are allowed.
--
-- Not modelled: the venue adapters but for classify_command of Binance, placing and amending orders
-- on Bybit and MEXC, cancelling them, HTTP and websocket I/O, the private stream
-- loops, the building of the requests of a venue, the differences of the Bybit and MEXC public
-- streams, diagnostics, configuration defaults, catalog and capabilities, request types that are only
-- sent on, and the channels and leases around the hub loops.
pub mod Prelude
pub mod Ord
pub mod OrdMap
pub mod Core
pub mod Binance
pub mod Facade
pub mod Tests
