-- ===== src/Facade/Pending/Named.antt =====
-- crates/bat-markets/src/runtime.rs: when an order or a fill names a pending command.
use bat_markets.Prelude.{
  ◌≡◌, ◌⊎◌, refl, true, Bool, Bool-cases, Option, none, some, inl, inr, ◌||◌, ◌&&◌, arith, ap, sym,
}
use bat_markets.Ord.{◌===◌, str_ord}
use bat_markets.Prelude.Text.{Str}
use bat_markets.Core.Types.{InstrumentId, OrderId, ClientOrderId}
use bat_markets.Facade.Pending.{PendingUnknownCommand, names_order, names_client}

-- An order or fill of the instrument of the command that has the order id of the command, or the
-- client order id of the command.
abbrev pub IsNamed : PendingUnknownCommand → InstrumentId → OrderId → Option ClientOrderId → Type 0
IsNamed command instrument order client =
    (instrument ≡ command.instrument_id)
    × ((command.order_id ≡ some order)
        ⊎ ((id : ClientOrderId) × (command.client_order_id ≡ some id) × (client ≡ some id)))

same_text : (a b : Str) → (a === b) ≡ true → a ≡ b
same_text a b h = ground (arith, str_ord.cmp_iff a b)

text_same : (a : Str) → (a === a) ≡ true
text_same a = ground (arith, str_ord.cmp_iff a a)

names_order-true :
    (wanted : Option OrderId) (order : OrderId)
    → names_order wanted order ≡ true
    → wanted ≡ some order
names_order-true none order h = absurd (cc)
names_order-true (some id) order h = ap some (sym (same_text order id h))

names_client-true :
    (wanted client : Option ClientOrderId)
    → names_client wanted client ≡ true
    → (id : ClientOrderId) × (wanted ≡ some id) × (client ≡ some id)
names_client-true none client h = absurd (cc)
names_client-true (some id) none h = absurd (cc)
names_client-true (some id) (some other) h = (id, refl, ap some (same_text other id h))

-- The two matches of the source, of an order and of a fill.
abbrev matches : PendingUnknownCommand → InstrumentId → OrderId → Option ClientOrderId → Bool
matches command instrument order client =
    (instrument === command.instrument_id)
    && (names_order command.order_id order || names_client command.client_order_id client)

pub matches-IsNamed :
    (command : PendingUnknownCommand) (instrument : InstrumentId) (order : OrderId)
    (client : Option ClientOrderId)
    → matches command instrument order client ≡ true
    → IsNamed command instrument order client
matches-IsNamed command instrument order client h = (
  same_text instrument command.instrument_id (ground (arith, h)),
  elim (Bool-cases (names_order command.order_id order)) [
    | inl by_order ↦ inl (names_order-true command.order_id order by_order)
    | inr other ↦ inr (names_client-true command.client_order_id client (ground (arith, h, other)))
  ],
)

pub IsNamed-matches :
    (command : PendingUnknownCommand) (instrument : InstrumentId) (order : OrderId)
    (client : Option ClientOrderId)
    → IsNamed command instrument order client
    → matches command instrument order client ≡ true
IsNamed-matches command instrument order client (same, inl by_order) =
    rw (same, by_order, text_same command.instrument_id, text_same order) refl
IsNamed-matches command instrument order client (same, inr (id, wanted, held)) =
    rw (same, wanted, held, text_same command.instrument_id, text_same id) (ground arith)
