-- ===== src/Facade/Pending/Groups.antt =====
-- crates/bat-markets/src/runtime.rs: how the pending commands are grouped by instrument.
use bat_markets.Prelude.{
  ◌≡◌, List, [], ◌∷◌, ◌++◌, keep, arith, unwrap_or, ◌∙◌, ap, sym, append_nil, append_assoc,
}
use bat_markets.Ord.{◌===◌, str_ord}
use bat_markets.OrdMap.{OrdMap, get, insert}
use bat_markets.OrdMap.Laws.{get-insert}
use bat_markets.Core.Types.{InstrumentId}
use bat_markets.Facade.Pending.{PendingUnknownCommand, group_from, pending_by_instrument}

abbrev keep_on : InstrumentId → List PendingUnknownCommand → List PendingUnknownCommand
keep_on id = keep (λ command. command.instrument_id === id)

-- The group of an instrument, empty where there is none.
abbrev group_of :
    InstrumentId → OrdMap InstrumentId (List PendingUnknownCommand) → List PendingUnknownCommand
group_of id grouped = unwrap_or (get id grouped) []

group_of-push :
    (id : InstrumentId) (c : PendingUnknownCommand)
    (grouped : OrdMap InstrumentId (List PendingUnknownCommand))
    → group_of id (insert c.instrument_id (group_of c.instrument_id grouped ++ c ∷ []) grouped)
      ≡ group_of id grouped ++ keep_on id (c ∷ [])
group_of-push id c grouped =
    rw (get-insert id c.instrument_id (group_of c.instrument_id grouped ++ c ∷ []) grouped) (
      ground (
        arith,
        append_nil (group_of id grouped),
        str_ord.cmp_iff id c.instrument_id,
        str_ord.cmp_iff c.instrument_id id,
      ))

keep_on_cons :
    (id : InstrumentId) (c : PendingUnknownCommand) (cs : List PendingUnknownCommand)
    → keep_on id (c ∷ []) ++ keep_on id cs ≡ keep_on id (c ∷ cs)
keep_on_cons id c cs = ground arith

group_of-group_from :
    (id : InstrumentId) (cs : List PendingUnknownCommand)
    (grouped : OrdMap InstrumentId (List PendingUnknownCommand))
    → group_of id (group_from cs grouped) ≡ group_of id grouped ++ keep_on id cs
unfolding group_from
group_of-group_from id [] grouped = sym (append_nil (group_of id grouped))
group_of-group_from id (c ∷ cs) grouped =
    group_of-group_from id cs _
    ∙ ap (λ r. r ++ keep_on id cs) (group_of-push id c grouped)
    ∙ append_assoc (group_of id grouped) (keep_on id (c ∷ [])) (keep_on id cs)
    ∙ ap (λ r. group_of id grouped ++ r) (keep_on_cons id c cs)

-- The commands of an instrument are grouped under it, all of them, in the order recorded.
pub pending_by_instrument_lookup :
    (id : InstrumentId) (pending : List PendingUnknownCommand)
    → unwrap_or (get id (pending_by_instrument pending)) []
      ≡ keep (λ command. command.instrument_id === id) pending
unfolding pending_by_instrument get
pending_by_instrument_lookup id pending = group_of-group_from id pending []
