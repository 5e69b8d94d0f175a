-- ===== src/Facade/Pending/Evidence.antt =====
-- crates/bat-markets/src/runtime.rs: which pending commands the evidence leaves.
use bat_markets.Prelude.{
  ◌≡◌, ◌⊎◌, ◌↔◌, refl, true, false, Bool, Bool-cases, inl, inr, not, ◌||◌, In, any-In, In-any,
  In-keep, keep-In, In-append-left, subst, List, [], ◌∷◌, any, keep, arith, ap, sym,
}
use mathlib.Core.Bool.{decide}
use bat_markets.Ord.{str_ord}
use bat_markets.Core.Trade.{Order, Execution}
use bat_markets.Facade.Pending.{
  PendingUnknownCommand, PendingUnknownCommand-discrete, cache_pending_unknown, cache_each,
  order_matches_pending, execution_matches_pending, unresolved_pending_after_state,
  unresolved_pending_after_orders, unresolved_pending_after_executions,
}
use bat_markets.Facade.Pending.Named.{IsNamed, matches-IsNamed, IsNamed-matches}

module _ {D : Type 0} where
  -- Some order or some fill is evidence of what became of the command.
  abbrev pub has_evidence : List (Order D) → List (Execution D) → PendingUnknownCommand → Bool
  has_evidence orders executions command =
      any (λ order. order_matches_pending order command) orders
      || any (λ e. execution_matches_pending e command) executions

  -- The two passes over the evidence amount to one.
  pub unresolved_pending_after_state-keep :
      (pending : List PendingUnknownCommand) (orders : List (Order D))
      (executions : List (Execution D))
      → unresolved_pending_after_state pending orders executions
        ≡ keep (λ command. not (has_evidence orders executions command)) pending
  unfolding unresolved_pending_after_state unresolved_pending_after_orders
      unresolved_pending_after_executions
  unresolved_pending_after_state-keep [] orders executions = refl
  unresolved_pending_after_state-keep (c ∷ cs) orders executions =
      ground (arith, unresolved_pending_after_state-keep cs orders executions)

module _ {D : Type 0} (command : PendingUnknownCommand) where
  abbrev pub IsOrderOf : Order D → Type 0
  IsOrderOf o = IsNamed command o.instrument_id o.order_id o.client_order_id

  abbrev pub IsFillOf : Execution D → Type 0
  IsFillOf e = IsNamed command e.instrument_id e.order_id e.client_order_id

  pub order_matches_pending-IsOrderOf :
      (o : Order D) → (order_matches_pending o command ≡ true) ↔ IsOrderOf o
  unfolding order_matches_pending
  order_matches_pending-IsOrderOf o = (
    matches-IsNamed command o.instrument_id o.order_id o.client_order_id,
    IsNamed-matches command o.instrument_id o.order_id o.client_order_id,
  )

  pub execution_matches_pending-IsFillOf :
      (e : Execution D) → (execution_matches_pending e command ≡ true) ↔ IsFillOf e
  unfolding execution_matches_pending
  execution_matches_pending-IsFillOf e = (
    matches-IsNamed command e.instrument_id e.order_id e.client_order_id,
    IsNamed-matches command e.instrument_id e.order_id e.client_order_id,
  )

  -- Some order or some fill names the command.
  abbrev pub HasEvidence : List (Order D) → List (Execution D) → Type 0
  HasEvidence orders executions =
      ((o : Order D) × In o orders × IsOrderOf o)
      ⊎ ((e : Execution D) × In e executions × IsFillOf e)

  pub no_match : (o : Order D) → ¬ IsOrderOf o → order_matches_pending o command ≡ false
  no_match o h = elim (Bool-cases (order_matches_pending o command)) [
    | inl y ↦ absurd (h ((order_matches_pending-IsOrderOf o).0 y))
    | inr n ↦ n
  ]

  pub no_order_matches :
      (os : List (Order D))
      → ((o : Order D) → In o os → ¬ IsOrderOf o)
      → any (λ o. order_matches_pending o command) os ≡ false
  no_order_matches os h = elim (Bool-cases (any (λ o. order_matches_pending o command) os)) [
    | inl y ↦
        let (o, found, matched) = any-In (λ o. order_matches_pending o command) os y in
        absurd (h o found ((order_matches_pending-IsOrderOf o).0 matched))
    | inr n ↦ n
  ]

  pub no_fill_matches :
      (es : List (Execution D))
      → ((e : Execution D) → In e es → ¬ IsFillOf e)
      → any (λ e. execution_matches_pending e command) es ≡ false
  no_fill_matches es h = elim (Bool-cases (any (λ e. execution_matches_pending e command) es)) [
    | inl y ↦
        let (e, found, matched) = any-In (λ e. execution_matches_pending e command) es y in
        absurd (h e found ((execution_matches_pending-IsFillOf e).0 matched))
    | inr n ↦ n
  ]

  has_evidence-false :
      (orders : List (Order D)) (executions : List (Execution D))
      → ¬ HasEvidence orders executions
      → has_evidence orders executions command ≡ false
  has_evidence-false orders executions h =
      rw
        (
          no_order_matches orders (λ o found named. h (inl (o, found, named))),
          no_fill_matches executions (λ e found named. h (inr (e, found, named))),
        )
        refl

  has_evidence-true :
      (orders : List (Order D)) (executions : List (Execution D))
      → HasEvidence orders executions
      → has_evidence orders executions command ≡ true
  has_evidence-true orders executions (inl (o, found, named)) =
      rw
        (In-any (λ o. order_matches_pending o command) o orders found
          ((order_matches_pending-IsOrderOf o).1 named))
        refl
  has_evidence-true orders executions (inr (e, found, named)) =
      rw
        (In-any (λ e. execution_matches_pending e command) e executions found
          ((execution_matches_pending-IsFillOf e).1 named))
        (ground arith)

  -- A command stays unresolved exactly when it was pending and no order and no fill names it, that
  -- is, none of its instrument has its order id or its client order id.
  pub unresolved_pending_after_state_lem :
      (pending : List PendingUnknownCommand) (orders : List (Order D))
      (executions : List (Execution D))
      → In command (unresolved_pending_after_state pending orders executions)
        ↔ (In command pending × (¬ HasEvidence orders executions))
  unresolved_pending_after_state_lem pending orders executions =
      let test : PendingUnknownCommand → Bool = λ c. not (has_evidence orders executions c) in
      let shape = unresolved_pending_after_state-keep pending orders executions in
      (
        λ h.
            let (found, passed) = keep-In command test pending (subst (In command) shape h) in
            (found, λ k. ground (arith, passed, has_evidence-true orders executions k)),
        λ h.
            subst (In command) (sym shape) (
              In-keep command test pending h.0 (ap not (has_evidence-false orders executions h.1))),
      )

pub cache_pending_unknown-keeps :
    (p command : PendingUnknownCommand) (ps : List PendingUnknownCommand)
    → In p ps
    → In p (cache_pending_unknown command ps)
unfolding cache_pending_unknown
cache_pending_unknown-keeps p command ps h =
    elim (Bool-cases
      (any (λ existing. decide (PendingUnknownCommand-discrete existing command)) ps)) [
        | inl found ↦ rw (found) h
        | inr missing ↦ rw (missing) (In-append-left p ps (command ∷ []) h)
      ]

pub cache_each-keeps :
    (p : PendingUnknownCommand) (more ps : List PendingUnknownCommand)
    → In p ps
    → In p (cache_each more ps)
unfolding cache_each
cache_each-keeps p [] ps h = h
cache_each-keeps p (command ∷ more) ps h =
    cache_each-keeps p more (cache_pending_unknown command ps)
      (cache_pending_unknown-keeps p command ps h)
