-- ===== src/Policy/Changes.antt =====
-- The status changes of the engine as transactions: each that succeeds made its move, and no other.
use yusui.Prelude.{ℕ, List, String}
use yusui.Exec.After.{After, After-imp, After-bind}
use yusui.Store.Rows.{Status, Actor, Action, Payload, RuleId}
use yusui.Store.Conn.{Conn}
use yusui.Policy.Step.{Edit, Move}
use yusui.Policy.Tx.{
  approve_tx, reject_tx, apply_failed_tx, activate_tx, revoke_tx, revoke_pending_tx, close_tx,
}
use yusui.Policy.Commits.{Committed, transition-After}
use yusui.Policy.Moves.{
  Moves, MovesBy, approve_row-Mutates, reject_row-Mutates, set_status-After, close_ticket-After,
  set_active-After, upsert_binding-After, set_binding_applied-After, Edited-after,
}

module _ (id : ℕ) (actor : Actor) (c : Conn) where
  -- A transaction that succeeds makes its move, and no other.
  pub approve_tx-After :
      (a : ℕ)
      → After
          (λ u d.
            Committed (MovesBy a) id actor Action.ticket_approve Payload.empty c.tables u d.tables)
          (approve_tx id a actor)
          c
  unfolding approve_tx
  approve_tx-After a = transition-After _ id _ _ actor _ _ (approve_row-Mutates a) c

  pub reject_tx-After :
      (a : ℕ) (reason : String)
      → After
          (λ u d.
            Committed
              (Moves Action.ticket_reject)
              id
              actor
              Action.ticket_reject
              (Payload.because reason)
              c.tables
              u
              d.tables)
          (reject_tx id a reason actor)
          c
  unfolding reject_tx
  reject_tx-After a reason = transition-After _ id _ _ actor _ _ (reject_row-Mutates a) c

  pub apply_failed_tx-After :
      After
        (λ u d.
          Committed
            (Moves Action.policy_apply_failed)
            id
            actor
            Action.policy_apply_failed
            Payload.apply_error
            c.tables
            u
            d.tables)
        (apply_failed_tx id actor)
        c
  unfolding apply_failed_tx
  apply_failed_tx-After =
      transition-After _ id _ _ actor _ _
        (λ t c from.
          After-imp (λ _ d h. (Edit.sets c.now Status.apply_failed, Move.fail c.now from, h))
            (set_status-After t Status.apply_failed c))
        c

  pub activate_tx-After :
      (agent : ℕ) (rid : RuleId) (n expires : ℕ) (addrs : List String)
      → After
          (λ u d.
            Committed
              (Moves Action.policy_apply)
              id
              actor
              Action.policy_apply
              (Payload.applied agent rid n expires)
              c.tables
              u
              d.tables)
          (activate_tx id actor agent rid n expires addrs)
          c
  unfolding activate_tx
  activate_tx-After agent rid n expires addrs =
      transition-After _ id _ _ actor _ _
        (λ t c from. After-bind (
          After-imp
            (λ _ d q. After-bind (
              After-imp
                (λ _ d' q'.
                  After-imp
                    (λ _ d'' h. (
                      Edit.activates d'.now expires,
                      Move.apply d'.now expires from,
                      Edited-after t _ c.tables d'.tables (cc, cc) h,
                    ))
                    (set_active-After t expires d'))
                (set_binding_applied-After t.id d)))
            (upsert_binding-After _ c)))
        c

  pub revoke_tx-After :
      (reason : String)
      → After
          (λ u d.
            Committed
              (Moves Action.ticket_revoke)
              id
              actor
              Action.ticket_revoke
              (Payload.because reason)
              c.tables
              u
              d.tables)
          (revoke_tx id reason actor)
          c
  unfolding revoke_tx
  revoke_tx-After reason =
      transition-After _ id _ _ actor _ _
        (λ t c from.
          After-imp (λ _ d h. (Edit.sets c.now Status.revoking, Move.revoke c.now from, h))
            (set_status-After t Status.revoking c))
        c

  pub revoke_pending_tx-After :
      After
        (λ u d.
          Committed
            (Moves Action.policy_revoke_pending)
            id
            actor
            Action.policy_revoke_pending
            Payload.empty
            c.tables
            u
            d.tables)
        (revoke_pending_tx id actor)
        c
  unfolding revoke_pending_tx
  revoke_pending_tx-After =
      transition-After _ id _ _ actor _ _
        (λ t c from.
          After-imp (λ _ d h. (Edit.sets c.now Status.revoke_pending, Move.stall c.now from, h))
            (set_status-After t Status.revoke_pending c))
        c

  pub close_tx-After :
      (reason : String)
      → After
          (λ u d.
            Committed
              (Moves Action.policy_revoke)
              id
              actor
              Action.policy_revoke
              (Payload.because reason)
              c.tables
              u
              d.tables)
          (close_tx id reason actor)
          c
  unfolding close_tx
  close_tx-After reason =
      transition-After _ id _ _ actor _ _
        (λ t c from.
          After-imp (λ _ d h. (Edit.closes c.now Status.closed, Move.finish c.now from, h))
            (close_ticket-After t Status.closed c))
        c
