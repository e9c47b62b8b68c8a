-- ===== src/Domain/Decide.antt =====
-- Lemmas on src/domain/account.rs: which commands an account accepts, and that those keep its
-- balance from going negative.
use banking_es_feature_redis.Prelude.{◌≡◌, ◌↔◌, true, false, List, [], ◌∷◌, arith, some, ok, panic}
use banking_es_feature_redis.Decimal.{Decimal}
use banking_es_feature_redis.Domain.Events.{
  Uuid, AccountEvent, account_created, money_deposited, money_withdrawn, account_closed,
}
use banking_es_feature_redis.Domain.Commands.{
  AccountCommand, create_account, deposit_money, withdraw_money, close_account,
}
use banking_es_feature_redis.Domain.Aggregate.{Account, apply_event, apply_events, handle_command}

-- The event that records an accepted command.
abbrev pub recorded : {D : Type 0} → AccountCommand D → Uuid → AccountEvent D
recorded (create_account i owner initial) u = account_created i owner initial
recorded (deposit_money i amount) u = money_deposited i amount u
recorded (withdraw_money i amount) u = money_withdrawn i amount u
recorded (close_account i reason) u = account_closed i reason

module _ {D : Type 0} ⦃d : Decimal D⦄ where
  -- The rules of the bank, independent of the order in which the code tests them.
  abbrev pub Accepts : Account D → AccountCommand D → Type 0
  Accepts a (create_account _ _ initial) = d.lt initial d.zero ≡ false
  Accepts a (deposit_money _ amount) = (a.is_active ≡ true) × (d.lt d.zero amount ≡ true)
  Accepts a (withdraw_money _ amount) =
      (a.is_active ≡ true) × (d.lt d.zero amount ≡ true) × (d.lt a.balance amount ≡ false)
  Accepts a (close_account _ _) = a.is_active ≡ true

  -- The balance is not negative.
  abbrev pub IsSolvent : Account D → Type 0
  IsSolvent a = d.lt a.balance d.zero ≡ false

  -- `handle_command` accepts a command exactly if the rules `Accepts` hold of the account, and
  -- then its events are the one event that records the command.
  pub handle_command-ok_iff :
      (a : Account D) (command : AccountCommand D) (u : Uuid) (events : List (AccountEvent D))
      → (handle_command a command u ≡ ok events)
        ↔ (Accepts a command × (events ≡ recorded command u ∷ []))
  unfolding handle_command
  handle_command-ok_iff a (create_account _ _ _) u events = (λ h. ground arith, λ h. ground arith)
  handle_command-ok_iff a (deposit_money _ _) u events = (λ h. ground arith, λ h. ground arith)
  handle_command-ok_iff a (withdraw_money _ _) u events = (λ h. ground arith, λ h. ground arith)
  handle_command-ok_iff a (close_account _ _) u events = (λ h. ground arith, λ h. ground arith)

  pub handle_command-ne-panic :
      (a : Account D) (command : AccountCommand D) (u : Uuid)
      → handle_command a command u ≡ panic
      → ⊥
  unfolding handle_command
  handle_command-ne-panic a (create_account _ _ _) u h = ground arith
  handle_command-ne-panic a (deposit_money _ _) u h = ground arith
  handle_command-ne-panic a (withdraw_money _ _) u h = ground arith
  handle_command-ne-panic a (close_account _ _) u h = ground arith

  accepted-IsSolvent :
      (a b : Account D) (command : AccountCommand D) (u : Uuid)
      → Accepts a command
      → IsSolvent a
      → apply_event a (recorded command u) ≡ some b
      → IsSolvent b
  unfolding apply_event
  accepted-IsSolvent a b (create_account _ _ _) u acc s h = ground arith
  accepted-IsSolvent a b (deposit_money _ x) u acc s h = ground (
    arith,
    d.add_ge a.balance x b.balance,
    d.lt_asymm d.zero x,
    d.lt_trans b.balance d.zero a.balance,
  )
  accepted-IsSolvent a b (withdraw_money _ x) u acc s h =
      ground (arith, d.sub_nonneg a.balance x b.balance)
  accepted-IsSolvent a b (close_account _ _) u acc s h = ground arith

  -- If the balance of an account is not negative, it is not negative after the events of an
  -- accepted command are applied.
  pub handle_command-IsSolvent :
      (a b : Account D) (command : AccountCommand D) (u : Uuid) (events : List (AccountEvent D))
      → IsSolvent a
      → handle_command a command u ≡ ok events
      → apply_events a events ≡ some b
      → IsSolvent b
  unfolding apply_events
  handle_command-IsSolvent a b command u events s h e =
      let (acc, one) = (handle_command-ok_iff a command u events).0 h in
      accepted-IsSolvent a b command u acc s (ground (arith, (rw one at e)))
