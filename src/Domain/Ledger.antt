-- ===== src/Domain/Ledger.antt =====
-- An account as a line of a ledger, which says what the commands of src/domain/account.rs are to do
-- without events or versions.
use banking_es_feature_redis.Prelude.{
  String, ◌≡◌, refl, Bool, true, false, not, ◌&&◌, Option, none, some, List, [], ◌∷◌, ◌++◌,
  if◌then◌else◌, Outcome, ok, err, panic, arith, Bool-cases, Option-cases, Outcome-cases, inl, inr,
}
use banking_es_feature_redis.Decimal.{Decimal}
use banking_es_feature_redis.Domain.Events.{Uuid, AccountEvent}
use banking_es_feature_redis.Domain.Commands.{
  AccountCommand, create_account, deposit_money, withdraw_money, close_account,
}
use banking_es_feature_redis.Domain.Aggregate.{
  Account, AccountError, apply_event, apply_events, handle_command,
}
use banking_es_feature_redis.Domain.Apply.{apply_events-append}

pub record Ledger (D : Type 0) : Type 0 where
  pub owner : String
  pub balance : D
  pub is_open : Bool

-- What the ledger shows of an account.
abbrev pub shown : {D : Type 0} → Account D → Ledger D
shown a = record { owner = a.owner_name; balance = a.balance; is_open = a.is_active }

module _ {D : Type 0} ⦃d : Decimal D⦄ where
  abbrev pub booked : Ledger D → Option D → Option (Ledger D)
  booked l none = none
  booked l (some balance) = some (record l { balance = balance })

  -- The bank's business; `none` is a refusal or an amount that overflows.
  unfoldable pub transact : Ledger D → AccountCommand D → Option (Ledger D)
  transact l (create_account _ owner initial) =
      if d.lt initial d.zero
      then none
      else some (record { owner = owner; balance = initial; is_open = true })
  transact l (deposit_money _ amount) =
      if l.is_open && d.lt d.zero amount then booked l (d.add l.balance amount) else none
  transact l (withdraw_money _ amount) =
      if l.is_open && (d.lt d.zero amount && not (d.lt l.balance amount))
      then booked l (d.sub l.balance amount)
      else none
  transact l (close_account _ _) = if l.is_open then some (record l { is_open = false }) else none

  unfoldable pub transact_all : Ledger D → List (AccountCommand D × Uuid) → Option (Ledger D)
  transact_all l [] = some l
  transact_all l ((command, _) ∷ commands) = elim (transact l command) [
    | none ↦ none
    | some l' ↦ transact_all l' commands
  ]

  abbrev pub shown_if : Option (Account D) → Option (Ledger D)
  shown_if none = none
  shown_if (some a) = some (shown a)

  -- What a decided command makes of the account.
  abbrev pub obeyed :
      Account D → Outcome (AccountError D) (List (AccountEvent D)) → Option (Account D)
  obeyed a (ok events) = apply_events a events
  obeyed a (err e) = none
  obeyed a panic = none

  transact-obeyed :
      (a : Account D) (command : AccountCommand D) (u : Uuid)
      → transact (shown a) command ≡ shown_if (obeyed a (handle_command a command u))
  unfolding transact handle_command apply_events apply_event
  transact-obeyed a (create_account i owner initial) u = elim (Bool-cases (d.lt initial d.zero)) [
    | inl _ ↦ ground arith
    | inr _ ↦ ground arith
  ]
  transact-obeyed a (deposit_money i amount) u = elim (Option-cases (d.add a.balance amount)) [
    | inl _ ↦ ground arith
    | inr _ ↦ ground arith
  ]
  transact-obeyed a (withdraw_money i amount) u = elim (Option-cases (d.sub a.balance amount)) [
    | inl _ ↦ ground arith
    | inr _ ↦ ground arith
  ]
  transact-obeyed a (close_account i reason) u = ground arith

  -- The journal of the commands, each decided by the account that the events before it have made;
  -- `none` if one is refused or an amount overflows.
  unfoldable pub journal_of :
      Account D → List (AccountCommand D × Uuid) → Option (List (AccountEvent D))
  journal_of a [] = some []
  journal_of a ((command, u) ∷ commands) = elim (handle_command a command u) [
    | err e ↦ none
    | panic ↦ none
    | ok events ↦ elim (apply_events a events) [
      | none ↦ none
      | some b ↦ elim (journal_of b commands) [ none ↦ none | some later ↦ some (events ++ later) ]
    ]
  ]

  -- The account that a journal, if there is one, makes when it is replayed.
  abbrev pub replayed : Account D → Option (List (AccountEvent D)) → Option (Account D)
  replayed a none = none
  replayed a (some journal) = apply_events a journal

  -- For any commands one after another, each decided by `handle_command` on the account that the
  -- events before have made: the replay of their whole journal on the first account shows the
  -- owner, the balance and the activity that the same business gives in a ledger without events,
  -- and there is no such account exactly if the ledger refuses a command or an amount overflows.
  pub transact_all-journal_of :
      (a : Account D) (commands : List (AccountCommand D × Uuid))
      → transact_all (shown a) commands ≡ shown_if (replayed a (journal_of a commands))
  unfolding transact_all journal_of
  transact_all-journal_of a [] = unfold apply_events in refl
  transact_all-journal_of a ((command, u) ∷ commands) =
      let step = transact-obeyed a command u in
      elim (Outcome-cases (handle_command a command u)) [
        | inr (inl (e, refused)) ↦ ground (arith, step, refused)
        | inr (inr panics) ↦ ground (arith, step, panics)
        | inl (events, decided) ↦ elim (Option-cases (apply_events a events)) [
          | inl overflows ↦ ground (arith, step, decided, overflows)
          | inr (b, applied) ↦
              let rest = transact_all-journal_of b commands in
              elim (Option-cases (journal_of b commands)) [
                | inl fails ↦ ground (arith, step, decided, applied, rest, fails)
                | inr (later, journal) ↦ ground (
                  arith,
                  step,
                  decided,
                  applied,
                  rest,
                  journal,
                  apply_events-append a events later,
                )
              ]
        ]
      ]
