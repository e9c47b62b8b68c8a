-- ===== src/Projections/Reads.antt =====
-- src/infrastructure/projections.rs: what `get_account` answers after a read and after a flush.
use banking_es_feature_redis.Prelude.{
  ℕ, ◌-◌, ◌*◌, String, ◌≡◌, refl, sym, ap, ◌∙◌, true, Option, none, some, List, [], ◌∷◌, ltb, ok,
  arith, lookup, nat_eq, lookup-insert_self,
}
use banking_es_feature_redis.Prelude.Actions.{Action, ◌>>◌, lift}
use banking_es_feature_redis.Domain.{Uuid}
use banking_es_feature_redis.Projections.{AccountProjection}
use banking_es_feature_redis.Projections.Store.{
  CacheEntry, ProjectionStore, is_fresh, hit, missed, timed, send_with, count, row_of, entry_for,
  cache_found, load_account, account_or_load, get_account,
}

module _ {D : Type 0} where
  -- A fresh entry is the answer, and no statement is sent for it.
  pub get_account-fresh :
      (now took : ℕ) (account_id : Uuid) (e : CacheEntry (AccountProjection D))
      (s : ProjectionStore D)
      → lookup account_id s.account_cache ≡ some e
      → is_fresh now e ≡ true
      → get_account now took account_id s
        ≡ (ok (some e.entry), record s { metrics = hit s.metrics })
  unfolding get_account
  get_account-fresh now took account_id e s here fresh = rw here (rw fresh refl)

  abbrev query_with :
      (now took : ℕ)
      → Uuid
      → List (Option String)
      → Option (AccountProjection D)
      → Action (ProjectionStore D) String (Option (AccountProjection D))
  query_with now took account_id faults found = do
    count missed
    send_with faults
    cache_found now account_id found
    count (timed took)
    lift (ok found)

  -- An account that is found goes into the cache.
  cached_if_found :
      (now took : ℕ) (account_id : Uuid) (faults : List (Option String))
      (found : Option (AccountProjection D)) (a : AccountProjection D) (s t : ProjectionStore D)
      → query_with now took account_id faults found s ≡ (ok (some a), t)
      → lookup account_id t.account_cache ≡ some (entry_for now a s)
  cached_if_found now took account_id [] none a s t h = absurd (ground arith)
  cached_if_found now took account_id [] (some b) a s t h =
      let same : b ≡ a = ground arith in
      sym (ap (λ x. lookup account_id x.1.account_cache) h)
      ∙ lookup-insert_self account_id (entry_for now b s) s.account_cache
      ∙ ap (λ c. some (entry_for now c s)) same
  cached_if_found now took account_id (none ∷ later) none a s t h = absurd (ground arith)
  cached_if_found now took account_id (none ∷ later) (some b) a s t h =
      let same : b ≡ a = ground arith in
      sym (ap (λ x. lookup account_id x.1.account_cache) h)
      ∙ lookup-insert_self account_id (entry_for now b s) s.account_cache
      ∙ ap (λ c. some (entry_for now c s)) same
  cached_if_found now took account_id (some e ∷ later) found a s t h = absurd (ground arith)

  load_account-found :
      (now took : ℕ) (account_id : Uuid) (a : AccountProjection D) (s t : ProjectionStore D)
      → load_account now took account_id s ≡ (ok (some a), t)
      → lookup account_id t.account_cache ≡ some (entry_for now a s)
  unfolding load_account
  load_account-found now took account_id a s t h =
      cached_if_found now took account_id s.faults (row_of account_id s.tables.accounts) a s t h

  -- An account that had no entry in the cache and that a query of `get_account` found is answered
  -- again, while the cache of accounts is as that call left it and its time to live has not
  -- passed, whatever has become of the tables and the connection meanwhile, and then only the
  -- count of hits changes.
  pub get_account-get_account :
      (now took later took' : ℕ) (account_id : Uuid) (a : AccountProjection D)
      (s t u : ProjectionStore D)
      → lookup account_id s.account_cache ≡ none
      → get_account now took account_id s ≡ (ok (some a), t)
      → u.account_cache ≡ t.account_cache
      → ltb (later - now) (s.config.cache_ttl_secs * 1000) ≡ true
      → get_account later took' account_id u ≡ (ok (some a), record u { metrics = hit u.metrics })
  unfolding get_account
  get_account-get_account now took later took' account_id a s t u none_yet first same within =
      get_account-fresh later took' account_id (entry_for now a s) u
        (ap (lookup account_id) same
          ∙ load_account-found now took account_id a s t
              (sym (ap (λ e. account_or_load now took account_id e s) none_yet) ∙ first))
        within
