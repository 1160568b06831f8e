-- ===== src/Ledger/Halt.antt =====
-- ledger/internal/halt/halt.go: halting the ledger, clearing the halt, and the cached flag.
use convert_usdt_from_trc.Base.{
  ℕ, ◌+◌, Bool, true, false, ◌||◌, none, some, ◌∷◌, ltb, if◌then◌else◌,
}
use convert_usdt_from_trc.Base.Text.{String, str_eq}
use convert_usdt_from_trc.Ledger.Rows.{
  Env, Detail, SystemState, HaltLogRow, HaltCache, set_halt, clear_halt, clear_requires_operator,
  halt_cache_not_configured,
}
use convert_usdt_from_trc.Ledger.Monad.{ok, err, M, ◌>>◌, raise_if, gets, modify}

abbrev pub reason_post_settlement_reorg : String
reason_post_settlement_reorg = "POST_SETTLEMENT_REORG"

abbrev pub reason_trial_balance_broken : String
reason_trial_balance_broken = "TRIAL_BALANCE_BROKEN"

abbrev pub reason_cache_divergence : String
reason_cache_divergence = "CACHE_DIVERGENCE"

abbrev pub reason_balance_drift : String
reason_balance_drift = "BALANCE_DRIFT"

pub record SetParams : Type 0 where
  pub reason : String
  pub detail : Detail
  pub actor : String

pub record ClearParams : Type 0 where
  pub actor : String
  pub note : String

-- maxCacheAge, a second in nanoseconds.
abbrev pub max_cache_age : ℕ
max_cache_age = 1000000000

unfoldable pub is_halted : M Bool
is_halted = gets (λ w. w.system.halted)

-- The row's reason; NULL reads as the empty string.
unfoldable pub reason : M String
reason w = elim w.system.halt_reason [ none ↦ ok "" w | some r ↦ ok r w ]

module _ (env : Env) where
  abbrev pub halted_state : SetParams → SystemState → SystemState
  halted_state p s = record s {
    halted = true;
    halt_reason = some p.reason;
    halt_detail = some p.detail;
    halted_at = some env.now;
    halted_by = some p.actor;
  }

  abbrev set_row : SetParams → HaltLogRow
  set_row p = record {
    action = set_halt;
    reason = some p.reason;
    detail = some p.detail;
    note = none;
    actor = p.actor;
  }

  unfoldable pub set : SetParams → M (Unit {0})
  set p = do
    modify (λ w. record w { system = halted_state p w.system })
    modify (λ w. record w { halt_log = set_row p ∷ w.halt_log })

  abbrev cleared_state : ClearParams → SystemState → SystemState
  cleared_state p s = record s {
    halted = false;
    cleared_at = some env.now;
    cleared_by = some p.actor;
  }

  abbrev clear_row : ClearParams → HaltLogRow
  clear_row p = record {
    action = clear_halt;
    reason = none;
    detail = none;
    note = some p.note;
    actor = p.actor;
  }

  unfoldable pub clear : ClearParams → M (Unit {0})
  clear p = do
    raise_if (str_eq p.actor "" || str_eq p.note "") clear_requires_operator
    modify (λ w. record w { system = cleared_state p w.system })
    modify (λ w. record w { halt_log = clear_row p ∷ w.halt_log })

  -- Cache.IsHalted: a value less than a second old, or a fresh one from the cache's own connection.
  -- `time.Since` is negative where the stored time lies ahead.
  abbrev cached_halted : HaltCache → M Bool
  cached_halted c w =
      if ltb env.clock (c.updated_at + max_cache_age)
      then ok c.halted w
      else ok env.committed_halted (record w {
        halt_cache = some (record { halted = env.committed_halted; updated_at = env.clock });
      })

  -- The guard on a nil cache is Transition's.
  unfoldable pub cache_is_halted : M Bool
  cache_is_halted w = elim w.halt_cache [
    | none ↦ err halt_cache_not_configured w
    | some c ↦ cached_halted c w
  ]
