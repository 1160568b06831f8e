-- ===== src/Ledger/Orders/Table.antt =====
-- transitionTable of ledger/internal/orders/transitions.go as a graph: which orders pay out, and what
-- must come first.
use convert_usdt_from_trc.Base.{
  ℕ, ◌+◌, ◌≡◌, refl, Bool, true, false, ◌||◌, Option, none, some, is_some, arith, Bool-cases, inl,
  inr,
}
use convert_usdt_from_trc.Ledger.Rows.{
  State, quoted, funded, screened, dispatching, settled, held, refunded, expired,
}
use convert_usdt_from_trc.Ledger.Orders.{Rule, transition_table, terminal, state_eq}

-- The states whose entries send money to somebody outside.
abbrev pub pays_out : State → Bool
pays_out dispatching = true
pays_out settled = true
pays_out refunded = true
pays_out s = false

abbrev pub blocked_while_halted : Option Rule → Bool
blocked_while_halted none = true
blocked_while_halted (some r) = r.halt_blocked

abbrev pub needs_entry : Option Rule → Bool
needs_entry none = true
needs_entry (some r) = r.requires_entry

-- Every move into a state that pays out is blocked while the ledger is halted and carries an entry.
pub pays_out-blocked :
    (from to : State)
    → pays_out to ≡ true
    → (blocked_while_halted (transition_table from to) ≡ true)
      × (needs_entry (transition_table from to) ≡ true)
unfolding transition_table
pays_out-blocked quoted dispatching h = (refl, refl)
pays_out-blocked funded dispatching h = (refl, refl)
pays_out-blocked screened dispatching h = (refl, refl)
pays_out-blocked dispatching dispatching h = (refl, refl)
pays_out-blocked settled dispatching h = (refl, refl)
pays_out-blocked held dispatching h = (refl, refl)
pays_out-blocked refunded dispatching h = (refl, refl)
pays_out-blocked expired dispatching h = (refl, refl)
pays_out-blocked (State.other s) dispatching h = (refl, refl)
pays_out-blocked quoted settled h = (refl, refl)
pays_out-blocked funded settled h = (refl, refl)
pays_out-blocked screened settled h = (refl, refl)
pays_out-blocked dispatching settled h = (refl, refl)
pays_out-blocked settled settled h = (refl, refl)
pays_out-blocked held settled h = (refl, refl)
pays_out-blocked refunded settled h = (refl, refl)
pays_out-blocked expired settled h = (refl, refl)
pays_out-blocked (State.other s) settled h = (refl, refl)
pays_out-blocked quoted refunded h = (refl, refl)
pays_out-blocked funded refunded h = (refl, refl)
pays_out-blocked screened refunded h = (refl, refl)
pays_out-blocked dispatching refunded h = (refl, refl)
pays_out-blocked settled refunded h = (refl, refl)
pays_out-blocked held refunded h = (refl, refl)
pays_out-blocked refunded refunded h = (refl, refl)
pays_out-blocked expired refunded h = (refl, refl)
pays_out-blocked (State.other s) refunded h = (refl, refl)
pays_out-blocked from to h = cc

-- The moves of the table.
abbrev pub Legal : State → State → Type 0
Legal from to = is_some (transition_table from to) ≡ true

-- A terminal state has no move out of it.
pub terminal-final : (from to : State) → terminal from ≡ true → ¬ Legal from to
unfolding transition_table terminal
terminal-final settled to h l = cc
terminal-final refunded to h l = cc
terminal-final expired to h l = cc
terminal-final from to h l = cc

-- The states that an order goes through, the newest first.
pub data Route (start : State) : State → Type 0 where
  begin : Route start start
  move : {s t : State} → Route start s → Legal s t → Route start t

abbrev pub visits : {start s : State} → State → Route start s → Bool
visits {start} {s} t begin = state_eq t s
visits {start} {s} t (move p l) = state_eq t s || visits t p

-- Where an order can be that has not been screened.
abbrev pub unpaid : State → Bool
unpaid quoted = true
unpaid funded = true
unpaid held = true
unpaid refunded = true
unpaid expired = true
unpaid s = false

unpaid_step :
    (s t : State) → unpaid s ≡ true → Legal s t → state_eq screened t ≡ false → unpaid t ≡ true
unfolding transition_table
unpaid_step quoted funded u l n = refl
unpaid_step quoted expired u l n = refl
unpaid_step funded held u l n = refl
unpaid_step funded refunded u l n = refl
unpaid_step funded quoted u l n = refl
unpaid_step held refunded u l n = refl
unpaid_step s t u l n = cc

-- An order that has never been in `screened` since it was quoted is neither dispatching nor settled:
-- it is quoted, funded, held, refunded or expired.
pub unscreened-unpaid :
    (s : State) (p : Route quoted s) → visits screened p ≡ false → unpaid s ≡ true
unscreened-unpaid s begin h = refl
unscreened-unpaid t (move {s} p l) h =
    unpaid_step s t (unscreened-unpaid s p (ground arith)) l (ground arith)

-- An order reaches a state in a number of moves of the table, none of them out of a terminal state.
pub data Walk : State → ℕ → Type 0 where
  quote : Walk quoted 0
  step : {s t : State} {n : ℕ} → Walk s n → Legal s t → terminal s ≡ false → Walk t (n + 1)

pub Legal-open : (from to : State) → Legal from to → terminal from ≡ false
Legal-open from to l = elim (Bool-cases (terminal from)) [
  | inl closed ↦ absurd (terminal-final from to closed l)
  | inr running ↦ running
]
