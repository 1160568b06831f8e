-- ===== src/Ledger/Journal/Post/Books.antt =====
-- Posting an entry keeps the books of ledger/internal/journal sound.
use convert_usdt_from_trc.Base.{
  ℕ, suc, ◌+◌, ◌<◌, ◌≡◌, refl, sym, ap, ◌∙◌, true, Option, none, some, List, [], ◌∷◌, map,
  if◌then◌else◌, arith, All, subst, ==_iff,
}
use convert_usdt_from_trc.Base.Int.{pos, ◌+ℤ◌}
use convert_usdt_from_trc.Base.Int64.{IsInt64}
use convert_usdt_from_trc.Base.Table.{find}
use convert_usdt_from_trc.Base.Text.{String, str_eq}
use convert_usdt_from_trc.Money.{Asset, Amount, asset_eq}
use convert_usdt_from_trc.Ledger.Rows.{World, Env, Account, Line, EntryRequest, Entry, created}
use convert_usdt_from_trc.Ledger.Monad.{ok, >>=-eq-ok, ok_injective}
use convert_usdt_from_trc.Ledger.Journal.Hash.{canonical_hash}
use convert_usdt_from_trc.Ledger.Journal.Validate.{ResolvedLine, validate}
use convert_usdt_from_trc.Ledger.Journal.Validate.Balanced.{
  ResolvesExactly, requested_units, validate_sound,
}
use convert_usdt_from_trc.Ledger.Journal.Post.{
  LineToApply, to_apply, posted_line, insert_entry, entry_row, post_lines, resolve_existing,
  created_or_existing, post, get_entry_by_idempotency_key, load_lines,
}
use convert_usdt_from_trc.Ledger.Journal.Sound.{
  IsSound, is_known, batch_asset_units, written, insert_lines-eq, written-IsSound, with_entry,
  with_entry-IsSound, posted_first,
}

-- The batch carries what the request carries.
batch-requested :
    (w : World) (i : ℕ) (a : Asset) (ls : List Line) (rs : List ResolvedLine)
    → ResolvesExactly w i ls rs
    → batch_asset_units a (map to_apply rs) ≡ requested_units a ls
batch-requested w i a [] [] h = refl
batch-requested w i a [] (r ∷ rs) h = absurd h
batch-requested w i a (l ∷ ls) [] h = absurd h
batch-requested w i a (l ∷ ls) (r ∷ rs) h =
    ap
      (λ t.
        (if asset_eq t.asset a then t.units else pos 0) +ℤ batch_asset_units a (map to_apply rs))
      h.1
    ∙ ap (λ t. (if asset_eq l.amount.asset a then l.amount.units else pos 0) +ℤ t)
        (batch-requested w (suc i) a ls rs h.3)

exists-find :
    (code : String) (accounts : List Account) (acc : Account)
    → find (λ a. str_eq a.code code) accounts ≡ some acc
    → is_known accounts acc.id ≡ true
exists-find code [] acc h = cc
exists-find code (a ∷ as') acc h = ground (arith, exists-find code as' acc, ==_iff acc.id acc.id)

batch-known :
    (w : World) (i : ℕ) (ls : List Line) (rs : List ResolvedLine)
    → ResolvesExactly w i ls rs
    → All (λ (l : LineToApply). is_known w.accounts l.account_id ≡ true) (map to_apply rs)
batch-known w i [] [] h = tt
batch-known w i [] (r ∷ rs) h = absurd h
batch-known w i (l ∷ ls) [] h = absurd h
batch-known w i (l ∷ ls) (r ∷ rs) h =
    (exists-find l.account_code w.accounts r.account h.2.1, batch-known w (suc i) ls rs h.3)

batch-range :
    (w : World) (i : ℕ) (ls : List Line) (rs : List ResolvedLine)
    → All (λ l. IsInt64 l.amount.units) ls
    → ResolvesExactly w i ls rs
    → All (λ (l : LineToApply). IsInt64 l.units) (map to_apply rs)
batch-range w i [] [] r h = tt
batch-range w i [] (x ∷ rs) r h = absurd h
batch-range w i (l ∷ ls) [] r h = absurd h
batch-range w i (l ∷ ls) (x ∷ rs) r h =
    (subst (λ (t : Amount). IsInt64 t.units) (sym h.1) r.0, batch-range w (suc i) ls rs r.1 h.3)

-- What the insertion does: nothing where the key is taken, else one row with the id that it drew.
abbrev pub Inserted : Env → EntryRequest → List ℕ → World → World → Option Entry → Type 0
Inserted env req hash w v none = v ≡ w
Inserted env req hash w v (some row) =
    (row ≡ entry_row env w.next_entry req hash none) × (v ≡ with_entry row w)

pub insert_entry-eq_ok :
    (env : Env) (req : EntryRequest) (hash : List ℕ) (inserted : Option Entry) (w v : World)
    → insert_entry env req hash w ≡ ok inserted v
    → Inserted env req hash w v inserted
unfolding insert_entry
insert_entry-eq_ok env req hash none w v e = ground arith
insert_entry-eq_ok env req hash (some row) w v e = ground arith

pub resolve_existing-eq_ok :
    (req : EntryRequest) (hash : List ℕ) {entry : Entry} {w w' : World}
    → resolve_existing req hash w ≡ ok entry w'
    → w' ≡ w
unfolding resolve_existing get_entry_by_idempotency_key load_lines
resolve_existing-eq_ok req hash e = ground arith

pub post_lines-eq :
    (env : Env) (row : Entry) (rs : List ResolvedLine) (w : World) {entry : Entry} {w' : World}
    → post_lines env row rs w ≡ ok entry w'
    → (entry ≡ record row { lines = map posted_line (map to_apply rs); outcome = created })
      × (w' ≡ written env row.id (map to_apply rs) w)
unfolding post_lines
post_lines-eq env row rs w e =
    let done = ok_injective (rw (insert_lines-eq env row.id (map to_apply rs) w) at e) in
    (sym done.0, sym done.1)

finish-IsSound :
    (env : Env) (req : EntryRequest) (hash : List ℕ) (rs : List ResolvedLine)
    (inserted : Option Entry) (w v : World) {entry : Entry} {w' : World}
    → IsSound w
    → ((a : Asset) → batch_asset_units a (map to_apply rs) ≡ pos 0)
    → All (λ (l : LineToApply). is_known w.accounts l.account_id ≡ true) (map to_apply rs)
    → All (λ (l : LineToApply). IsInt64 l.units) (map to_apply rs)
    → Inserted env req hash w v inserted
    → created_or_existing env req hash rs inserted v ≡ ok entry w'
    → IsSound w'
finish-IsSound env req hash rs none w v s zeros known range ins e =
    subst IsSound (sym (resolve_existing-eq_ok req hash e ∙ ins)) s
finish-IsSound env req hash rs (some row) w v s zeros known range ins e =
    let posted : row.id < w.next_entry + 1 = rw (ap (λ (r : Entry). r.id) ins.0) (omega arith) in
    subst IsSound
      (sym ((post_lines-eq env row rs v e).1 ∙ ap (written env row.id (map to_apply rs)) ins.1))
      (written-IsSound env row.id (map to_apply rs) (with_entry row w)
        (with_entry-IsSound row w (ap (λ (r : Entry). r.id) ins.0) s) posted
        (posted_first row w.entries) zeros known range)

-- Post keeps the books sound, whether it writes a new entry or finds the key already used: the
-- cached balance of every account is the sum of its lines, every entry and the whole ledger sum to
-- zero in every asset, and every line names a known account and an entry whose row is in the table.
pub post-IsSound :
    (env : Env) (req : EntryRequest) {entry : Entry} {w w' : World}
    → All (λ l. IsInt64 l.amount.units) req.lines
    → IsSound w
    → post env req w ≡ ok entry w'
    → IsSound w'
unfolding post
post-IsSound env req {entry} {w} {w'} range s e =
    let (rs, w1, checked, e1) = >>=-eq-ok (validate req) _ e in
    let (inserted, w2, ins, e2) = >>=-eq-ok (insert_entry env req (canonical_hash env req)) _ e1 in
    let (same, resolved, zeros, few, many) = validate_sound req range checked in
    let s1 : IsSound w1 = subst IsSound same s in
    finish-IsSound env req (canonical_hash env req) rs inserted w1 w2 s1
      (λ a. batch-requested w 0 a req.lines rs resolved ∙ zeros a)
      (subst
        (λ (t : World).
          All (λ (l : LineToApply). is_known t.accounts l.account_id ≡ true) (map to_apply rs))
        same (batch-known w 0 req.lines rs resolved))
      (batch-range w 0 req.lines rs range resolved)
      (insert_entry-eq_ok env req (canonical_hash env req) inserted w1 w2 ins) e2
