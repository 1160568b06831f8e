-- ===== src/Ledger/Journal/Post/Frame.antt =====
-- What Post of ledger/internal/journal/post.go leaves alone: the orders, their transitions, the halt
-- flag and the entries that are there.
use convert_usdt_from_trc.Base.{
  ◌≡◌, sym, ap, ◌∙◌, subst, Bool, true, Option, none, some, List, map, All, arith,
}
use convert_usdt_from_trc.Ledger.Rows.{World, Env, EntryRequest, Entry}
use convert_usdt_from_trc.Ledger.Monad.{ok, >>=-eq-ok}
use convert_usdt_from_trc.Ledger.Journal.Hash.{canonical_hash}
use convert_usdt_from_trc.Ledger.Journal.Validate.{ResolvedLine, validate}
use convert_usdt_from_trc.Ledger.Journal.Validate.Balanced.{validate_sound}
use convert_usdt_from_trc.Ledger.Journal.Post.{to_apply, insert_entry, created_or_existing, post}
use convert_usdt_from_trc.Base.Table.{exists}
use convert_usdt_from_trc.Base.Int64.{IsInt64}
use convert_usdt_from_trc.Ledger.Journal.Sound.{written, with_entry}
use convert_usdt_from_trc.Ledger.Journal.Post.Books.{
  Inserted, insert_entry-eq_ok, resolve_existing-eq_ok, post_lines-eq,
}

abbrev pub SameOrders : World → World → Type 0
SameOrders w v = (v.orders ≡ w.orders) × (v.transitions ≡ w.transitions) × (v.system ≡ w.system)

pub SameOrders-eq : (w v : World) → w ≡ v → SameOrders w v
SameOrders-eq w v e = (
  ap (λ (t : World). t.orders) (sym e),
  ap (λ (t : World). t.transitions) (sym e),
  ap (λ (t : World). t.system) (sym e),
)

pub SameOrders-trans : (u v w : World) → SameOrders u v → SameOrders v w → SameOrders u w
SameOrders-trans u v w (a, b, c) (x, y, z) = (x ∙ a, y ∙ b, z ∙ c)

finish-SameOrders :
    (env : Env) (req : EntryRequest) (hash : _) (rs : List ResolvedLine) (inserted : Option Entry)
    (w v : World) {entry : Entry} {w' : World}
    → Inserted env req hash w v inserted
    → created_or_existing env req hash rs inserted v ≡ ok entry w'
    → SameOrders w w'
finish-SameOrders env req hash rs none w v {entry} {w'} ins e =
    SameOrders-eq w w' (sym (resolve_existing-eq_ok req hash e ∙ ins))
finish-SameOrders env req hash rs (some row) w v {entry} {w'} ins e =
    SameOrders-trans w v w' (SameOrders-eq (with_entry row w) v (sym ins.1)) (
      SameOrders-eq (written env row.id (map to_apply rs) v) w'
        (sym (post_lines-eq env row rs v e).1))

pub post-SameOrders :
    (env : Env) (req : EntryRequest) (entry : Entry) (w w' : World)
    → All (λ l. IsInt64 l.amount.units) req.lines
    → post env req w ≡ ok entry w'
    → SameOrders w w'
unfolding post
post-SameOrders env req entry w w' range e =
    let (rs, w1, checked, e1) = >>=-eq-ok (validate req) _ e in
    let (inserted, w2, ins, e2) = >>=-eq-ok (insert_entry env req (canonical_hash env req)) _ e1 in
    SameOrders-trans w w1 w' (SameOrders-eq w w1 (validate_sound req range checked).0) (
      finish-SameOrders env req (canonical_hash env req) rs inserted w1 w2
        (insert_entry-eq_ok env req (canonical_hash env req) inserted w1 w2 ins) e2)

finish-exists :
    (env : Env) (req : EntryRequest) (hash : _) (rs : List ResolvedLine) (inserted : Option Entry)
    (q : Entry → Bool) (w v : World) {entry : Entry} {w' : World}
    → Inserted env req hash w v inserted
    → created_or_existing env req hash rs inserted v ≡ ok entry w'
    → exists q w.entries ≡ true
    → exists q w'.entries ≡ true
finish-exists env req hash rs none q w v ins e h =
    rw (ap (λ (t : World). t.entries) (resolve_existing-eq_ok req hash e ∙ ins)) h
finish-exists env req hash rs (some row) q w v ins e h =
    rw
      (ap (λ (t : World). t.entries) ((post_lines-eq env row rs v e).1)
        ∙ ap (λ (t : World). t.entries) ins.1)
      (ground (arith, h))

-- Post removes no entry.
pub post-exists :
    (env : Env) (req : EntryRequest) (entry : Entry) (q : Entry → Bool) (w w' : World)
    → All (λ l. IsInt64 l.amount.units) req.lines
    → post env req w ≡ ok entry w'
    → exists q w.entries ≡ true
    → exists q w'.entries ≡ true
unfolding post
post-exists env req entry q w w' range e h =
    let (rs, w1, checked, e1) = >>=-eq-ok (validate req) _ e in
    let (inserted, w2, ins, e2) = >>=-eq-ok (insert_entry env req (canonical_hash env req)) _ e1 in
    finish-exists env req (canonical_hash env req) rs inserted q w1 w2
      (insert_entry-eq_ok env req (canonical_hash env req) inserted w1 w2 ins) e2
      (subst (λ (t : World). exists q t.entries ≡ true) (validate_sound req range checked).0 h)
