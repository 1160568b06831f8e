-- ===== src/Ledger/Journal/Post/Replay.antt =====
-- Idempotency of Post (ledger/internal/journal/post.go): what a retried request gets.
use convert_usdt_from_trc.Base.{
  ℕ, suc, ◌≡◌, ◌≢◌, refl, sym, ap, ◌∙◌, true, false, Option, none, some, List, [], ◌∷◌, map, ltb,
  arith, length, Bool-cases, inl, inr, subst, ==_iff, Option-cases,
}
use convert_usdt_from_trc.Base.Table.{find}
use convert_usdt_from_trc.Base.Text.{String, str_eq, eq_refl}
use convert_usdt_from_trc.Ledger.Rows.{
  World, Env, Line, EntryRequest, Entry, replayed, idempotency_conflict, HashPayload,
}
use convert_usdt_from_trc.Ledger.Monad.{ok, err, raise_if, >>=-eq-ok, ok_injective, raise_if-eq-ok}
use convert_usdt_from_trc.Ledger.Accounts.{get_by_code}
use convert_usdt_from_trc.Ledger.Journal.Hash.{canonical_hash, hash_payload}
use convert_usdt_from_trc.Ledger.Journal.Validate.{
  ResolvedLine, Sums, validate, check_line, check_lines, put_sum, validate_idempotency_key,
  max_lines, check_sums,
}
use convert_usdt_from_trc.Ledger.Journal.Post.{
  to_apply, insert_entry, resolve_existing, created_or_existing, post, get_entry_by_idempotency_key,
  load_lines, stored_lines, key_taken, bytes_equal,
}
use convert_usdt_from_trc.Ledger.Journal.Post.Books.{
  Inserted, insert_entry-eq_ok, resolve_existing-eq_ok, post_lines-eq,
}
use convert_usdt_from_trc.Ledger.Journal.Sound.{written}

bytes_equal_refl : (bs : List ℕ) → bytes_equal bs bs ≡ true
bytes_equal_refl [] = refl
bytes_equal_refl (b ∷ bs) = ground (arith, bytes_equal_refl bs, ==_iff b b)

-- Validation reads the accounts alone, and changes nothing.
check_line-same_accounts :
    (l : Line) (sums : Sums) (r : _) (w w' v : World)
    → v.accounts ≡ w.accounts
    → check_line l sums w ≡ ok r w'
    → (w ≡ w') × (check_line l sums v ≡ ok r v)
unfolding check_line get_by_code
check_line-same_accounts l sums r w w' v same e = ground arith

check_lines-same_accounts :
    (i : ℕ) (ls : List Line) (sums : Sums) (r : List ResolvedLine × Sums) (w w' v : World)
    → v.accounts ≡ w.accounts
    → check_lines i ls sums w ≡ ok r w'
    → (w ≡ w') × (check_lines i ls sums v ≡ ok r v)
unfolding check_lines
check_lines-same_accounts i [] sums r w w' v same e = ground arith
check_lines-same_accounts i (l ∷ ls) sums r w w' v same e =
    let (p, w1, first, e') = >>=-eq-ok (check_line l sums) _ e in
    let (q, w2, rest, e'') = >>=-eq-ok (check_lines (suc i) ls (put_sum p.0.asset p.1 sums)) _ e' in
    let here = check_line-same_accounts l sums p w w1 v same first in
    let later =
      check_lines-same_accounts (suc i) ls (put_sum p.0.asset p.1 sums) q w1 w2 v
        (same ∙ ap (λ (t : World). t.accounts) here.0) rest in
    let done = ok_injective e'' in
    (here.0 ∙ later.0 ∙ done.1, rw (here.1, later.1) (ap (λ t. ok t v) done.0))

key_checked :
    (key : String) (u : Unit {0}) (w w' v : World)
    → validate_idempotency_key key w ≡ ok u w'
    → (w ≡ w') × (validate_idempotency_key key v ≡ ok tt v)
unfolding validate_idempotency_key
key_checked key u w w' v e = ground arith

check_sums-anywhere :
    (r : List ResolvedLine × Sums) (rs : List ResolvedLine) (w w' v : World)
    → check_sums r w ≡ ok rs w'
    → (w ≡ w') × (check_sums r v ≡ ok rs v)
check_sums-anywhere r rs w w' v e = ground arith

pub validate-same_accounts :
    (req : EntryRequest) (rs : List ResolvedLine) (w w' v : World)
    → v.accounts ≡ w.accounts
    → validate req w ≡ ok rs w'
    → (w ≡ w') × (validate req v ≡ ok rs v)
unfolding validate
validate-same_accounts req rs w w' v same e =
    let (u, w1, key, e1) = >>=-eq-ok (validate_idempotency_key req.idempotency_key) _ e in
    let (u2, w2, few, e2) = >>=-eq-ok (raise_if (ltb (length req.lines) 2) _) _ e1 in
    let (u3, w3, many, e3) = >>=-eq-ok (raise_if (ltb max_lines (length req.lines)) _) _ e2 in
    let (r, w4, loop, e4) = >>=-eq-ok (check_lines 0 req.lines []) _ e3 in
    let k = key_checked req.idempotency_key u w w1 v key in
    let (enough, same1) = raise_if-eq-ok _ _ few in
    let (capped, same2) = raise_if-eq-ok _ _ many in
    let l =
      check_lines-same_accounts 0 req.lines [] r w3 w4 v
        (same ∙ ap (λ (t : World). t.accounts) (k.0 ∙ same1 ∙ same2)) loop in
    let s = check_sums-anywhere r rs w4 w' v e4 in
    (k.0 ∙ same1 ∙ same2 ∙ l.0 ∙ s.0, rw (k.1, enough, capped, l.1) s.1)

-- The row that a key names, and the payload hash that it keeps.
abbrev pub Records : World → EntryRequest → List ℕ → ℕ → Type 0
Records w req hash id =
    (row : Entry) × (find (λ (e : Entry). str_eq e.idempotency_key req.idempotency_key) w.entries
      ≡ some row)
    × (row.payload_hash ≡ hash)
    × (row.id ≡ id)

bytes_equal_sound : (as' bs : List ℕ) → bytes_equal as' bs ≡ true → as' ≡ bs
bytes_equal_sound [] [] h = refl
bytes_equal_sound [] (b ∷ bs) h = cc
bytes_equal_sound (a ∷ as') [] h = cc
bytes_equal_sound (a ∷ as') (b ∷ bs) h = ground (arith, bytes_equal_sound as' bs)

resolve_existing-Records :
    (req : EntryRequest) (hash : List ℕ) {entry : Entry} (w : World) {w' : World}
    → resolve_existing req hash w ≡ ok entry w'
    → Records w req hash entry.id
unfolding resolve_existing get_entry_by_idempotency_key load_lines
resolve_existing-Records req hash {entry} w {w'} e =
    elim (Option-cases
      (find (λ (x : Entry). str_eq x.idempotency_key req.idempotency_key) w.entries)) [
        | inl missing ↦ ground arith
        | inr (row, found) ↦
            (row, found, bytes_equal_sound row.payload_hash hash (ground arith), ground arith)
      ]

resolve_existing-again :
    (req : EntryRequest) (hash : List ℕ) (id : ℕ) (w : World)
    → Records w req hash id
    → (again : Entry) × (resolve_existing req hash w ≡ ok again w)
      × (again.id ≡ id)
      × (again.outcome ≡ replayed)
unfolding resolve_existing get_entry_by_idempotency_key load_lines
resolve_existing-again req hash id w (row, found, same_hash, same_id) = (
  record row { lines = stored_lines row.id w; outcome = replayed },
  rw (found, same_hash, bytes_equal_refl hash),
  same_id,
  refl,
)

exists-find :
    (key : String) (es : List Entry) (row : Entry)
    → find (λ (e : Entry). str_eq e.idempotency_key key) es ≡ some row
    → key_taken key es ≡ true
exists-find key [] row h = cc
exists-find key (e ∷ es) row h = ground (arith, exists-find key es row)

bytes_equal-differ : (as' bs : List ℕ) → bs ≢ as' → bytes_equal as' bs ≡ false
bytes_equal-differ as' bs h = elim (Bool-cases (bytes_equal as' bs)) [
  | inl same ↦ absurd (h (sym (bytes_equal_sound as' bs same)))
  | inr other ↦ other
]

resolve_existing-differs :
    (req : EntryRequest) (stored hash : List ℕ) (id : ℕ) (w : World)
    → Records w req stored id
    → hash ≢ stored
    → resolve_existing req hash w ≡ err idempotency_conflict w
unfolding resolve_existing get_entry_by_idempotency_key
resolve_existing-differs req stored hash id w (row, found, same_hash, same_id) h =
    rw (found, same_hash, bytes_equal-differ stored hash h)

finish-Records :
    (env : Env) (req : EntryRequest) (hash : List ℕ) (rs : List ResolvedLine)
    (inserted : Option Entry) (w v : World) (entry : Entry) (w' : World)
    → Inserted env req hash w v inserted
    → created_or_existing env req hash rs inserted v ≡ ok entry w'
    → Records w' req hash entry.id × (w'.accounts ≡ w.accounts)
finish-Records env req hash rs none w v entry w' ins e =
    let kept = resolve_existing-eq_ok req hash e in
    (
      subst (λ t. Records t req hash entry.id) (sym kept) (resolve_existing-Records req hash v e),
      ap (λ (t : World). t.accounts) (kept ∙ ins),
    )
finish-Records env req hash rs (some row) w v entry w' ins e =
    let (result, tables) = post_lines-eq env row rs v e in
    let made = tables ∙ ap (written env row.id (map to_apply rs)) ins.1 in
    (
      subst (λ t. Records t req hash entry.id) (sym made)
          (
            row,
            rw (ap (λ (t : Entry). t.idempotency_key) ins.0, eq_refl req.idempotency_key),
            ap (λ (t : Entry). t.payload_hash) ins.0,
            sym (ap (λ (t : Entry). t.id) result),
          ),
      ap (λ (t : World). t.accounts) made,
    )

-- What a successful Post leaves behind: its key names a row with its hash, and its request still
-- passes validation.
pub post-Records :
    (env : Env) (req : EntryRequest) (entry : Entry) (w w' : World)
    → post env req w ≡ ok entry w'
    → Records w' req (canonical_hash env req) entry.id
      × ((rs : List ResolvedLine) × (validate req w' ≡ ok rs w'))
unfolding post
post-Records env req entry w w' e =
    let (rs, w1, checked, e1) = >>=-eq-ok (validate req) _ e in
    let (inserted, w2, ins, e2) = >>=-eq-ok (insert_entry env req (canonical_hash env req)) _ e1 in
    let (recorded, same) =
      finish-Records env req (canonical_hash env req) rs inserted w1 w2 entry w'
        (insert_entry-eq_ok env req (canonical_hash env req) inserted w1 w2 ins) e2 in
    let unchanged = (validate-same_accounts req rs w w1 w refl checked).0 in
    (
      recorded,
      (
        rs,
        (validate-same_accounts req rs w w1 w'
            (same ∙ ap (λ (t : World). t.accounts) (sym unchanged)) checked).1,
      ),
    )

post-validated :
    (env : Env) (req : EntryRequest) (entry : Entry) (w w' : World)
    → post env req w ≡ ok entry w'
    → (rs : List ResolvedLine) × (w1 : World) × (validate req w ≡ ok rs w1)
unfolding post
post-validated env req entry w w' e =
    let (rs, w1, checked, e1) = >>=-eq-ok (validate req) _ e in (rs, w1, checked)

post-taken :
    (env : Env) (req : EntryRequest) (rs : List ResolvedLine) (w : World)
    → validate req w ≡ ok rs w
    → key_taken req.idempotency_key w.entries ≡ true
    → post env req w ≡ resolve_existing req (canonical_hash env req) w
unfolding post insert_entry
post-taken env req rs w checked taken = rw (checked, taken)

Records-key_taken :
    (req : EntryRequest) (hash : List ℕ) (id : ℕ) (w : World)
    → Records w req hash id
    → key_taken req.idempotency_key w.entries ≡ true
Records-key_taken req hash id w recorded =
    exists-find req.idempotency_key w.entries recorded.0 recorded.1

-- A Post under a key that is in use finds the entry of this key, with the hash of its request, and
-- changes nothing.
pub post-known :
    (env : Env) (req : EntryRequest) (entry : Entry) (w w' : World)
    → key_taken req.idempotency_key w.entries ≡ true
    → post env req w ≡ ok entry w'
    → (w' ≡ w) × Records w req (canonical_hash env req) entry.id
post-known env req entry w w' taken e =
    let (rs, w1, checked) = post-validated env req entry w w' e in
    let here = (validate-same_accounts req rs w w1 w refl checked).1 in
    let found = sym (post-taken env req rs w here taken) ∙ e in
    (
      resolve_existing-eq_ok req (canonical_hash env req) found,
      resolve_existing-Records req (canonical_hash env req) w found,
    )

-- A retry: after a Post that succeeded, the same request gets the same entry once more, as a replay,
-- at any later time, and no table changes.
pub post-post :
    (env env' : Env) (req : EntryRequest) (entry : Entry) (w w' : World)
    → env'.digest ≡ env.digest
    → post env req w ≡ ok entry w'
    → (again : Entry) × (post env' req w' ≡ ok again w')
      × (again.id ≡ entry.id)
      × (again.outcome ≡ replayed)
post-post env env' req entry w w' same e =
    let (recorded, (rs, checked)) = post-Records env req entry w w' e in
    let hash_eq : canonical_hash env' req ≡ canonical_hash env req =
      unfold canonical_hash in ap (λ (d : HashPayload → List ℕ). d (hash_payload req)) same in
    let taken = Records-key_taken req (canonical_hash env req) entry.id w' recorded in
    let (again, result, id, kind) =
      resolve_existing-again req (canonical_hash env req) entry.id w' recorded in
    (again, rw (post-taken env' req rs w' checked taken, hash_eq) result, id, kind)

-- A key that a successful Post has used is refused to every request with another payload hash, which
-- gets ErrIdempotencyConflict once it passes validation, and nothing is written.
pub post-conflict :
    (env : Env) (req other : EntryRequest) (entry : Entry) (rs : List ResolvedLine) (w w' : World)
    → post env req w ≡ ok entry w'
    → other.idempotency_key ≡ req.idempotency_key
    → validate other w' ≡ ok rs w'
    → canonical_hash env other ≢ canonical_hash env req
    → post env other w' ≡ err idempotency_conflict w'
post-conflict env req other entry rs w w' e key checked differs =
    let (recorded, rest) = post-Records env req entry w w' e in
    let other_taken : key_taken other.idempotency_key w'.entries ≡ true =
      rw key (Records-key_taken req (canonical_hash env req) entry.id w' recorded) in
    rw (post-taken env other rs w' checked other_taken) (
      resolve_existing-differs other (canonical_hash env req) (canonical_hash env other) entry.id w'
        (recorded.0, rw key recorded.1, recorded.2, recorded.3) differs)
