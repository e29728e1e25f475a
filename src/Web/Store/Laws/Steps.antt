-- ===== src/Web/Store/Laws/Steps.antt =====
-- A property of the database that every primitive write keeps is kept by the transaction.
use agens_web.Prelude.{String, ℕ, List, Option, none, some, inl, inr, Option-cases}
use agens_web.Python.{Fields}
use agens_web.Web.Store.Rows.{
  Db, SessionRow, MutationRow, SaveRow, Mutation, RunInfo, Turn, Terminal, SaveSlot, Result, ok,
  err, ◌>>=◌,
}
use agens_web.Web.Store.Runs.{ensure_active_run, rewind_active_run, insert_turn}
use agens_web.Web.Store.Rewards.{finalize_terminal, consume_bonuses}
use agens_web.Web.Store.Commit.{
  for_user, flag, start_for, rewind_for, turn_for, consume_for, terminal_for, save_for, record_if,
  record_mutation, upsert_save, mutation_response, response_with_version, write_parts,
  update_session, swap_with, swap_version, settle, commit_session_mutation,
}

-- What a successful result satisfies.
abbrev pub Holds {ℓ κ} : {A : Type ℓ} → (A → Type κ) → Result A → Type κ
Holds P (ok a) = P a
Holds P (err e) = Unit

pub Holds-bind {ℓ κ μ ν} :
    {A : Type ℓ} {B : Type κ} {P : A → Type μ} (Q : B → Type ν) (m : Result A) (f : A → Result B)
    → Holds P m
    → ((a : A) → P a → Holds Q (f a))
    → Holds Q (m >>= f)
Holds-bind Q (ok a) f h k = k a h
Holds-bind Q (err e) f h k = tt

-- `P` is kept by each primitive write of the transaction, that of the session row left aside.
pub record Writes {ℓ} (P : Db → Type ℓ) : Type ℓ where
  pub on_start :
      (s u : String) (i : RunInfo) (now : ℕ) (db : Db) → P db → P (ensure_active_run s u i now db)
  pub on_rewind :
      (s u : String) (i : RunInfo) (now : ℕ) (db : Db)
      → P db
      → Holds P (rewind_active_run s u i now db)
  pub on_turn : (s q : String) (t : Turn) (db : Db) → P db → Holds P (insert_turn s q t db)
  pub on_consume : (u : String) (db : Db) → P db → P (consume_bonuses u db)
  pub on_terminal :
      (s u : String) (t : Terminal) (now : ℕ) (db : Db) → P db → P (finalize_terminal s u t now db)
  pub on_save : (rows : List SaveRow) (db : Db) → P db → P (record db { saves = rows })
  pub on_record :
      (rows : List MutationRow) (db : Db) → P db → P (record db { session_mutations = rows })

module _ {ℓ} (P : Db → Type ℓ) (w : Writes P) (m : Mutation) where
  start_for-keeps : (o : Option (String × RunInfo)) (db : Db) → P db → Holds P (start_for m o db)
  start_for-keeps none db h = h
  start_for-keeps (some (u, i)) db h = w.on_start m.session_id u i m.now db h

  rewind_for-keeps : (o : Option (String × RunInfo)) (db : Db) → P db → Holds P (rewind_for m o db)
  rewind_for-keeps none db h = h
  rewind_for-keeps (some (u, i)) db h = w.on_rewind m.session_id u i m.now db h

  turn_for-keeps : (o : Option (String × Turn)) (db : Db) → P db → Holds P (turn_for m o db)
  turn_for-keeps none db h = h
  turn_for-keeps (some (u, t)) db h = w.on_turn m.session_id m.request_id t db h

  consume_for-keeps : (o : Option (String × Unit {0})) (db : Db) → P db → P (consume_for o db)
  consume_for-keeps none db h = h
  consume_for-keeps (some (u, _)) db h = w.on_consume u db h

  terminal_for-keeps : (o : Option (String × Terminal)) (db : Db) → P db → P (terminal_for m o db)
  terminal_for-keeps none db h = h
  terminal_for-keeps (some (u, t)) db h = w.on_terminal m.session_id u t m.now db h

  save_for-keeps :
      (r : Fields) (o : Option (String × SaveSlot)) (db : Db) → P db → P (save_for m r o db).1
  save_for-keeps r none db h = h
  save_for-keeps r (some (u, slot)) db h = w.on_save (upsert_save m u slot db.saves).0 db h

  record_if-keeps :
      (o : Option Fields) (v : ℕ) (r : Fields) (db : Db) → P db → Holds P (record_if o m v r db)
  record_if-keeps (some _) v r db h = tt
  record_if-keeps none v r db h = w.on_record _ db h

  finish-keeps :
      (v : ℕ) (a : Fields × Db)
      → P a.1
      → Holds (λ (r : Fields × Db). P r.1) (record_mutation m v a.0 a.1 >>= λ done. ok (a.0, done))
  unfolding record_mutation
  finish-keeps v a h =
      Holds-bind {P = P} (λ (r : Fields × Db). P r.1) (record_mutation m v a.0 a.1)
        (λ done. ok (a.0, done))
        (record_if-keeps (mutation_response m.session_id m.request_id a.1.session_mutations) v a.0
          a.1 h)
        λ d hd. hd

  -- What every write keeps, the parts of a transaction keep.
  pub write_parts-keeps :
      (v : ℕ) (db : Db) → P db → Holds (λ (r : Fields × Db). P r.1) (write_parts m v db)
  unfolding write_parts
  write_parts-keeps v db h =
      Holds-bind {P = P} (λ (r : Fields × Db). P r.1)
        (start_for m (for_user m.user_id m.start_run) db) _ (start_for-keeps _ db h)
        λ a ha.
          Holds-bind {P = P} (λ (r : Fields × Db). P r.1)
            (rewind_for m (for_user m.user_id m.rewind_run) a) _ (rewind_for-keeps _ a ha)
            λ b hb.
              Holds-bind {P = P} (λ (r : Fields × Db). P r.1)
                (turn_for m (for_user m.user_id m.turn) b) _ (turn_for-keeps _ b hb)
                λ c hc.
                  finish-keeps v
                    (save_for m (response_with_version m.response v)
                      (for_user m.user_id m.save_slot)
                      (terminal_for m (for_user m.user_id m.terminal)
                        (consume_for (for_user m.user_id (flag m.consume_legacy_bonuses)) c)))
                    (save_for-keeps _ _ _ (terminal_for-keeps _ _ (consume_for-keeps _ c hc)))

  settle-keeps :
      (db : Db) (r : Result (Fields × Db))
      → P db
      → Holds (λ (r : Fields × Db). P r.1) r
      → P (settle db r).1
  settle-keeps db (ok _) h k = k
  settle-keeps db (err _) h k = h

  swap_with-keeps :
      ((rows : List SessionRow) (db : Db) → P db → P (record db { sessions = rows }))
      → (o : Option (List SessionRow × ℕ)) (db : Db) → P db
      → Holds (λ (r : Fields × Db). P r.1) (swap_with m o db)
  swap_with-keeps on_sessions (some (rows, v)) db h = write_parts-keeps v _ (on_sessions rows db h)
  swap_with-keeps on_sessions none db h =
      elim (Option-cases (mutation_response m.session_id m.request_id db.session_mutations)) [
        | inl e ↦ rw (e) tt
        | inr (r, e) ↦ rw (e) h
      ]

  -- What the session's row and every other write keep, a commit keeps, whatever was seen before.
  pub commit_session_mutation-keeps :
      ((rows : List SessionRow) (db : Db) → P db → P (record db { sessions = rows }))
      → (seen db : Db) → P db
      → P (commit_session_mutation m seen db).1
  unfolding commit_session_mutation swap_version
  commit_session_mutation-keeps on_sessions seen db h =
      elim (Option-cases (mutation_response m.session_id m.request_id seen.session_mutations)) [
        | inl e ↦ rw (e) (
            settle-keeps db (swap_with m (update_session m db.sessions) db) h
              (swap_with-keeps on_sessions _ db h))
        | inr (r, e) ↦ rw (e) h
      ]
