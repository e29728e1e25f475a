-- ===== src/Web/Store/Laws/Replay.antt =====
-- A request is carried out once: its recorded response answers every later attempt.
use agens_web.Prelude.{
  ◌≡◌, ◌⊎◌, refl, String, str_eq, ℕ, List, [], ◌∷◌, ◌++◌, Option, none, some, true, ◌&&◌, inl, inr,
  Option-cases, Bool-cases, sym, arith, eq_iff,
}
use agens_web.Python.{Fields}
use agens_web.Web.Store.Rows.{Db, SessionRow, MutationRow, Mutation, Result, ok, err, ◌>>=◌}
use agens_web.Web.Store.Commit.{
  for_user, flag, start_for, rewind_for, turn_for, consume_for, terminal_for, save_for, record_if,
  record_mutation, mutation_response, response_with_version, write_parts, swap_with, swap_version,
  settle, commit_with, commit_session_mutation,
}
use agens_web.Web.Store.Laws.Steps.{Holds, Holds-bind}

pub Holds-any {ℓ} : {A : Type ℓ} (m : Result A) → Holds (λ (_ : A). Unit {0}) m
Holds-any (ok a) = tt
Holds-any (err e) = tt

str_eq_self : (s : String) → str_eq s s ≡ true
str_eq_self s = grind (arith, eq_iff s s)

-- The response of a request that has just been recorded, and was not before.
mutation_response-append :
    (s q : String) (ms : List MutationRow) (m : MutationRow)
    → mutation_response s q ms ≡ none
    → m.session_id ≡ s
    → m.request_id ≡ q
    → mutation_response s q (ms ++ m ∷ []) ≡ some m.response
mutation_response-append s q [] m h e f = rw (e, f, str_eq_self s, str_eq_self q) refl
mutation_response-append s q (n ∷ ms) m h e f =
    let rest = mutation_response-append s q ms m in
    elim (Bool-cases (str_eq n.session_id s && str_eq n.request_id q)) [
      | inl t ↦ ground arith
      | inr t ↦ ground arith
    ]

module _ (m : Mutation) where
  abbrev pub Recorded : Fields × Db → Type 0
  Recorded r = mutation_response m.session_id m.request_id r.1.session_mutations ≡ some r.0

  record_if-Recorded :
      (v : ℕ) (r : Fields) (db : Db) (o : Option Fields)
      → mutation_response m.session_id m.request_id db.session_mutations ≡ o
      → Holds Recorded (record_if o m v r db >>= λ done. ok (r, done))
  record_if-Recorded v r db none h =
      mutation_response-append m.session_id m.request_id db.session_mutations _ h refl refl
  record_if-Recorded v r db (some _) h = tt

  finish-Recorded :
      (v : ℕ) (a : Fields × Db)
      → Holds Recorded (record_mutation m v a.0 a.1 >>= λ done. ok (a.0, done))
  unfolding record_mutation
  finish-Recorded v a = record_if-Recorded v a.0 a.1 _ refl

  write_parts-Recorded : (v : ℕ) (db : Db) → Holds Recorded (write_parts m v db)
  unfolding write_parts
  write_parts-Recorded v db =
      Holds-bind Recorded (start_for m (for_user m.user_id m.start_run) db) _
        (Holds-any (start_for m (for_user m.user_id m.start_run) db))
        λ a _.
          Holds-bind Recorded (rewind_for m (for_user m.user_id m.rewind_run) a) _
            (Holds-any (rewind_for m (for_user m.user_id m.rewind_run) a))
            λ b _.
              Holds-bind Recorded (turn_for m (for_user m.user_id m.turn) b) _
                (Holds-any (turn_for m (for_user m.user_id m.turn) b))
                λ c _. finish-Recorded v (
                  save_for m (response_with_version m.response v) (for_user m.user_id m.save_slot) (
                    terminal_for m (for_user m.user_id m.terminal)
                      (consume_for (for_user m.user_id (flag m.consume_legacy_bonuses)) c)))

  swap_with-Recorded :
      (o : Option (List SessionRow × ℕ)) (db : Db) → Holds Recorded (swap_with m o db)
  swap_with-Recorded (some (rows, v)) db = write_parts-Recorded v _
  swap_with-Recorded none db =
      elim (Option-cases (mutation_response m.session_id m.request_id db.session_mutations)) [
        | inl e ↦ rw (e) tt
        | inr (r, e) ↦ rw (e) e
      ]

  -- The response of a successful commit is the one recorded for the request.
  abbrev pub Answered : Result Fields × Db → Type 0
  Answered (ok r, db) = mutation_response m.session_id m.request_id db.session_mutations ≡ some r
  Answered (err e, db) = Unit

  settle-Answered : (db : Db) (t : Result (Fields × Db)) → Holds Recorded t → Answered (settle db t)
  settle-Answered db (ok _) h = h
  settle-Answered db (err _) h = tt

  commit_with-Answered :
      (o : Option Fields) (db : Db)
      → (o ≡ none) ⊎ (o ≡ mutation_response m.session_id m.request_id db.session_mutations)
      → Answered (commit_with o m db)
  unfolding swap_version
  commit_with-Answered none db h = settle-Answered db (swap_version m db) (swap_with-Recorded _ db)
  commit_with-Answered (some r) db (inl e) = ground arith
  commit_with-Answered (some r) db (inr e) = sym e

-- A successful commit gives the response that is recorded for its request, where the read that it
-- starts from holds no response for the request, or the one that the database holds.
pub commit_session_mutation_seen :
    (m : Mutation) (seen db : Db)
    → (mutation_response m.session_id m.request_id seen.session_mutations ≡ none)
      ⊎ (mutation_response m.session_id m.request_id seen.session_mutations
          ≡ mutation_response m.session_id m.request_id db.session_mutations)
    → Answered m (commit_session_mutation m seen db)
unfolding commit_session_mutation
commit_session_mutation_seen m seen db h = commit_with-Answered m _ db h

-- A new request that succeeds is answered by the response that it recorded.
pub commit_session_mutation-Answered :
    (m : Mutation) (db : Db)
    → mutation_response m.session_id m.request_id db.session_mutations ≡ none
    → Answered m (commit_session_mutation m db db)
commit_session_mutation-Answered m db n = commit_session_mutation_seen m db db (inl n)
