-- ===== src/Web/Store/Laws/Later.antt =====
-- What was recorded for a request answers it after any later commits that rewind no run of its session.
use agens_web.Prelude.{
  ◌≡◌, ◌⊎◌, refl, String, ℕ, List, ◌∷◌, [], ◌++◌, Option, none, some, subst, inl, inr, Option-cases,
  Bool-cases, str_eq, ◌&&◌, arith,
}
use agens_web.Python.{Fields}
use agens_web.Web.Store.Rows.{Db, SessionRow, MutationRow, Mutation, Result, ok, err, ◌>>=◌}
use agens_web.Web.Store.Commit.{
  record_if, record_mutation, mutation_response, update_session, swap_with, swap_version, settle,
  commit_session_mutation,
}
use agens_web.Web.Store.Laws.Steps.{Holds}
use agens_web.Web.Store.Laws.Recorded.{IsForward, Kept, write_parts-Kept}
use agens_web.Web.Store.Laws.Replay.{Answered, commit_session_mutation_seen}

-- The databases that further commits lead to, of any sessions and whatever each has read before;
-- none of them rewinds a run of the session.
pub data Later (s : String) (db : Db) : Db → Type 0 where
  at_once : Later s db db
  after_commit :
      (m : Mutation) (seen db' : Db)
      → IsForward s m
      → Later s db db'
      → Later s db (commit_session_mutation m seen db').1

mutation_response-appended :
    (s q : String) (ms : List MutationRow) (m : MutationRow) (r : Fields)
    → mutation_response s q ms ≡ some r
    → mutation_response s q (ms ++ m ∷ []) ≡ some r
mutation_response-appended s q [] m r h = absurd (ground arith)
mutation_response-appended s q (n ∷ ms) m r h =
    elim (Bool-cases (str_eq n.session_id s && str_eq n.request_id q)) [
      | inl t ↦ rw (t) (rw (t) at h)
      | inr t ↦ rw (t) (mutation_response-appended s q ms m r (rw (t) at h))
    ]

module _ (s q : String) (m : Mutation) (r : Fields) where
  record_if-Kept :
      (o : Option Fields) (v : ℕ) (f : Fields) (db : Db)
      → Kept s q m r db
      → Holds
          (λ (a : Fields × Db). Kept s q m r a.1)
          (record_if o m v f db >>= λ done. ok (f, done))
  record_if-Kept (some _) v f db h = tt
  record_if-Kept none v f db h = mutation_response-appended s q db.session_mutations _ r h

  finish-Kept :
      (v : ℕ) (a : Fields × Db)
      → Kept s q m r a.1
      → Holds
          (λ (b : Fields × Db). Kept s q m r b.1)
          (record_mutation m v a.0 a.1 >>= λ done. ok (a.0, done))
  unfolding record_mutation
  finish-Kept v a h = record_if-Kept _ v a.0 a.1 h

  settle-Kept :
      (db : Db) (t : Result (Fields × Db))
      → Kept s q m r db
      → Holds (λ (a : Fields × Db). Kept s q m r a.1) t
      → Kept s q m r (settle db t).1
  settle-Kept db (ok _) h k = k
  settle-Kept db (err _) h k = h

  swap_with-Kept :
      (o : Option (List SessionRow × ℕ)) (db : Db)
      → IsForward s m
      → Kept s q m r db
      → Holds (λ (a : Fields × Db). Kept s q m r a.1) (swap_with m o db)
  swap_with-Kept (some (rows, v)) db n h =
      write_parts-Kept s q m r (λ (a : Fields × Db). Kept s q m r a.1) v _ (finish-Kept v) n h
  swap_with-Kept none db n h =
      elim (Option-cases (mutation_response m.session_id m.request_id db.session_mutations)) [
        | inl e ↦ rw (e) tt
        | inr (_, e) ↦ rw (e) h
      ]

  commit_session_mutation-Kept :
      (seen db : Db)
      → IsForward s m
      → Kept s q m r db
      → Kept s q m r (commit_session_mutation m seen db).1
  unfolding commit_session_mutation swap_version
  commit_session_mutation-Kept seen db n h =
      elim (Option-cases (mutation_response m.session_id m.request_id seen.session_mutations)) [
        | inl e ↦ rw (e) (
            settle-Kept db (swap_with m (update_session m db.sessions) db) h
              (swap_with-Kept _ db n h))
        | inr (_, e) ↦ rw (e) h
      ]

Later-Kept :
    (s q : String) (r : Fields) (db db' : Db)
    → Later s db db'
    → mutation_response s q db.session_mutations ≡ some r
    → mutation_response s q db'.session_mutations ≡ some r
Later-Kept s q r db _ at_once h = h
Later-Kept s q r db _ (after_commit m seen db' n later) h =
    commit_session_mutation-Kept s q m r seen db' n (Later-Kept s q r db db' later h)

-- The response of a successful commit answers the same request at any later time, whatever else the
-- later request holds, and the database stays as it is: at once, or after any further commits, none
-- of which rewinds a run of the session. The read that the first commit starts from holds no response
-- for the request, or the one that the database holds.
pub commit_session_mutation_again :
    (m m' : Mutation) (seen db done db' : Db) (r : Fields)
    → (mutation_response m.session_id m.request_id seen.session_mutations ≡ none)
      ⊎ (mutation_response m.session_id m.request_id seen.session_mutations
          ≡ mutation_response m.session_id m.request_id db.session_mutations)
    → commit_session_mutation m seen db ≡ (ok r, done)
    → Later m.session_id done db'
    → m'.session_id ≡ m.session_id
    → m'.request_id ≡ m.request_id
    → commit_session_mutation m' db' db' ≡ (ok r, db')
unfolding commit_session_mutation
commit_session_mutation_again m m' seen db done db' r h e later s q =
    let kept =
      Later-Kept m.session_id m.request_id r done db' later
        (subst (Answered m) e (commit_session_mutation_seen m seen db h)) in
    rw (s, q, kept) refl
