-- ===== src/Web/Store/Laws/Versions.antt =====
-- The version of a session: a commit meets the one that it expects and moves it by one.
use agens_web.Prelude.{
  ◌≡◌, ◌≢◌, refl, sym, ◌∙◌, ap, subst, String, str_eq, ℕ, ◌+◌, ◌==◌, List, [], ◌∷◌, Option, none,
  some, Bool, true, false, if◌then◌else◌, inl, inr, Bool-cases, any_of, arith,
}
use agens_web.Python.{Fields}
use agens_web.Web.Store.Rows.{
  Db, SessionRow, RunRow, Mutation, Terminal, Result, ok, err, version_conflict,
}
use agens_web.Web.Store.Runs.{
  ensure_active_run, rewind_active_run, insert_turn, same_turn, find_run, completed_run,
}
use agens_web.Web.Store.Rewards.{finalize_terminal, grant_rewards, grant_if, consume_bonuses}
use agens_web.Web.Store.Commit.{
  mutation_response, write_parts, update_session, stored, keep_row, swap_with, swap_version, settle,
  commit_session_mutation,
}
use agens_web.Web.Store.Laws.Steps.{Holds, Writes, write_parts-keeps}

abbrev pub version_of : String → List SessionRow → Option ℕ
version_of id [] = none
version_of id (s ∷ ss) = if str_eq s.id id then some s.version else version_of id ss

-- The rows of sessions that the other writes leave as they are.
abbrev Same : List SessionRow → Db → Type 0
Same rows db = db.sessions ≡ rows

grant_if-Same :
    (rows : List SessionRow) (s u : String) (t : Terminal) (now : ℕ) (db : Db)
    (o : Option (List RunRow))
    → Same rows db
    → Same rows (grant_if s u t now db o)
unfolding grant_rewards
grant_if-Same rows s u t now db none h = h
grant_if-Same rows s u t now db (some _) h = h

same : (rows : List SessionRow) → Writes (Same rows)
unfolding finalize_terminal ensure_active_run rewind_active_run insert_turn consume_bonuses
same rows = record {
  on_start = λ s u i now db h. h;
  on_rewind = λ s u i now db h. elim (Bool-cases (completed_run (find_run s db.game_runs))) [
    | inl e ↦ rw (e) tt
    | inr e ↦ rw (e) h
  ];
  on_turn = λ s q t db h. elim (Bool-cases (any_of (same_turn s q t.turn_no) db.game_turns)) [
    | inl e ↦ rw (e) tt
    | inr e ↦ rw (e) h
  ];
  on_consume = λ u db h. h;
  on_terminal =
      λ s u t now db h. grant_if-Same rows s u t now (ensure_active_run s u t.info now db) _ h;
  on_save = λ _ db h. h;
  on_record = λ _ db h. h;
}

module _ (m : Mutation) where
  -- What the update of the row gives: the version was the expected one, and is the next one now.
  abbrev Moved : List SessionRow → Option (List SessionRow × ℕ) → Type 0
  Moved ss none = version_of m.session_id ss ≢ some m.expected_version
  Moved ss (some (rows, v)) =
      (version_of m.session_id ss ≡ some m.expected_version)
      × (version_of m.session_id rows ≡ some (m.expected_version + 1))

  keep_row-Moved :
      (s : SessionRow) (ss : List SessionRow) (o : Option (List SessionRow × ℕ))
      → str_eq s.id m.session_id ≡ false
      → Moved ss o
      → Moved (s ∷ ss) (keep_row s o)
  keep_row-Moved s ss none t h = λ e. h (rw (t) at e)
  keep_row-Moved s ss (some (rows, v)) t h = rw (t) h

  own_row-Moved :
      (s : SessionRow) (ss : List SessionRow) (b : Bool)
      → str_eq s.id m.session_id ≡ true
      → s.version == m.expected_version ≡ b
      → Moved (s ∷ ss) (if b then some (stored m s ∷ ss, s.version + 1) else none)
  own_row-Moved s ss true t e = (rw (t) (ground arith), rw (t) (ground arith))
  own_row-Moved s ss false t e = λ q. ground (arith)

  update_session-Moved : (ss : List SessionRow) → Moved ss (update_session m ss)
  update_session-Moved [] = λ e. ground arith
  update_session-Moved (s ∷ ss) =
      let rest = update_session-Moved ss in
      elim (Bool-cases (str_eq s.id m.session_id)) [
        | inl t ↦
            subst
              (λ b. Moved (s ∷ ss) (
                if b
                then (if s.version == m.expected_version
                    then some (stored m s ∷ ss, s.version + 1)
                    else none)
                else keep_row s (update_session m ss)))
              (sym t) (own_row-Moved s ss _ t refl)
        | inr t ↦
            subst
              (λ b. Moved (s ∷ ss) (
                if b
                then (if s.version == m.expected_version
                    then some (stored m s ∷ ss, s.version + 1)
                    else none)
                else keep_row s (update_session m ss)))
              (sym t) (keep_row-Moved s ss _ t rest)
      ]

  -- A successful transaction met the version that it expected, and left the next one.
  abbrev pub Stepped : Db → Result Fields × Db → Type 0
  Stepped db (ok r, db') =
      (version_of m.session_id db.sessions ≡ some m.expected_version)
      × (version_of m.session_id db'.sessions ≡ some (m.expected_version + 1))
  Stepped db (err e, db') = db' ≡ db

  settle-Stepped :
      (db : Db) (t : Result (Fields × Db))
      → version_of m.session_id db.sessions ≡ some m.expected_version
      → Holds
          (λ (r : Fields × Db).
            version_of m.session_id r.1.sessions ≡ some (m.expected_version + 1))
          t
      → Stepped db (settle db t)
  settle-Stepped db (ok _) e h = (e, h)
  settle-Stepped db (err _) e h = refl

  moved_sessions :
      (rows : List SessionRow) (t : Result (Fields × Db))
      → version_of m.session_id rows ≡ some (m.expected_version + 1)
      → Holds (λ (r : Fields × Db). Same rows r.1) t
      → Holds
          (λ (r : Fields × Db).
            version_of m.session_id r.1.sessions ≡ some (m.expected_version + 1))
          t
  moved_sessions rows (ok _) e h = ap (version_of m.session_id) h ∙ e
  moved_sessions rows (err _) e h = tt

  swap_with-Stepped :
      (o : Option (List SessionRow × ℕ)) (db : Db)
      → mutation_response m.session_id m.request_id db.session_mutations ≡ none
      → Moved db.sessions o
      → Stepped db (settle db (swap_with m o db))
  swap_with-Stepped none db n h = rw (n) refl
  swap_with-Stepped (some (rows, v)) db n h =
      settle-Stepped db (write_parts m v (record db { sessions = rows })) h.0 (
        moved_sessions rows (write_parts m v (record db { sessions = rows })) h.1
          (write_parts-keeps (Same rows) (same rows) m v (record db { sessions = rows }) refl))

  swap_with-conflict :
      (o : Option (List SessionRow × ℕ)) (db : Db)
      → mutation_response m.session_id m.request_id db.session_mutations ≡ none
      → version_of m.session_id db.sessions ≢ some m.expected_version
      → Moved db.sessions o
      → settle db (swap_with m o db) ≡ (err version_conflict, db)
  swap_with-conflict none db n d h = rw (n) refl
  swap_with-conflict (some (rows, v)) db n d h = absurd (d h.0)

-- A request that is new meets the version it expects and moves it by one, or it fails and leaves
-- the database as it was.
pub commit_session_mutation_version :
    (m : Mutation) (seen db : Db)
    → mutation_response m.session_id m.request_id seen.session_mutations ≡ none
    → mutation_response m.session_id m.request_id db.session_mutations ≡ none
    → Stepped m db (commit_session_mutation m seen db)
unfolding commit_session_mutation swap_version
commit_session_mutation_version m seen db e n =
    rw (e)
      (swap_with-Stepped m (update_session m db.sessions) db n (update_session-Moved m db.sessions))

-- A new request for a session that is not at the expected version is refused, and nothing is
-- written.
pub commit_session_mutation_conflict :
    (m : Mutation) (seen db : Db)
    → mutation_response m.session_id m.request_id seen.session_mutations ≡ none
    → mutation_response m.session_id m.request_id db.session_mutations ≡ none
    → version_of m.session_id db.sessions ≢ some m.expected_version
    → commit_session_mutation m seen db ≡ (err version_conflict, db)
unfolding commit_session_mutation swap_version
commit_session_mutation_conflict m seen db e n d = rw (e) (
    swap_with-conflict m (update_session m db.sessions) db n d (update_session-Moved m db.sessions))

-- Of two requests for one session that expect one version, the second is refused once the first
-- has succeeded: no update is lost. Both are new when they come.
pub commit_session_mutation_no_lost_update :
    (first second : Mutation) (seen db db' : Db) (r : Fields)
    → second.session_id ≡ first.session_id
    → second.expected_version ≡ first.expected_version
    → mutation_response first.session_id first.request_id db.session_mutations ≡ none
    → commit_session_mutation first db db ≡ (ok r, db')
    → mutation_response second.session_id second.request_id seen.session_mutations ≡ none
    → mutation_response second.session_id second.request_id db'.session_mutations ≡ none
    → commit_session_mutation second seen db' ≡ (err version_conflict, db')
commit_session_mutation_no_lost_update first second seen db db' r s v n done e' n' =
    let stepped = subst (Stepped first db) done (commit_session_mutation_version first db db n n) in
    commit_session_mutation_conflict second seen db' e' n' λ q. ground (arith)
