-- ===== src/Web/Service/Laws/Versions.antt =====
-- The version that a commit answers with is the one that the session has from then on.
use agens_web.Prelude.{
  ◌≡◌, refl, sym, ap, ◌∙◌, subst, String, ℕ, ◌+◌, ◌==◌, suc, List, [], ◌∷◌, Option, none, some,
  false, str_eq, inl, inr, Bool-cases, Option-cases, arith, pos,
}
use agens_web.Python.{
  Value, null, bool, int, float, str, list, dict, Fields, get, get_or, put, or_else, truthy, int_of,
  Runtime,
}
use agens_web.Python.Dictionaries.{get-put}
use agens_web.Web.Store.Rows.{Db, SessionRow, Mutation, SaveSlot, Result, ok, err, ◌>>=◌}
use agens_web.Web.Store.Commit.{
  for_user, flag, start_for, rewind_for, turn_for, consume_for, terminal_for, save_for, record_if,
  record_mutation, mutation_response, response_with_version, write_parts, update_session, keep_row,
  swap_with, swap_version, settle, commit_session_mutation,
}
use agens_web.Web.Store.Laws.Steps.{Holds, Holds-bind}
use agens_web.Web.Store.Laws.Replay.{Holds-any}
use agens_web.Web.Service.Commit.{committed_version, session_of, version_in}

suc-not_zero : (k : ℕ) → suc k == 0 ≡ false
suc-not_zero k = ground arith

module _ ⦃py : Runtime⦄ where
  -- `int(session_response.get("version") or …)`, of the value that is there.
  abbrev read_version : ℕ → Option Value → Option ℕ
  read_version e none = version_in (int_of (or_else null (int (pos (e + 1)))))
  read_version e (some v) = version_in (int_of (or_else v (int (pos (e + 1)))))

  read_version-suc : (e k : ℕ) → read_version e (some (int (pos (suc k)))) ≡ some (suc k)
  unfolding truthy int_of
  read_version-suc e k = rw (suc-not_zero k) refl

  committed-read :
      (r : Fields) (e : ℕ)
      → committed_version r e ≡ read_version e (get "version" (session_of (get "session" r) r))
  unfolding committed_version
  committed-read r e = elim (Option-cases (get "version" (session_of (get "session" r) r))) [
    | inl h ↦ rw (get_or, h) refl
    | inr (v, h) ↦ rw (get_or, h) refl
  ]

  -- The session in a response, or the response, where `o` is what the key holds.
  committed-at :
      (r : Fields) (e : ℕ) (o : Option Value)
      → get "session" r ≡ o
      → committed_version r e ≡ read_version e (get "version" (session_of o r))
  committed-at r e o h =
      committed-read r e ∙ ap (λ o. read_version e (get "version" (session_of o r))) h

  -- `response["save"] = …` hides neither key.
  committed-put_save :
      (x : Value) (r : Fields) (e : ℕ)
      → committed_version (put "save" x r) e ≡ committed_version r e
  committed-put_save x r e =
      committed-at (put "save" x r) e (get "session" r) (rw get-put refl)
      ∙ ap (read_version e) (in_session (get "session" r))
      ∙ sym (committed-at r e (get "session" r) refl)
    where
      in_session :
          (o : Option Value)
          → get "version" (session_of o (put "save" x r)) ≡ get "version" (session_of o r)
      in_session none = get-put "version" "save" x r
      in_session (some (dict session)) = refl
      in_session (some null) = get-put "version" "save" x r
      in_session (some (bool b)) = get-put "version" "save" x r
      in_session (some (int n)) = get-put "version" "save" x r
      in_session (some (float m k)) = get-put "version" "save" x r
      in_session (some (str t)) = get-put "version" "save" x r
      in_session (some (list xs)) = get-put "version" "save" x r

  -- The version stands in the response itself where that holds no session.
  committed-plain :
      (r : Fields) (e k : ℕ) (o : Option Value)
      → get "session" r ≡ o
      → session_of o (put "version" (int (pos (suc k))) r) ≡ put "version" (int (pos (suc k))) r
      → committed_version (put "version" (int (pos (suc k))) r) e ≡ some (suc k)
  committed-plain r e k o h plain =
      committed-at (put "version" (int (pos (suc k))) r) e o (get-put "session" "version" _ r ∙ h)
      ∙ ap (λ d. read_version e (get "version" d)) plain
      ∙ ap (read_version e) (get-put "version" "version" (int (pos (suc k))) r)
      ∙ read_version-suc e k

  committed-nested :
      (session r : Fields) (e k : ℕ)
      → committed_version (put "session" (dict (put "version" (int (pos (suc k))) session)) r) e
        ≡ some (suc k)
  committed-nested session r e k =
      committed-at _ e (some (dict (put "version" (int (pos (suc k))) session)))
        (get-put "session" "session" _ r)
      ∙ ap (read_version e) (get-put "version" "version" (int (pos (suc k))) session)
      ∙ read_version-suc e k

  committed-response :
      (r : Fields) (e k : ℕ) → committed_version (response_with_version r (suc k)) e ≡ some (suc k)
  unfolding response_with_version
  committed-response r e k = by_session (get "session" r) refl
    where
      by_session :
          (o : Option Value)
          → get "session" r ≡ o
          → committed_version (response_with_version r (suc k)) e ≡ some (suc k)
      by_session none h = rw (response_with_version, h) (committed-plain r e k _ h refl)
      by_session (some (dict session)) h =
          rw (response_with_version, h) (committed-nested session r e k)
      by_session (some null) h = rw (response_with_version, h) (committed-plain r e k _ h refl)
      by_session (some (bool b)) h = rw (response_with_version, h) (committed-plain r e k _ h refl)
      by_session (some (int n)) h = rw (response_with_version, h) (committed-plain r e k _ h refl)
      by_session (some (float m j)) h =
          rw (response_with_version, h) (committed-plain r e k _ h refl)
      by_session (some (str t)) h = rw (response_with_version, h) (committed-plain r e k _ h refl)
      by_session (some (list xs)) h = rw (response_with_version, h) (committed-plain r e k _ h refl)

  module _ (m : Mutation) where
    -- What a commit answers tells the version that the session is at.
    abbrev Tells : ℕ → Fields × Db → Type 0
    Tells v r = committed_version r.0 m.expected_version ≡ some v

    record_if-Tells :
        (v : ℕ) (r : Fields) (db : Db) (o : Option Fields)
        → committed_version r m.expected_version ≡ some v
        → Holds (Tells v) (record_if o m v r db >>= λ done. ok (r, done))
    record_if-Tells v r db none h = h
    record_if-Tells v r db (some _) h = tt

    finish-Tells :
        (v : ℕ) (a : Fields × Db)
        → committed_version a.0 m.expected_version ≡ some v
        → Holds (Tells v) (record_mutation m v a.0 a.1 >>= λ done. ok (a.0, done))
    unfolding record_mutation
    finish-Tells v a h = record_if-Tells v a.0 a.1 _ h

    save_for-Tells :
        (r : Fields) (v : ℕ) (o : Option (String × SaveSlot)) (db : Db)
        → committed_version r m.expected_version ≡ some v
        → committed_version (save_for m r o db).0 m.expected_version ≡ some v
    save_for-Tells r v none db h = h
    save_for-Tells r v (some (u, slot)) db h = committed-put_save _ r m.expected_version ∙ h

    write_parts-Tells : (k : ℕ) (db : Db) → Holds (Tells (suc k)) (write_parts m (suc k) db)
    unfolding write_parts
    write_parts-Tells k db =
        Holds-bind {P = λ (_ : Db). Unit} (Tells (suc k))
          (start_for m (for_user m.user_id m.start_run) db) _
          (Holds-any (start_for m (for_user m.user_id m.start_run) db))
          λ a _.
            Holds-bind {P = λ (_ : Db). Unit} (Tells (suc k))
              (rewind_for m (for_user m.user_id m.rewind_run) a) _
              (Holds-any (rewind_for m (for_user m.user_id m.rewind_run) a))
              λ b _.
                Holds-bind {P = λ (_ : Db). Unit} (Tells (suc k))
                  (turn_for m (for_user m.user_id m.turn) b) _
                  (Holds-any (turn_for m (for_user m.user_id m.turn) b))
                  λ c _.
                    let settled =
                      terminal_for m (for_user m.user_id m.terminal)
                        (consume_for (for_user m.user_id (flag m.consume_legacy_bonuses)) c) in
                    finish-Tells (suc k) _ (
                      save_for-Tells (response_with_version m.response (suc k)) (suc k)
                        (for_user m.user_id m.save_slot) settled
                        (committed-response m.response m.expected_version k))

    -- The version that the update of the row gives is the one after the expected one.
    abbrev IsNext : Option (List SessionRow × ℕ) → Type 0
    IsNext none = Unit
    IsNext (some (rows, v)) = v ≡ suc m.expected_version

    keep_row-IsNext :
        (s : SessionRow) (o : Option (List SessionRow × ℕ)) → IsNext o → IsNext (keep_row s o)
    keep_row-IsNext s none h = tt
    keep_row-IsNext s (some (rows, v)) h = h

    update_session-IsNext : (ss : List SessionRow) → IsNext (update_session m ss)
    update_session-IsNext [] = tt
    update_session-IsNext (s ∷ ss) =
        let rest = update_session-IsNext ss in
        elim (Bool-cases (str_eq s.id m.session_id)) [
          | inl t ↦ rw (t) (elim (Bool-cases (s.version == m.expected_version)) [
            | inl e ↦ rw (e) (ground arith)
            | inr e ↦ rw (e) tt
          ])
          | inr t ↦ rw (t) (keep_row-IsNext s (update_session m ss) rest)
        ]

    swap_with-Tells :
        (o : Option (List SessionRow × ℕ)) (db : Db)
        → mutation_response m.session_id m.request_id db.session_mutations ≡ none
        → IsNext o
        → Holds (Tells (suc m.expected_version)) (swap_with m o db)
    swap_with-Tells none db n h = rw (n) tt
    swap_with-Tells (some (rows, v)) db n h =
        subst
          (λ v.
            Holds (Tells (suc m.expected_version))
              (write_parts m v (record db { sessions = rows })))
          (sym h) (write_parts-Tells m.expected_version (record db { sessions = rows }))

    -- A commit that succeeds answers with the version after the expected one.
    abbrev pub Told : Result Fields × Db → Type 0
    Told (ok r, db) = committed_version r m.expected_version ≡ some (suc m.expected_version)
    Told (err e, db) = Unit

    settle-Told :
        (db : Db) (t : Result (Fields × Db))
        → Holds (Tells (suc m.expected_version)) t
        → Told (settle db t)
    settle-Told db (ok _) h = h
    settle-Told db (err _) h = tt

    pub commit_session_mutation-Told :
        (db : Db)
        → mutation_response m.session_id m.request_id db.session_mutations ≡ none
        → Told (commit_session_mutation m db db)
    unfolding commit_session_mutation swap_version
    commit_session_mutation-Told db n = rw (n) (
        settle-Told db (swap_with m (update_session m db.sessions) db)
          (swap_with-Tells (update_session m db.sessions) db n (update_session-IsNext db.sessions)))
