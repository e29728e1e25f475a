-- ===== src/Web/Store/Laws/Recorded.antt =====
-- A recorded request writes nothing more, however old the read that missed the record.
use agens_web.Prelude.{
  ◌≡◌, ◌⊎◌, refl, ap, ◌∙◌, String, ℕ, false, ◌&&◌, not, List, [], ◌∷◌, Option, none, some,
  if◌then◌else◌, inl, inr, Option-cases, Bool-cases, any_of, keep_if, str_eq, arith, eq_iff,
}
use agens_web.Python.{Fields}
use agens_web.Web.Store.Rows.{
  Db, SessionRow, RunRow, MutationRow, Mutation, RunInfo, Turn, Terminal, SaveSlot, Result, ok, err,
  ◌>>=◌,
}
use agens_web.Web.Store.Runs.{
  ensure_active_run, rewind_active_run, insert_turn, same_turn, find_run, completed_run,
}
use agens_web.Web.Store.Rewards.{finalize_terminal, grant_rewards, grant_if, consume_bonuses}
use agens_web.Web.Store.Commit.{
  for_user, flag, start_for, rewind_for, turn_for, consume_for, terminal_for, save_for,
  record_mutation, mutation_response, response_with_version, write_parts, update_session, swap_with,
  swap_version, settle, commit_session_mutation,
}
use agens_web.Web.Store.Laws.Steps.{Holds, Holds-bind}

for_user-none {ℓ} : {A : Type ℓ} (u : Option String) → for_user {A = A} u none ≡ none
for_user-none none = refl
for_user-none (some u) = refl

-- Rows of another session are not missed.
mutation_response-keep_if :
    (s t q : String) (ms : List MutationRow)
    → str_eq t s ≡ false
    → mutation_response s q (keep_if (λ m. not (str_eq m.session_id t)) ms)
      ≡ mutation_response s q ms
mutation_response-keep_if s t q [] h = refl
mutation_response-keep_if s t q (n ∷ ms) h =
    let rest = mutation_response-keep_if s t q ms h in
    elim (Bool-cases (str_eq n.session_id t)) [
      | inl own ↦ ground (arith, eq_iff n.session_id t)
      | inr other ↦ rw (other) (
          ap (λ o. if str_eq n.session_id s && str_eq n.request_id q then some n.response else o)
            rest)
    ]

-- A commit that rewinds no run of the session.
abbrev pub IsForward : String → Mutation → Type 0
IsForward s m = (m.rewind_run ≡ none) ⊎ (str_eq m.session_id s ≡ false)

module _ (s q : String) (m : Mutation) (r : Fields) where
  -- The response is recorded for the request.
  abbrev pub Kept : Db → Type 0
  Kept db = mutation_response s q db.session_mutations ≡ some r

  start_for-Kept :
      (o : Option (String × RunInfo)) (db : Db) → Kept db → Holds Kept (start_for m o db)
  unfolding ensure_active_run
  start_for-Kept none db h = h
  start_for-Kept (some _) db h = h

  turn_for-Kept : (o : Option (String × Turn)) (db : Db) → Kept db → Holds Kept (turn_for m o db)
  unfolding insert_turn
  turn_for-Kept none db h = h
  turn_for-Kept (some (u, t)) db h =
      elim (Bool-cases (any_of (same_turn m.session_id m.request_id t.turn_no) db.game_turns)) [
        | inl e ↦ rw (e) tt
        | inr e ↦ rw (e) h
      ]

  consume_for-Kept : (o : Option (String × Unit {0})) (db : Db) → Kept db → Kept (consume_for o db)
  unfolding consume_bonuses
  consume_for-Kept none db h = h
  consume_for-Kept (some _) db h = h

  grant_if-Kept :
      (u : String) (t : Terminal) (db : Db) (o : Option (List RunRow))
      → Kept db
      → Kept (grant_if m.session_id u t m.now db o)
  unfolding grant_rewards
  grant_if-Kept u t db none h = h
  grant_if-Kept u t db (some _) h = h

  terminal_for-Kept :
      (o : Option (String × Terminal)) (db : Db) → Kept db → Kept (terminal_for m o db)
  unfolding finalize_terminal ensure_active_run
  terminal_for-Kept none db h = h
  terminal_for-Kept (some (u, t)) db h =
      grant_if-Kept u t (ensure_active_run m.session_id u t.info m.now db) _ h

  rewound-Kept :
      (o : Option (String × RunInfo)) (db : Db)
      → str_eq m.session_id s ≡ false
      → Kept db
      → Holds Kept (rewind_for m o db)
  unfolding rewind_active_run ensure_active_run
  rewound-Kept none db n h = h
  rewound-Kept (some (u, info)) db n h =
      elim (Bool-cases (completed_run (find_run m.session_id db.game_runs))) [
        | inl e ↦ rw (e) tt
        | inr e ↦ rw (e) (mutation_response-keep_if s m.session_id q db.session_mutations n ∙ h)
      ]

  rewind_for-Kept :
      (u : Option String) (db : Db)
      → IsForward s m
      → Kept db
      → Holds Kept (rewind_for m (for_user u m.rewind_run) db)
  rewind_for-Kept u db (inl n) h = rw (n, for_user-none {A = RunInfo} u) h
  rewind_for-Kept u db (inr n) h = rewound-Kept (for_user u m.rewind_run) db n h

  save_for-Kept :
      (f : Fields) (o : Option (String × SaveSlot)) (db : Db) → Kept db → Kept (save_for m f o db).1
  save_for-Kept f none db h = h
  save_for-Kept f (some _) db h = h

  -- The record of the request meets a database that the other parts of the transaction kept.
  pub write_parts-Kept :
      (Q : Fields × Db → Type 0) (v : ℕ) (db : Db)
      → ((a : Fields × Db)
          → Kept a.1
          → Holds Q (record_mutation m v a.0 a.1 >>= λ done. ok (a.0, done)))
      → IsForward s m
      → Kept db
      → Holds Q (write_parts m v db)
  unfolding write_parts
  write_parts-Kept Q v db finish n h =
      Holds-bind {P = Kept} Q (start_for m (for_user m.user_id m.start_run) db) _
        (start_for-Kept (for_user m.user_id m.start_run) db h)
        λ a ha.
          Holds-bind {P = Kept} Q (rewind_for m (for_user m.user_id m.rewind_run) a) _
            (rewind_for-Kept m.user_id a n ha)
            λ b hb.
              Holds-bind {P = Kept} Q (turn_for m (for_user m.user_id m.turn) b) _
                (turn_for-Kept (for_user m.user_id m.turn) b hb)
                λ c hc.
                  finish
                    (save_for m (response_with_version m.response v)
                      (for_user m.user_id m.save_slot)
                      (terminal_for m (for_user m.user_id m.terminal)
                        (consume_for (for_user m.user_id (flag m.consume_legacy_bonuses)) c)))
                    (save_for-Kept _ (for_user m.user_id m.save_slot) _ (
                      terminal_for-Kept (for_user m.user_id m.terminal) _ (
                        consume_for-Kept (for_user m.user_id (flag m.consume_legacy_bonuses)) c
                          hc)))

module _ (m : Mutation) (r : Fields) where
  finish-fails :
      (v : ℕ) (a : Fields × Db)
      → Kept m.session_id m.request_id m r a.1
      → Holds (λ (_ : Fields × Db). ⊥) (record_mutation m v a.0 a.1 >>= λ done. ok (a.0, done))
  unfolding record_mutation
  finish-fails v a h = rw (h) tt

  settle-fails :
      (db : Db) (t : Result (Fields × Db)) → Holds (λ (_ : Fields × Db). ⊥) t → (settle db t).1 ≡ db
  settle-fails db (ok _) h = absurd h
  settle-fails db (err _) h = refl

  swap_with-recorded :
      (o : Option (List SessionRow × ℕ)) (db : Db)
      → m.rewind_run ≡ none
      → Kept m.session_id m.request_id m r db
      → (settle db (swap_with m o db)).1 ≡ db
  swap_with-recorded (some (rows, v)) db n h =
      settle-fails db (write_parts m v (record db { sessions = rows }))
        (write_parts-Kept m.session_id m.request_id m r (λ _. ⊥) v _ (finish-fails v) (inl n) h)
  swap_with-recorded none db n h = rw (h) refl

-- A request that the database holds changes nothing more, unless it rewinds a run, whatever was
-- read before: a late duplicate of it is answered, or refused, and writes no row.
pub commit_session_mutation_recorded :
    (m : Mutation) (seen db : Db) (r : Fields)
    → m.rewind_run ≡ none
    → mutation_response m.session_id m.request_id db.session_mutations ≡ some r
    → (commit_session_mutation m seen db).1 ≡ db
unfolding commit_session_mutation swap_version
commit_session_mutation_recorded m seen db r n h =
    elim (Option-cases (mutation_response m.session_id m.request_id seen.session_mutations)) [
      | inl e ↦ rw (e) (swap_with-recorded m r (update_session m db.sessions) db n h)
      | inr (x, e) ↦ rw (e) refl
    ]
