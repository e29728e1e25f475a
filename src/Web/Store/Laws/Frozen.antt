-- ===== src/Web/Store/Laws/Frozen.antt =====
-- A completed run is history: no later transaction changes its row.
use agens_web.Prelude.{
  ◌≡◌, refl, ap, String, str_eq, eq_iff, ℕ, List, [], ◌∷◌, ◌++◌, Option, none, some, Bool, true,
  false, if◌then◌else◌, inl, inr, Bool-cases, any_of, arith,
}
use mathlib.Core.Option.{some-injective}
use agens_web.Web.Store.Rows.{Db, RunRow, Mutation, RunInfo, Terminal}
use agens_web.Web.Store.Runs.{
  ensure_active_run, rewind_active_run, insert_turn, same_turn, find_run, completed_run,
  update_open, insert_absent, rewound,
}
use agens_web.Web.Store.Rewards.{
  finalize_terminal, grant_rewards, grant_if, complete_run, keep_run, finished, consume_bonuses,
}
use agens_web.Web.Store.Commit.{commit_session_mutation}
use agens_web.Web.Store.Laws.Steps.{Writes, commit_session_mutation-keeps}

module _ (id : String) (run : RunRow) (c : run.completed ≡ true) where
  abbrev Kept : List RunRow → Type 0
  Kept rs = find_run id rs ≡ some run

  append-Kept : (rs : List RunRow) (r : RunRow) → Kept rs → Kept (rs ++ r ∷ [])
  append-Kept [] r h = ground arith
  append-Kept (s ∷ rs) r h = let rest = append-Kept rs r in ground arith

  insert_absent-Kept :
      (rs : List RunRow) (r : RunRow) (o : Option RunRow) → Kept rs → Kept (insert_absent rs r o)
  insert_absent-Kept rs r none h = append-Kept rs r h
  insert_absent-Kept rs r (some _) h = h

  update_open-Kept :
      (s : String) (f : RunRow → RunRow)
      → ((r : RunRow) → (f r).id ≡ r.id)
      → (rs : List RunRow) → Kept rs
      → Kept (update_open s f rs)
  update_open-Kept s f k [] h = h
  update_open-Kept s f k (r ∷ rs) h =
      let rest = update_open-Kept s f k rs in
      let e = k r in ground (arith, eq_iff r.id s, eq_iff r.id id, eq_iff (f r).id id)

  abbrev Left : Option (List RunRow) → Type 0
  Left none = Unit
  Left (some rs) = Kept rs

  keep_run-Left :
      (r : RunRow) (rs : List RunRow) (o : Option (List RunRow))
      → Kept (r ∷ rs)
      → (Kept rs → Left o)
      → Left (keep_run r o)
  keep_run-Left r rs none h k = tt
  keep_run-Left r rs (some ss) h k = elim (Bool-cases (str_eq r.id id)) [
    | inl e ↦ rw (e) (rw (e) at h)
    | inr e ↦ rw (e) (k (rw (e) at h))
  ]

  own_run-Left :
      (t : Terminal) (now : ℕ) (r : RunRow) (rs : List RunRow) (b : Bool)
      → Kept (r ∷ rs)
      → r.completed ≡ b
      → Left (if b then none else some (finished t now r ∷ rs))
  own_run-Left t now r rs true h e = tt
  own_run-Left t now r rs false h e = elim (Bool-cases (str_eq r.id id)) [
    | inl same ↦
        let it = some-injective _ _ (rw (same) at h) in
        (let f = ap (λ (x : RunRow). x.completed) it in ground arith)
    | inr other ↦ rw (other) (rw (other) at h)
  ]

  complete_run-Left :
      (s : String) (t : Terminal) (now : ℕ) (rs : List RunRow)
      → Kept rs
      → Left (complete_run s (finished t now) rs)
  complete_run-Left s t now [] h = tt
  complete_run-Left s t now (r ∷ rs) h = row (str_eq r.id s) (complete_run-Left s t now rs)
    where
      row :
          (b : Bool)
          → (Kept rs → Left (complete_run s (finished t now) rs))
          → Left (
              if b
              then (if r.completed then none else some (finished t now r ∷ rs))
              else keep_run r (complete_run s (finished t now) rs))
      row true rest = own_run-Left t now r rs _ h refl
      row false rest = keep_run-Left r rs _ h rest

  grant_if-Kept :
      (s u : String) (t : Terminal) (now : ℕ) (db : Db) (o : Option (List RunRow))
      → Kept db.game_runs
      → Left o
      → Kept (grant_if s u t now db o).game_runs
  unfolding grant_rewards
  grant_if-Kept s u t now db none h k = h
  grant_if-Kept s u t now db (some rows) h k = k

  ensure-Kept :
      (s u : String) (i : RunInfo) (now : ℕ) (db : Db)
      → Kept db.game_runs
      → Kept (ensure_active_run s u i now db).game_runs
  unfolding ensure_active_run
  ensure-Kept s u i now db h = insert_absent-Kept db.game_runs _ (find_run s db.game_runs) h

  frozen : Writes (λ db. Kept db.game_runs)
  unfolding finalize_terminal rewind_active_run ensure_active_run insert_turn consume_bonuses
  frozen = record {
    on_start = ensure-Kept;
    on_rewind = λ s u i now db h. elim (Bool-cases (completed_run (find_run s db.game_runs))) [
      | inl e ↦ rw (e) tt
      | inr e ↦ rw (e) (
          update_open-Kept s (rewound i) (λ r. refl) (ensure_active_run s u i now db).game_runs
            (ensure-Kept s u i now db h))
    ];
    on_turn = λ s q t db h. elim (Bool-cases (any_of (same_turn s q t.turn_no) db.game_turns)) [
      | inl e ↦ rw (e) tt
      | inr e ↦
          rw (e) (
            update_open-Kept s (λ r. record r { turn_count = t.turn_no }) (λ r. refl) db.game_runs
              h)
    ];
    on_consume = λ u db h. h;
    on_terminal = λ s u t now db h.
        let d = ensure_active_run s u t.info now db in
        let k = ensure-Kept s u t.info now db h in
        grant_if-Kept s u t now d _ k (complete_run-Left s t now d.game_runs k);
    on_save = λ _ db h. h;
    on_record = λ _ db h. h;
  }

-- A completed run keeps its whole row, whatever is committed later and for whichever session.
pub commit_session_mutation_frozen :
    (id : String) (run : RunRow)
    → run.completed ≡ true
    → (m : Mutation) (seen db : Db) → find_run id db.game_runs ≡ some run
    → find_run id (commit_session_mutation m seen db).1.game_runs ≡ some run
commit_session_mutation_frozen id run c m =
    commit_session_mutation-keeps (λ db. find_run id db.game_runs ≡ some run) (frozen id run c) m
      (λ rows db h. h)
