-- ===== src/Web/Store/Laws/Settled.antt =====
-- The progress of the accounts counts the settled runs: each is counted when it is settled, once.
use agens_web.Prelude.{
  ◌≡◌, refl, sym, ◌∙◌, ap, String, str_eq, ℕ, ◌+◌, List, [], ◌∷◌, ◌++◌, Option, none, some, Bool,
  true, false, ◌&&◌, not, if◌then◌else◌, inl, inr, Bool-cases, any_of, arith,
}
use agens_web.Web.Store.Rows.{Db, RunRow, ProgressRow, Mutation, RunInfo, Terminal}
use agens_web.Web.Store.Runs.{
  ensure_active_run, rewind_active_run, insert_turn, same_turn, find_run, completed_run,
  update_open, new_run, insert_absent, rewound,
}
use agens_web.Web.Store.Rewards.{
  finalize_terminal, grant_rewards, grant_if, complete_run, keep_run, finished, consume_bonuses,
  add_progress, one_if,
}
use agens_web.Web.Store.Commit.{commit_session_mutation}
use agens_web.Web.Store.Laws.Steps.{Writes, commit_session_mutation-keeps}

-- How many of the runs have been completed, and how many of those ascended.
abbrev pub completed_runs : List RunRow → ℕ
completed_runs [] = 0
completed_runs (r ∷ rs) = one_if r.completed + completed_runs rs

abbrev pub ascended_runs : List RunRow → ℕ
ascended_runs [] = 0
ascended_runs (r ∷ rs) = one_if r.ascended + ascended_runs rs

-- What the accounts' progress adds up to.
abbrev pub counted_runs : List ProgressRow → ℕ
counted_runs [] = 0
counted_runs (p ∷ ps) = p.runs_completed + counted_runs ps

abbrev pub counted_ascensions : List ProgressRow → ℕ
counted_ascensions [] = 0
counted_ascensions (p ∷ ps) = p.ascension_count + counted_ascensions ps

-- A run that has ascended is completed.
abbrev pub ascended_when_open : List RunRow → ℕ
ascended_when_open [] = 0
ascended_when_open (r ∷ rs) = one_if (r.ascended && not r.completed) + ascended_when_open rs

abbrev pub Counted : List RunRow → List ProgressRow → Type 0
Counted rs ps =
    (counted_runs ps ≡ completed_runs rs)
    × (counted_ascensions ps ≡ ascended_runs rs)
    × (ascended_when_open rs ≡ 0)

-- Two lists of runs that count alike.
abbrev Alike : List RunRow → List RunRow → Type 0
Alike rs ss =
    (completed_runs rs ≡ completed_runs ss)
    × (ascended_runs rs ≡ ascended_runs ss)
    × (ascended_when_open rs ≡ ascended_when_open ss)

Counted-Alike :
    (rs ss : List RunRow) (ps : List ProgressRow) → Alike ss rs → Counted rs ps → Counted ss ps
Counted-Alike rs ss ps a h = (h.0 ∙ sym a.0, h.1 ∙ sym a.1, a.2 ∙ h.2)

append_open :
    (rs : List RunRow) (r : RunRow)
    → r.completed ≡ false
    → r.ascended ≡ false
    → Alike (rs ++ r ∷ []) rs
append_open [] r c a = ground arith
append_open (s ∷ rs) r c a = let h = append_open rs r c a in ground arith

update_open-Alike :
    (id : String) (f : RunRow → RunRow)
    → ((r : RunRow) → ((f r).completed ≡ r.completed) × ((f r).ascended ≡ r.ascended))
    → (rs : List RunRow) → Alike (update_open id f rs) rs
update_open-Alike id f k [] = (refl, refl, refl)
update_open-Alike id f k (r ∷ rs) =
    let h = update_open-Alike id f k rs in let e = k r in ground arith

-- A run that gets completed adds one.
abbrev Completes : Bool → List RunRow → Option (List RunRow) → Type 0
Completes asc rs none = Unit
Completes asc rs (some ss) =
    (completed_runs ss ≡ completed_runs rs + 1)
    × (ascended_runs ss ≡ ascended_runs rs + one_if asc)
    × (ascended_when_open ss ≡ 0)

keep_run-Completes :
    (a : Bool) (r : RunRow) (rs : List RunRow) (o : Option (List RunRow))
    → ascended_when_open (r ∷ rs) ≡ 0
    → Completes a rs o
    → Completes a (r ∷ rs) (keep_run r o)
keep_run-Completes a r rs none z h = tt
keep_run-Completes a r rs (some ss) z h = ground arith

own_run-Completes :
    (t : Terminal) (now : ℕ) (r : RunRow) (rs : List RunRow) (b : Bool)
    → ascended_when_open (r ∷ rs) ≡ 0
    → r.completed ≡ b
    → Completes t.ascended (r ∷ rs) (if b then none else some (finished t now r ∷ rs))
own_run-Completes t now r rs true z c = tt
own_run-Completes t now r rs false z c = ground arith

complete_run-Completes :
    (id : String) (t : Terminal) (now : ℕ) (rs : List RunRow)
    → ascended_when_open rs ≡ 0
    → Completes t.ascended rs (complete_run id (finished t now) rs)
complete_run-Completes id t now [] z = tt
complete_run-Completes id t now (r ∷ rs) z =
    let rest = complete_run-Completes id t now rs (ground arith) in row (str_eq r.id id) rest
  where
    row :
        (b : Bool)
        → Completes t.ascended rs (complete_run id (finished t now) rs)
        → Completes t.ascended (r ∷ rs) (
            if b
            then (if r.completed then none else some (finished t now r ∷ rs))
            else keep_run r (complete_run id (finished t now) rs))
    row true rest = own_run-Completes t now r rs _ z refl
    row false rest = keep_run-Completes t.ascended r rs _ z rest

add_progress_counts :
    (u : String) (a : Bool) (now : ℕ) (ps : List ProgressRow)
    → (counted_runs (add_progress u a now ps) ≡ counted_runs ps + 1)
      × (counted_ascensions (add_progress u a now ps) ≡ counted_ascensions ps + one_if a)
add_progress_counts u a now [] = ground arith
add_progress_counts u a now (p ∷ ps) = let h = add_progress_counts u a now ps in ground arith

-- The database that each transaction keeps: the counts agree.
abbrev pub IsCounted : Db → Type 0
IsCounted db = Counted db.game_runs db.player_progress

insert_absent-Alike :
    (rs : List RunRow) (s u : String) (i : RunInfo) (now : ℕ) (o : Option RunRow)
    → Alike (insert_absent rs (new_run s u i now) o) rs
insert_absent-Alike rs s u i now none = append_open rs _ refl refl
insert_absent-Alike rs s u i now (some r) = (refl, refl, refl)

ensure_active_run-IsCounted :
    (s u : String) (i : RunInfo) (now : ℕ) (db : Db)
    → IsCounted db
    → IsCounted (ensure_active_run s u i now db)
unfolding ensure_active_run
ensure_active_run-IsCounted s u i now db =
    Counted-Alike db.game_runs _ db.player_progress
      (insert_absent-Alike db.game_runs s u i now (find_run s db.game_runs))

grant_if-IsCounted :
    (s u : String) (t : Terminal) (now : ℕ) (db : Db) (o : Option (List RunRow))
    → IsCounted db
    → Completes t.ascended db.game_runs o
    → IsCounted (grant_if s u t now db o)
unfolding grant_rewards
grant_if-IsCounted s u t now db none h c = h
grant_if-IsCounted s u t now db (some rows) h c =
    let p = add_progress_counts u t.ascended now db.player_progress in
    (p.0 ∙ ap (λ n. n + 1) h.0 ∙ sym c.0, p.1 ∙ ap (λ n. n + one_if t.ascended) h.1 ∙ sym c.1, c.2)

counted : Writes IsCounted
unfolding finalize_terminal rewind_active_run ensure_active_run insert_turn consume_bonuses
counted = record {
  on_start = ensure_active_run-IsCounted;
  on_rewind = λ s u i now db h. elim (Bool-cases (completed_run (find_run s db.game_runs))) [
    | inl e ↦ rw (e) tt
    | inr e ↦ rw (e) (
        Counted-Alike (ensure_active_run s u i now db).game_runs _ db.player_progress
          (update_open-Alike s (rewound i) (λ r. (refl, refl))
            (ensure_active_run s u i now db).game_runs)
          (ensure_active_run-IsCounted s u i now db h))
  ];
  on_turn = λ s q t db h. elim (Bool-cases (any_of (same_turn s q t.turn_no) db.game_turns)) [
    | inl e ↦ rw (e) tt
    | inr e ↦ rw (e) (
        Counted-Alike db.game_runs _ db.player_progress
          (update_open-Alike s (λ r. record r { turn_count = t.turn_no }) (λ r. (refl, refl))
            db.game_runs)
          h)
  ];
  on_consume = λ u db h. h;
  on_terminal = λ s u t now db h.
      let d = ensure_active_run s u t.info now db in
      let k = ensure_active_run-IsCounted s u t.info now db h in
      grant_if-IsCounted s u t now d _ k (complete_run-Completes s t now d.game_runs k.2);
  on_save = λ _ db h. h;
  on_record = λ _ db h. h;
}

-- Each transaction keeps the counts: the completed runs that the accounts' progress adds up to are
-- the completed runs there are, its ascensions are the runs that ascended, and no open run has
-- ascended. So no run is counted twice, however often its end is sent.
pub commit_session_mutation-IsCounted :
    (m : Mutation) (seen db : Db) → IsCounted db → IsCounted (commit_session_mutation m seen db).1
commit_session_mutation-IsCounted m =
    commit_session_mutation-keeps IsCounted counted m (λ rows db h. h)
