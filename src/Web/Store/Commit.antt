-- ===== src/Web/Store/Commit.antt =====
-- `commit_session_mutation`: an idempotent compare-and-swap on the version of a session.
use agens_web.Prelude.{
  ℕ, ◌+◌, ◌==◌, String, Bool, true, false, ◌&&◌, List, [], ◌∷◌, ◌++◌, Option, none, some,
  if◌then◌else◌, str_eq, is_blank, last_n, pos,
}
use agens_web.Python.{put, Value, int, str, dict, Fields, field, end, get}
use agens_web.Web.Store.Rows.{
  Db, SessionRow, MutationRow, Mutation, SaveRow, SaveSlot, Turn, RunInfo, Terminal, Result, ok,
  err, version_conflict, duplicate_key, ◌>>=◌,
}
use agens_web.Web.Store.Runs.{ensure_active_run, rewind_active_run, insert_turn}
use agens_web.Web.Store.Rewards.{finalize_terminal, consume_bonuses}

unfoldable pub response_with_version : Fields → ℕ → Fields
response_with_version response version = elim (get "session" response) [
  | some (dict session) ↦ put "session" (dict (put "version" (int (pos version)) session)) response
  | _ ↦ put "version" (int (pos version)) response
]

-- `_mutation_response`, and `get_session_mutation` at a request id that is not empty.
abbrev pub mutation_response : String → String → List MutationRow → Option Fields
mutation_response session_id request_id [] = none
mutation_response session_id request_id (m ∷ ms) =
    if str_eq m.session_id session_id && str_eq m.request_id request_id
    then some m.response
    else mutation_response session_id request_id ms

unfoldable pub get_session_mutation : String → String → Db → Option Fields
get_session_mutation session_id request_id db =
    if is_blank request_id
    then none
    else mutation_response session_id request_id db.session_mutations

abbrev pub stored : Mutation → SessionRow → SessionRow
stored m s = record s {
  user_id = m.user_id;
  guest_token_hash = if is_blank m.guest_token_hash then none else some m.guest_token_hash;
  expires_at = m.expires_at;
  title = m.title;
  snapshot = m.snapshot;
  events = last_n 100 m.events;
  version = s.version + 1;
  updated_at = m.now;
}

abbrev pub keep_row : SessionRow → Option (List SessionRow × ℕ) → Option (List SessionRow × ℕ)
keep_row s none = none
keep_row s (some (ss, v)) = some (s ∷ ss, v)

-- `UPDATE sessions … WHERE id = :id AND version = :expected RETURNING version`: the rows and the
-- new version, or `none` where no row fits. `id` is the primary key.
abbrev pub update_session : Mutation → List SessionRow → Option (List SessionRow × ℕ)
update_session m [] = none
update_session m (s ∷ ss) =
    if str_eq s.id m.session_id
    then (if s.version == m.expected_version then some (stored m s ∷ ss, s.version + 1) else none)
    else keep_row s (update_session m ss)

-- `x and user_id`: a part of the request that only a signed-in user's request has carried out.
abbrev pub for_user {ℓ} : {A : Type ℓ} → Option String → Option A → Option (String × A)
for_user none part = none
for_user (some user_id) none = none
for_user (some user_id) (some a) = if is_blank user_id then none else some (user_id, a)

abbrev pub flag : Bool → Option (Unit {0})
flag true = some tt
flag false = none

-- Each part of the transaction, by clauses on what `for_user` gives.
abbrev pub start_for : Mutation → Option (String × RunInfo) → Db → Result Db
start_for m none db = ok db
start_for m (some (user_id, info)) db = ok (ensure_active_run m.session_id user_id info m.now db)

abbrev pub rewind_for : Mutation → Option (String × RunInfo) → Db → Result Db
rewind_for m none db = ok db
rewind_for m (some (user_id, info)) db = rewind_active_run m.session_id user_id info m.now db

abbrev pub turn_for : Mutation → Option (String × Turn) → Db → Result Db
turn_for m none db = ok db
turn_for m (some (user_id, turn)) db = insert_turn m.session_id m.request_id turn db

abbrev pub consume_for : Option (String × Unit {0}) → Db → Db
consume_for none db = db
consume_for (some (user_id, _)) db = consume_bonuses user_id db

abbrev pub terminal_for : Mutation → Option (String × Terminal) → Db → Db
terminal_for m none db = db
terminal_for m (some (user_id, t)) db = finalize_terminal m.session_id user_id t m.now db

-- `_save_slot_conn`, with the slot's name already cleaned: the save keeps its id and its date.
abbrev pub upsert_save : Mutation → String → SaveSlot → List SaveRow → List SaveRow × String
upsert_save m user_id slot [] = (
  record {
    id = m.fresh_id;
    user_id = user_id;
    name = slot.name;
    snapshot = slot.snapshot;
    events = last_n 100 slot.events;
    created_at = m.now;
    updated_at = m.now;
  }
      ∷ [],
  m.fresh_id,
)
upsert_save m user_id slot (s ∷ ss) =
    if str_eq s.user_id user_id && str_eq s.name slot.name
    then (
      record s { snapshot = slot.snapshot; events = last_n 100 slot.events; updated_at = m.now }
          ∷ ss,
      s.id,
    )
    else (let (ss', id) = upsert_save m user_id slot ss in (s ∷ ss', id))

abbrev pub save_summary : Mutation → String → SaveSlot → String → Value
save_summary m user_id slot id = dict (
    field "id" (str id) (
      field "user_id" (str user_id)
        (field "name" (str slot.name) (field "updated_at" (int (pos m.now)) end))))

abbrev pub save_for : Mutation → Fields → Option (String × SaveSlot) → Db → Fields × Db
save_for m response none db = (response, db)
save_for m response (some (user_id, slot)) db =
    let (rows, id) = upsert_save m user_id slot db.saves in
    (put "save" (save_summary m user_id slot id) response, record db { saves = rows })

-- The last insert fails where the primary key is taken.
abbrev pub record_if : Option Fields → Mutation → ℕ → Fields → Db → Result Db
record_if (some _) m version response db = err duplicate_key
record_if none m version response db = ok (record db {
  session_mutations =
      db.session_mutations
      ++ record {
        session_id = m.session_id;
        request_id = m.request_id;
        operation = m.operation;
        expected_version = m.expected_version;
        result_version = version;
        response = response;
        created_at = m.now;
      }
        ∷ [];
})

unfoldable pub record_mutation : Mutation → ℕ → Fields → Db → Result Db
record_mutation m version response db =
    record_if (mutation_response m.session_id m.request_id db.session_mutations) m version response
      db

-- The writes of the transaction once the session row has been updated.
unfoldable pub write_parts : Mutation → ℕ → Db → Result (Fields × Db)
write_parts m version db = do
  started ← start_for m (for_user m.user_id m.start_run) db
  rewound ← rewind_for m (for_user m.user_id m.rewind_run) started
  turned ← turn_for m (for_user m.user_id m.turn) rewound
  let consumed = consume_for (for_user m.user_id (flag m.consume_legacy_bonuses)) turned
  let settled = terminal_for m (for_user m.user_id m.terminal) consumed
  let (response, saved) =
      save_for m (response_with_version m.response version) (for_user m.user_id m.save_slot) settled
  done ← record_mutation m version response saved
  ok (response, done)

-- No row was updated: another commit of the same request may be the reason.
abbrev pub replay_or_conflict : Option Fields → Db → Result (Fields × Db)
replay_or_conflict (some response) db = ok (response, db)
replay_or_conflict none db = err version_conflict

abbrev pub swap_with : Mutation → Option (List SessionRow × ℕ) → Db → Result (Fields × Db)
swap_with m (some (rows, version)) db = write_parts m version (record db { sessions = rows })
swap_with m none db =
    replay_or_conflict (mutation_response m.session_id m.request_id db.session_mutations) db

unfoldable pub swap_version : Mutation → Db → Result (Fields × Db)
unfolding write_parts
swap_version m db = swap_with m (update_session m db.sessions) db

-- A failed transaction is rolled back.
abbrev pub settle : Db → Result (Fields × Db) → Result Fields × Db
settle db (ok (response, db')) = (ok response, db')
settle db (err e) = (err e, db)

abbrev pub commit_with : Option Fields → Mutation → Db → Result Fields × Db
commit_with (some response) m db = (ok response, db)
commit_with none m db = settle db (swap_version m db)

-- `seen` is the database at the first read, and `db` the one that the `UPDATE` meets once it has
-- the row's lock: others may have committed between the two.
unfoldable pub commit_session_mutation : Mutation → Db → Db → Result Fields × Db
unfolding swap_version
commit_session_mutation m seen db =
    commit_with (mutation_response m.session_id m.request_id seen.session_mutations) m db
