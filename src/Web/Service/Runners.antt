-- ===== src/Web/Service/Runners.antt =====
-- The cache of runners of web/backend/service.py: its bound, its idle time, and who may take a
-- runner from it. The two dicts of the service are written at the same places.
use agens_web.Prelude.{
  ℕ, ◌-◌, String, Bool, false, not, ◌&&◌, List, [], ◌∷◌, Option, none, some, Dict, lookup, insert,
  keys, length, take, if◌then◌else◌, leb, ltb, str_eq, is_blank,
}
use agens_web.Python.{Runtime}
use agens_web.Engine.Pending.{Answer, raised, returned}
use agens_web.Web.Store.Rows.{SessionRow}
use agens_web.Web.Service.{
  WebRunner, Backend, WebGameService, Reply, reply, fault, permission_error, key_error, value_error,
  is_guest_user_id, restore_runner,
}

-- `d.pop(k, None)`
abbrev pub remove {ℓ} : {V : Type ℓ} → String → Dict V → Dict V
remove k [] = []
remove k ((j, v) ∷ d) = if str_eq j k then d else (j, v) ∷ remove k d

abbrev pub remove_all {ℓ} : {V : Type ℓ} → List String → Dict V → Dict V
remove_all [] d = d
remove_all (k ∷ ks) d = remove_all ks (remove k d)

-- `_drop_runner`, for each of some sessions.
abbrev pub drop_runners : List String → WebGameService → WebGameService
drop_runners ids service = record service {
  runners = remove_all ids service.runners;
  last_used = remove_all ids service.last_used;
}

abbrev pub idle_runners : ℕ → ℕ → Dict ℕ → List String
idle_runners now idle_ttl [] = []
idle_runners now idle_ttl ((id, used) ∷ d) =
    let rest = idle_runners now idle_ttl d in if ltb idle_ttl (now - used) then id ∷ rest else rest

-- `sorted(self._runner_last_used, key=…)`, which is stable.
abbrev pub by_use : String × ℕ → Dict ℕ → Dict ℕ
by_use e [] = e ∷ []
by_use e (f ∷ d) = if leb e.1 f.1 then e ∷ f ∷ d else f ∷ by_use e d

abbrev pub by_recency : Dict ℕ → Dict ℕ
by_recency [] = []
by_recency (e ∷ d) = by_use e (by_recency d)

abbrev pub max_runners : ℕ
max_runners = 128

abbrev pub evicted : WebGameService → List String
evicted service = take (length service.runners - max_runners) (keys (by_recency service.last_used))

-- `_prune_runners`: the idle runners go, and then those that were used least recently.
unfoldable pub prune_runners : ℕ → WebGameService → WebGameService
prune_runners now service =
    let kept = drop_runners (idle_runners now 1800 service.last_used) service in
    if leb (length kept.runners) max_runners then kept else drop_runners (evicted kept) kept

abbrev pub stored_runner : String → ℕ → WebRunner → WebGameService → WebGameService
stored_runner session_id now runner service = record service {
  runners = insert session_id runner service.runners;
  last_used = insert session_id now service.last_used;
}

-- `_register_runner`
unfoldable pub register_runner : String → ℕ → WebRunner → WebGameService → WebGameService
unfolding prune_runners
register_runner session_id now runner service =
    prune_runners now (stored_runner session_id now runner service)

abbrev pub load_session : String → List SessionRow → Option SessionRow
load_session id [] = none
load_session id (row ∷ rows) = if str_eq row.id id then some row else load_session id rows

-- The user who asks, where one is signed in.
abbrev pub is_signed_in : Option String → Bool
is_signed_in none = false
is_signed_in (some user_id) = not (is_blank user_id)

abbrev pub is_user : Option String → String → Bool
is_user none id = false
is_user (some user_id) id = str_eq user_id id

abbrev pub cached_runner :
    String → Option String → ℕ → WebRunner → WebGameService → Reply WebRunner × WebGameService
cached_runner session_id user_id now runner service =
    if is_signed_in user_id && not (is_user user_id runner.user_id)
    then (fault permission_error, service)
    else if not (is_signed_in user_id) && not (is_guest_user_id runner.user_id)
    then (fault permission_error, service)
    else (reply runner, record service { last_used = insert session_id now service.last_used })

module _ ⦃py : Runtime⦄ (web : Backend) where
  abbrev pub registered :
      String → ℕ → Answer WebRunner → WebGameService → Reply WebRunner × WebGameService
  registered session_id now raised service = (fault value_error, service)
  registered session_id now (returned runner) service =
      (reply runner, register_runner session_id now runner service)

  abbrev pub owned_row :
      String → String → ℕ → SessionRow → WebGameService → Reply WebRunner × WebGameService
  owned_row session_id user_id now row service =
      if is_user row.user_id user_id
      then registered session_id now
          (restore_runner web session_id user_id row.snapshot row.events "" row.version) service
      else (fault permission_error, service)

  abbrev pub loaded_row :
      String → String → ℕ → Option SessionRow → WebGameService → Reply WebRunner × WebGameService
  loaded_row session_id user_id now none service = (fault key_error, service)
  loaded_row session_id user_id now (some row) service =
      owned_row session_id user_id now row service

  abbrev pub loaded_runner :
      String → Option String → ℕ → WebGameService → Reply WebRunner × WebGameService
  loaded_runner session_id none now service = (fault key_error, service)
  loaded_runner session_id (some user_id) now service =
      if is_blank user_id
      then (fault key_error, service)
      else loaded_row session_id user_id now (load_session session_id service.db.sessions) service

  abbrev pub found_runner :
      String
      → Option String
      → ℕ
      → Option WebRunner
      → WebGameService
      → Reply WebRunner × WebGameService
  found_runner session_id user_id now (some runner) service =
      cached_runner session_id user_id now runner service
  found_runner session_id user_id now none service = loaded_runner session_id user_id now service

  -- `_runner`: from the cache, or from the database for a signed-in user.
  unfoldable pub runner_of :
      String → Option String → ℕ → WebGameService → Reply WebRunner × WebGameService
  runner_of session_id user_id now service =
      found_runner session_id user_id now (lookup session_id service.runners) service
