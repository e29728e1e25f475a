-- ===== src/Web/Service/Laws/Saves.antt =====
-- src/web/backend/service_saves.py: what a load makes of the session and of the cached runner.
use agens_web.Prelude.{◌≡◌, refl, sym, ap, subst, String, suc, Option, none, some}
use agens_web.Python.{Fields, Runtime}
use agens_web.Engine.Pending.{Interchange, Answer, raised, returned}
use agens_web.Engine.Turns.{Run}
use agens_web.Web.Store.Rows.{SaveRow}
use agens_web.Web.Store.Commit.{mutation_response}
use agens_web.Web.Store.Laws.Versions.{version_of}
use agens_web.Web.Service.{
  WebRunner, play_of, Backend, Moment, WebGameService, Reply, reply, fault, runner_from,
  fallback_prompt_state_from_events, restore_runner,
}
use agens_web.Web.Service.Runners.{register_runner}
use agens_web.Web.Service.Commit.{Context, duplicate, fresh, request_id_of, mutation_context}
use agens_web.Web.Service.Saves.{
  slot_name, load_save, require_non_guest_runner, load_parts, registered_load, load_restored,
  load_row, load_in, load,
}
use agens_web.Web.Service.Laws.Commits.{
  IsCommitted, commit_runner-IsCommitted, IsNew, request_context-IsNew, unseen_request,
}

module _ ⦃py : Runtime⦄ ⦃io : Interchange⦄ (web : Backend) (runner : WebRunner)
    (request_id : String) (moment : Moment) (before : WebGameService) where
  -- The request was carried out: the game of the slot is the session's, in the database and in the
  -- cache, at the next version. Or it failed, and nothing changed.
  abbrev pub IsLoaded : String → Reply Fields × WebGameService → Type 0
  IsLoaded name (reply response, service) =
      (saved : SaveRow) × (restored : WebRunner) × (kept : WebGameService) × (load_save
          runner.user_id name before.db.saves
        ≡ some saved)
      × (web.from_save_dict saved.snapshot ≡ returned restored.run)
      × (restored.events ≡ saved.events)
      × (restored.user_id ≡ runner.user_id)
      × (restored.version ≡ suc runner.version)
      × (version_of runner.session_id kept.db.sessions ≡ some (suc runner.version))
      × (mutation_response runner.session_id request_id kept.db.session_mutations ≡ some response)
      × (kept.runners ≡ before.runners)
      × (service ≡ register_runner runner.session_id moment.now restored kept)
  IsLoaded name (fault e, service) = service ≡ before

  module _ (name : String)
      (unseen : mutation_response runner.session_id request_id before.db.session_mutations
        ≡ none) where
    module _ (saved : SaveRow)
        (found : load_save runner.user_id name before.db.saves ≡ some saved) where
      -- The runner of the slot, still at the version of the session.
      abbrev restored_with : Run → WebRunner
      restored_with run =
          let (active, text) = fallback_prompt_state_from_events web saved.events in
          record {
            session_id = runner.session_id;
            user_id = runner.user_id;
            run = run;
            events = saved.events;
            guest_token = "";
            version = runner.version;
            fallback_prompt_text = text;
            fallback_prompt_active = active;
          }

      registered_load-IsLoaded :
          (run : Run) (c : Reply (Fields × WebRunner) × WebGameService)
          → web.from_save_dict saved.snapshot ≡ returned run
          → IsCommitted web (restored_with run) request_id (restored_with run) before c
          → IsLoaded name (registered_load web moment.now c)
      registered_load-IsLoaded run (fault e, service) h same = same
      registered_load-IsLoaded run (reply (response, after), service) h
            (same, version, answer, there) =
          (
            saved,
            record (restored_with run) { version = suc runner.version },
            service,
            found,
            h,
            refl,
            refl,
            refl,
            version,
            answer,
            there,
            ap (λ r. register_runner r.session_id moment.now r service) same,
          )

      restored-IsLoaded :
          (a : Answer Run)
          → web.from_save_dict saved.snapshot ≡ a
          → IsLoaded name (
              load_restored web moment request_id runner.version saved.name
                (runner_from web runner.session_id runner.user_id saved.events "" runner.version a)
                before)
      restored-IsLoaded raised h = refl
      restored-IsLoaded (returned run) h = registered_load-IsLoaded run _ h (
          commit_runner-IsCommitted web (restored_with run) request_id moment
            (play_of (restored_with run)) (load_parts web saved.name (restored_with run)) before
            unseen)

    load_row-IsLoaded :
        (row : Option SaveRow)
        → load_save runner.user_id name before.db.saves ≡ row
        → IsLoaded name (load_row web moment runner request_id runner.version row before)
    unfolding restore_runner
    load_row-IsLoaded none h = refl
    load_row-IsLoaded (some saved) h =
        restored-IsLoaded saved h (web.from_save_dict saved.snapshot) refl

  load_in-IsLoaded :
      (payload : Fields) (context : Reply Context)
      → mutation_response runner.session_id request_id before.db.session_mutations ≡ none
      → IsNew runner request_id context
      → IsLoaded
          (web.safe_name (slot_name web payload))
          (load_in web moment payload runner context before)
  load_in-IsLoaded payload (fault e) unseen new = refl
  load_in-IsLoaded payload (reply (duplicate response)) unseen new = absurd new
  load_in-IsLoaded payload (reply (fresh q version)) unseen (hq, hv) =
      let name = web.safe_name (slot_name web payload) in
      subst
        (λ q. IsLoaded name (load_in web moment payload runner (reply (fresh q version)) before))
        (sym hq)
        (subst
          (λ v.
            IsLoaded name (load_in web moment payload runner (reply (fresh request_id v)) before))
          (sym hv) (load_row-IsLoaded name unseen _ refl))

-- A load from a slot is carried out as a whole or not at all. Where the request is answered, the
-- slot of that name and of the runner's user held a game that can be read: the runner registered in
-- the cache has this game, its events and its user, and it, like the session in the database, is at
-- the next version; the answer is recorded for the request. Where it is refused, the service is as
-- the look-up of the runner left it. The request is new, and its runner is found and is no guest's.
pub load-IsLoaded :
    ⦃py : Runtime⦄ ⦃io : Interchange⦄ (web : Backend) (moment : Moment) (session_id : String)
    (payload : Fields) (user_id : Option String) (runner : WebRunner)
    (before service : WebGameService)
    → require_non_guest_runner web moment session_id user_id before ≡ (reply runner, service)
    → mutation_response runner.session_id
        (request_id_of moment.uuid payload)
        service.db.session_mutations
      ≡ none
    → IsLoaded web runner
        (request_id_of moment.uuid payload)
        moment
        service
        (web.safe_name (slot_name web payload))
        (load web moment session_id payload user_id before)
unfolding load mutation_context
load-IsLoaded web moment session_id payload user_id runner before service found unseen =
    let q = request_id_of moment.uuid payload in
    rw (found, unseen_request runner q service unseen)
      (load_in-IsLoaded web runner q moment service payload _ unseen
        (request_context-IsNew runner q payload))
