-- ===== src/Web/Service/Laws/Turns.antt =====
-- A turn as a request: it is carried out as a whole, or taken back.
use agens_web.Prelude.{
  ◌≡◌, ◌⊎◌, refl, sym, ap, ◌∙◌, subst, String, suc, Option, none, some, false, is_blank, lookup,
  inl, inr,
}
use agens_web.Python.{Fields, Runtime}
use agens_web.Engine.Turns.{Run}
use agens_web.Engine.Pending.{Interchange, Answer, raised, returned}
use agens_web.Web.Store.Rows.{Turn}
use agens_web.Web.Store.Commit.{mutation_response, get_session_mutation}
use agens_web.Web.Store.Laws.Versions.{version_of}
use agens_web.Web.Service.{
  WebRunner, Play, played, Step, completed, broken, Backend, Moment, WebGameService, Fault, Reply,
  reply, fault, restore_runner,
}
use agens_web.Web.Service.Runners.{register_runner}
use agens_web.Web.Service.Commit.{
  Context, duplicate, fresh, request_id_of, mutation_context, rollback_state, rolled_back,
  restore_rollback, refused, replaced, in_place,
}
use agens_web.Web.Service.Turns.Row.{Before, turn_start_snapshot, settled_turn_payload}
use agens_web.Web.Service.Turns.{
  engine_turn, kept_or_back, turn_parts, turn_committed, turn_settled, turn_applied, turn_in,
  advance_turn,
}
use agens_web.Web.Service.Laws.Commits.{
  IsNew, request_context-IsNew, unseen_request, lookup-replaced, IsCommitted,
  commit_runner-IsCommitted,
}

module _ ⦃py : Runtime⦄ (web : Backend) (runner : WebRunner) (request_id : String) where
  -- The runner that the snapshot before the request gives, whatever the engine made of it since.
  abbrev saved_runner : Answer Run → Answer WebRunner
  saved_runner raised = raised
  saved_runner (returned run) = returned (record runner { run = run })

  rolled_back-saved :
      (play : Play) (o : Answer Run)
      → web.from_save_dict (web.to_save_dict runner.run) ≡ o
      → rolled_back web (rollback_state web runner) (played play runner) ≡ saved_runner o
  unfolding rolled_back restore_runner
  rolled_back-saved play raised h = rw (h) refl
  rolled_back-saved play (returned run) h = rw (h) refl

  module _ ⦃io : Interchange⦄ (moment : Moment) (before : WebGameService) where
    -- What is left after a failure: the runner is the one from before, with the game that its save
    -- reads back as; or the save cannot be read, and the runner is left as the engine made it. The
    -- database is the one from before.
    abbrev pub IsTakenBack : Answer Run → WebGameService → Type 0
    IsTakenBack raised service = (torn : Play) × (service ≡ in_place (played torn runner) before)
    IsTakenBack (returned run) service =
        service ≡ register_runner runner.session_id moment.now (record runner { run = run }) before

    -- The request was carried out: the database and the cached runner are at the next version, and
    -- the response is recorded. Or it failed, and it was refused at once or taken back.
    abbrev pub IsAtomic : Reply Fields × WebGameService → Type 0
    IsAtomic (reply response, service) =
        (version_of runner.session_id service.db.sessions ≡ some (suc runner.version))
        × (mutation_response runner.session_id request_id service.db.session_mutations
            ≡ some response)
        × ((after : WebRunner) × (lookup runner.session_id service.runners ≡ some after)
            × (after.version ≡ suc runner.version)
            × (after.user_id ≡ runner.user_id))
    IsAtomic (fault e, service) =
        (service ≡ before) ⊎ IsTakenBack (web.from_save_dict (web.to_save_dict runner.run)) service

    module _ (cached : lookup runner.session_id before.runners ≡ some runner)
        (unseen : mutation_response runner.session_id request_id before.db.session_mutations
          ≡ none) where
      refused-IsAtomic :
          (e : Fault) (play : Play) (o : Answer Run)
          → web.from_save_dict (web.to_save_dict runner.run) ≡ o
          → IsAtomic (refused web e (played play runner) moment.now (saved_runner o) before)
      refused-IsAtomic e play raised h = inr (rw (h) (play, refl))
      refused-IsAtomic e play (returned run) h = inr (rw (h) refl)

      restore_rollback-IsAtomic :
          (e : Fault) (play : Play)
          → IsAtomic (
              restore_rollback web e
                (rollback_state web runner)
                (played play runner)
                moment.now
                before)
      unfolding restore_rollback
      restore_rollback-IsAtomic e play =
          subst (λ back. IsAtomic (refused web e (played play runner) moment.now back before))
            (sym (rolled_back-saved play _ refl)) (refused-IsAtomic e play _ refl)

      kept_or_back-IsAtomic :
          (play : Play) (c : Reply (Fields × WebRunner) × WebGameService)
          → IsCommitted web runner request_id (played play runner) before c
          → IsAtomic
              (kept_or_back web (rollback_state web runner) (played play runner) moment.now c)
      kept_or_back-IsAtomic play (fault e, service) h =
          subst
            (λ s. IsAtomic (
              restore_rollback web e (rollback_state web runner) (played play runner) moment.now s))
            (sym h) (restore_rollback-IsAtomic e play)
      kept_or_back-IsAtomic play (reply (response, after), service) (same, version, answer, there) =
          let next : WebRunner = record (played play runner) { version = suc runner.version } in
          (
            version,
            answer,
            (
              next,
              subst (λ r. lookup runner.session_id (replaced r service.runners) ≡ some next)
                  (sym same)
                  (lookup-replaced next runner service.runners
                    (ap (lookup runner.session_id) there ∙ cached)),
              refl,
              refl,
            ),
          )

      turn_committed-IsAtomic :
          (play : Play) (turn : Answer (Option Turn))
          → IsAtomic (
              turn_committed web moment runner.version request_id
                (rollback_state web runner)
                (played play runner)
                turn
                before)
      turn_committed-IsAtomic play raised = restore_rollback-IsAtomic _ play
      turn_committed-IsAtomic play (returned turn) = kept_or_back-IsAtomic play _ (
          commit_runner-IsCommitted web runner request_id moment play
            (turn_parts web (played play runner) turn) before unseen)

      turn_settled-IsAtomic :
          (start : Before) (action : String) (step : Step)
          → IsAtomic (
              turn_settled web moment runner.version request_id
                (rollback_state web runner)
                start
                action
                runner
                step
                before)
      turn_settled-IsAtomic start action (broken play) = restore_rollback-IsAtomic _ play
      turn_settled-IsAtomic start action (completed play) =
          turn_committed-IsAtomic play (settled_turn_payload web (played play runner) start action)

      turn_applied-IsAtomic :
          (action : String) (step : Step)
          → IsAtomic (
              turn_applied web moment runner.version request_id
                (rollback_state web runner)
                action
                runner
                step
                before)
      turn_applied-IsAtomic action (broken play) = restore_rollback-IsAtomic _ play
      turn_applied-IsAtomic action (completed play) =
          turn_settled-IsAtomic (turn_start_snapshot play.run.session) action
            (engine_turn web runner.version action play)

      turn_in-IsAtomic :
          (action : String) (context : Reply Context)
          → IsNew runner request_id context
          → IsAtomic (turn_in web moment action runner context before)
      turn_in-IsAtomic action (fault e) h = inl refl
      turn_in-IsAtomic action (reply (duplicate response)) h = absurd h
      turn_in-IsAtomic action (reply (fresh q version)) (hq, hv) =
          subst (λ q. IsAtomic (turn_in web moment action runner (reply (fresh q version)) before))
            (sym hq)
            (subst
              (λ v. IsAtomic (turn_in web moment action runner (reply (fresh request_id v)) before))
              (sym hv) (turn_applied-IsAtomic action (web.apply_runner runner)))

-- A turn is carried out as a whole or not at all, whatever the engine does and wherever it fails.
-- Where the request is answered, the session in the database and the cached runner are both at the
-- next version, and the answer is recorded for the request. Where it is refused, the database is as
-- it was, and the service is as it was or has the runner from before the turn registered again, with
-- the game that its save reads back as; where the save cannot be read, the cached runner keeps what
-- the engine made of it. The request is new, and its runner is the cached one.
pub advance_turn-IsAtomic :
    ⦃py : Runtime⦄ ⦃io : Interchange⦄ (web : Backend) (moment : Moment) (payload : Fields)
    (action : String) (runner : WebRunner) (service : WebGameService)
    → lookup runner.session_id service.runners ≡ some runner
    → mutation_response runner.session_id
        (request_id_of moment.uuid payload)
        service.db.session_mutations
      ≡ none
    → IsAtomic web runner
        (request_id_of moment.uuid payload)
        moment
        service
        (advance_turn web moment payload action runner service)
unfolding advance_turn mutation_context
advance_turn-IsAtomic web moment payload action runner service cached unseen =
    let q = request_id_of moment.uuid payload in
    rw (unseen_request runner q service unseen) (
      turn_in-IsAtomic web runner q moment service cached unseen action _
        (request_context-IsNew runner q payload))

answered_context :
    ⦃py : Runtime⦄ ⦃io : Interchange⦄ (web : Backend) (moment : Moment) (payload : Fields)
    (action : String) (runner : WebRunner) (service : WebGameService) (response : Fields)
    → is_blank (request_id_of moment.uuid payload) ≡ false
    → mutation_response runner.session_id
        (request_id_of moment.uuid payload)
        service.db.session_mutations
      ≡ some response
    → advance_turn web moment payload action runner service ≡ (reply response, service)
unfolding advance_turn mutation_context get_session_mutation
answered_context web moment payload action runner service response named seen =
    rw (named, seen) refl

-- Once a turn has been answered, the same request of the same session gets the same answer in the
-- service that the turn left, at any later moment, from any runner of the session and with any
-- action: the engine is not asked again, and the service stays exactly as it is. The first request is
-- new, its runner is the cached one, and the request has an identifier.
pub advance_turn_again :
    ⦃py : Runtime⦄ ⦃io : Interchange⦄ (web : Backend) (moment later : Moment)
    (payload payload' : Fields) (action action' : String) (runner runner' : WebRunner)
    (service service' : WebGameService) (response : Fields)
    → lookup runner.session_id service.runners ≡ some runner
    → mutation_response runner.session_id
        (request_id_of moment.uuid payload)
        service.db.session_mutations
      ≡ none
    → advance_turn web moment payload action runner service ≡ (reply response, service')
    → runner'.session_id ≡ runner.session_id
    → request_id_of later.uuid payload' ≡ request_id_of moment.uuid payload
    → is_blank (request_id_of later.uuid payload') ≡ false
    → advance_turn web later payload' action' runner' service' ≡ (reply response, service')
advance_turn_again web moment later payload payload' action action' runner runner' service service'
      response cached unseen done same_session same_request named =
    let atomic =
      subst (IsAtomic web runner (request_id_of moment.uuid payload) moment service) done
        (advance_turn-IsAtomic web moment payload action runner service cached unseen) in
    answered_context web later payload' action' runner' service' response named (
      ap
        (λ id.
          mutation_response id (request_id_of later.uuid payload') service'.db.session_mutations)
        same_session
      ∙ ap (λ q. mutation_response runner.session_id q service'.db.session_mutations) same_request
      ∙ atomic.1)
