-- ===== src/Web/Service/Laws/Owned.antt =====
-- Who may take a runner from the service.
use agens_web.Prelude.{
  ℕ, List, ◌≡◌, refl, String, Bool, true, false, Option, none, some, lookup, is_blank, inl, inr,
  Bool-cases, Option-cases, arith, eq_iff,
}
use agens_web.Python.{Value, Runtime}
use agens_web.Engine.Turns.{Run}
use agens_web.Engine.Pending.{Answer, raised, returned}
use agens_web.Web.Store.Rows.{SessionRow}
use agens_web.Web.Service.{
  WebRunner, Backend, WebGameService, Reply, reply, fault, is_guest_user_id, restore_runner,
  runner_from,
}
use agens_web.Web.Service.Runners.{
  is_signed_in, is_user, cached_runner, registered, owned_row, loaded_row, loaded_runner, runner_of,
  prune_runners, register_runner,
}

-- A signed-in user has their own runner, and anybody else has a guest's.
abbrev pub IsAllowed : Bool → Option String → WebRunner → Type 0
IsAllowed true (some user_id) runner = runner.user_id ≡ user_id
IsAllowed true none runner = ⊥
IsAllowed false user_id runner = is_guest_user_id runner.user_id ≡ true

abbrev pub IsAnswer : Option String → WebGameService → Reply WebRunner × WebGameService → Type 0
IsAnswer user_id before (reply runner, service) =
    IsAllowed (is_signed_in user_id) user_id runner × (service.db ≡ before.db)
IsAnswer user_id before (fault e, service) = service ≡ before

-- Registering a runner writes nothing to the database.
pub register_runner-db :
    (id : String) (now : ℕ) (runner : WebRunner) (service : WebGameService)
    → (register_runner id now runner service).db ≡ service.db
unfolding register_runner prune_runners
register_runner-db id now runner service = ground arith

module _ ⦃py : Runtime⦄ (web : Backend) where
  abbrev pub IsRestored : String → String → ℕ → Answer WebRunner → Type 0
  IsRestored session_id user_id version raised = Unit
  IsRestored session_id user_id version (returned runner) =
      (runner.session_id ≡ session_id) × (runner.user_id ≡ user_id) × (runner.version ≡ version)

  runner_from-IsRestored :
      (session_id user_id token : String) (events : List Value) (version : ℕ) (a : Answer Run)
      → IsRestored session_id user_id version
          (runner_from web session_id user_id events token version a)
  runner_from-IsRestored session_id user_id token events version raised = tt
  runner_from-IsRestored session_id user_id token events version (returned run) = (refl, refl, refl)

  pub restore_runner-IsRestored :
      (session_id user_id token : String) (snapshot : Value) (events : List Value) (version : ℕ)
      → IsRestored session_id user_id version
          (restore_runner web session_id user_id snapshot events token version)
  unfolding restore_runner
  restore_runner-IsRestored session_id user_id token snapshot events version =
      runner_from-IsRestored session_id user_id token events version (web.from_save_dict snapshot)

  cached_runner-IsAnswer :
      (session_id : String) (user_id : Option String) (now : ℕ) (runner : WebRunner)
      (service : WebGameService)
      → IsAnswer user_id service (cached_runner session_id user_id now runner service)
  cached_runner-IsAnswer session_id none now runner service =
      elim (Bool-cases (is_guest_user_id runner.user_id)) [
        | inl g ↦ rw (g) (g, refl)
        | inr g ↦ rw (g) refl
      ]
  cached_runner-IsAnswer session_id (some user_id) now runner service =
      ground (arith, eq_iff user_id runner.user_id)

  registered-IsAnswer :
      (session_id user_id : String) (now version : ℕ) (service : WebGameService)
      (a : Answer WebRunner)
      → is_blank user_id ≡ false
      → IsRestored session_id user_id version a
      → IsAnswer (some user_id) service (registered web session_id now a service)
  registered-IsAnswer session_id user_id now version service raised n h = refl
  registered-IsAnswer session_id user_id now version service (returned runner) n h =
      rw (n) (h.1, register_runner-db session_id now runner service)

  owned_row-IsAnswer :
      (session_id user_id : String) (now : ℕ) (row : SessionRow) (service : WebGameService)
      → is_blank user_id ≡ false
      → IsAnswer (some user_id) service (owned_row web session_id user_id now row service)
  owned_row-IsAnswer session_id user_id now row service n =
      elim (Bool-cases (is_user row.user_id user_id)) [
        | inl own ↦ rw (own) (
            registered-IsAnswer session_id user_id now row.version service _ n
              (restore_runner-IsRestored session_id user_id "" row.snapshot row.events row.version))
        | inr other ↦ rw (other) refl
      ]

  loaded_row-IsAnswer :
      (session_id user_id : String) (now : ℕ) (row : Option SessionRow) (service : WebGameService)
      → is_blank user_id ≡ false
      → IsAnswer (some user_id) service (loaded_row web session_id user_id now row service)
  loaded_row-IsAnswer session_id user_id now none service n = refl
  loaded_row-IsAnswer session_id user_id now (some row) service n =
      owned_row-IsAnswer session_id user_id now row service n

  loaded_runner-IsAnswer :
      (session_id : String) (user_id : Option String) (now : ℕ) (service : WebGameService)
      → IsAnswer user_id service (loaded_runner web session_id user_id now service)
  loaded_runner-IsAnswer session_id none now service = refl
  loaded_runner-IsAnswer session_id (some user_id) now service =
      elim (Bool-cases (is_blank user_id)) [
        | inl b ↦ rw (b) refl
        | inr b ↦ rw (b) (loaded_row-IsAnswer session_id user_id now _ service b)
      ]

  -- A signed-in user is given only a runner of their own, and a request without a user only a
  -- guest's, whether the runner comes from the cache or from the database; the database stays as it
  -- is, and where the runner is refused the whole service does.
  pub runner_of-IsAnswer :
      (session_id : String) (user_id : Option String) (now : ℕ) (service : WebGameService)
      → IsAnswer user_id service (runner_of web session_id user_id now service)
  unfolding runner_of
  runner_of-IsAnswer session_id user_id now service =
      elim (Option-cases (lookup session_id service.runners)) [
        | inl e ↦ rw (e) (loaded_runner-IsAnswer session_id user_id now service)
        | inr (runner, e) ↦ rw (e) (cached_runner-IsAnswer session_id user_id now runner service)
      ]
