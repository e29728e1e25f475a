-- ===== src/Web/Service/Laws/Commits.antt =====
-- src/web/backend/service.py: what a commit of a runner does.
use agens_web.Prelude.{
  ◌≡◌, refl, sym, ap, ◌∙◌, String, suc, [], ◌∷◌, none, some, lookup, arith, Dict, Option, is_blank,
  inl, inr, Bool-cases, ℤ,
}
use agens_web.Python.{Fields, Runtime, get_or, null, int_of}
use agens_web.Web.Store.Rows.{Db, Mutation, Result, ok, err}
use agens_web.Web.Store.Commit.{mutation_response, commit_session_mutation, get_session_mutation}
use agens_web.Web.Store.Laws.Versions.{version_of, Stepped, commit_session_mutation_version}
use agens_web.Web.Store.Laws.Replay.{Answered, commit_session_mutation-Answered}
use agens_web.Web.Service.{
  WebRunner, Play, played, Backend, Moment, WebGameService, Reply, reply, fault,
}
use agens_web.Web.Service.Commit.{
  Parts, mutation_of, after_commit, commit_runner, replaced, Context, duplicate, fresh, expected_in,
  request_context, is_version, is_none_value,
}
use agens_web.Web.Service.Laws.Versions.{Told, commit_session_mutation-Told}

pub lookup-replaced :
    (runner old : WebRunner) (d : Dict WebRunner)
    → lookup runner.session_id d ≡ some old
    → lookup runner.session_id (replaced runner d) ≡ some runner
lookup-replaced runner old [] h = ground arith
lookup-replaced runner old ((id, other) ∷ d) h = ground (arith, lookup-replaced runner old d)

module _ ⦃py : Runtime⦄ (web : Backend) (runner : WebRunner) (request_id : String) where
  -- What a commit of this runner gives: its next version everywhere and the response recorded, or
  -- nothing at all.
  abbrev pub IsCommitted :
      WebRunner → WebGameService → Reply (Fields × WebRunner) × WebGameService → Type 0
  IsCommitted now before (reply (response, after), service) =
      (after ≡ record now { version = suc runner.version })
      × (version_of runner.session_id service.db.sessions ≡ some (suc runner.version))
      × (mutation_response runner.session_id request_id service.db.session_mutations
          ≡ some response)
      × (service.runners ≡ before.runners)
  IsCommitted now before (fault e, service) = service ≡ before

  after_commit-IsCommitted :
      (m : Mutation) (now : WebRunner) (c : Result Fields × Db) (service : WebGameService)
      → m.session_id ≡ runner.session_id
      → m.request_id ≡ request_id
      → m.expected_version ≡ runner.version
      → Stepped m service.db c
      → Answered m c
      → Told m c
      → IsCommitted now service (after_commit web m.expected_version now c service)
  after_commit-IsCommitted m now (err e, db) service hs hq hv s a t =
      ap (λ db. record service { db = db }) s
  after_commit-IsCommitted m now (ok r, db) service hs hq hv s a t = rw (t) (
    ap (λ v. record now { version = suc v }) hv,
    ap (λ id. version_of id db.sessions) (sym hs) ∙ s.1 ∙ ground (arith, hv),
    ap (λ id. mutation_response id request_id db.session_mutations) (sym hs)
        ∙ ap (λ q. mutation_response m.session_id q db.session_mutations) (sym hq)
        ∙ a,
    refl,
  )

  pub commit_runner-IsCommitted :
      (moment : Moment) (play : Play) (parts : Parts) (service : WebGameService)
      → mutation_response runner.session_id request_id service.db.session_mutations ≡ none
      → IsCommitted
          (played play runner)
          service
          (commit_runner web moment (played play runner) runner.version request_id parts service)
  unfolding commit_runner
  commit_runner-IsCommitted moment play parts service n =
      let m = mutation_of web moment (played play runner) runner.version request_id parts in
      after_commit-IsCommitted m (played play runner)
        (commit_session_mutation m service.db service.db) service refl refl refl
        (commit_session_mutation_version m service.db service.db n n)
        (commit_session_mutation-Answered m service.db n)
        (commit_session_mutation-Told m service.db n)

module _ ⦃py : Runtime⦄ (runner : WebRunner) (request_id : String) where
  -- The context of a request that was not answered before.
  abbrev pub IsNew : Reply Context → Type 0
  IsNew (fault e) = Unit
  IsNew (reply (duplicate response)) = ⊥
  IsNew (reply (fresh q version)) = (q ≡ request_id) × (version ≡ runner.version)

  expected_in-IsNew : (n : Option ℤ) → IsNew (expected_in n request_id runner.version)
  expected_in-IsNew none = tt
  expected_in-IsNew (some n) = elim (Bool-cases (is_version n runner.version)) [
    | inl e ↦ rw (e) (refl, refl)
    | inr e ↦ rw (e) tt
  ]

  pub request_context-IsNew :
      (payload : Fields) → IsNew (request_context none request_id payload runner.version)
  request_context-IsNew payload =
      elim (Bool-cases (is_none_value (get_or "expected_version" null payload))) [
        | inl e ↦ rw (e) (refl, refl)
        | inr e ↦ rw (e) (expected_in-IsNew (int_of (get_or "expected_version" null payload)))
      ]

  pub unseen_request :
      (before : WebGameService)
      → mutation_response runner.session_id request_id before.db.session_mutations ≡ none
      → get_session_mutation runner.session_id request_id before.db ≡ none
  unfolding get_session_mutation
  unseen_request before unseen = elim (Bool-cases (is_blank request_id)) [
    | inl b ↦ rw (b) refl
    | inr b ↦ rw (b) unseen
  ]
