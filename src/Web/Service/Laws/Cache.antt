-- ===== src/Web/Service/Laws/Cache.antt =====
-- The cache of runners: its two dicts agree, and it stays within its bound.
use agens_web.Prelude.{
  ℕ, ◌-◌, ◌≤◌, ◌≡◌, sym, ap, subst, ◌∙◌, String, false, List, keys, length, take, leb, leb→le, inl,
  inr, Bool-cases, arith,
}
use agens_web.Web.Service.{WebRunner, WebGameService}
use agens_web.Web.Service.Runners.{
  drop_runners, idle_runners, remove_all, by_recency, evicted, max_runners, prune_runners,
  stored_runner, register_runner,
}
use agens_web.Web.Service.Laws.Keys.{
  AreDistinct, keys-add, add_key, add_key-AreDistinct, keys-remove_all, delete_all,
  delete_all-AreDistinct, length-keys, length-delete_all, mem-by_recency, length-by_recency,
  by_recency-AreDistinct, take-AreDistinct, length-take, take-Within,
}

-- The two dicts have the same keys in the same order, each once.
abbrev pub IsCoherent : WebGameService → Type 0
IsCoherent service =
    (keys service.runners ≡ keys service.last_used) × AreDistinct (keys service.last_used)

drop_runners-IsCoherent :
    (ids : List String) (service : WebGameService)
    → IsCoherent service
    → IsCoherent (drop_runners ids service)
drop_runners-IsCoherent ids service (same, distinct) = (
  keys-remove_all ids service.runners
      ∙ ap (delete_all ids) same
      ∙ sym (keys-remove_all ids service.last_used),
  subst AreDistinct (sym (keys-remove_all ids service.last_used))
      (delete_all-AreDistinct ids _ distinct),
)

stored_runner-IsCoherent :
    (id : String) (now : ℕ) (runner : WebRunner) (service : WebGameService)
    → IsCoherent service
    → IsCoherent (stored_runner id now runner service)
stored_runner-IsCoherent id now runner service (same, distinct) = (
  keys-add id runner service.runners
      ∙ ap (add_key id) same
      ∙ sym (keys-add id now service.last_used),
  subst AreDistinct (sym (keys-add id now service.last_used)) (add_key-AreDistinct id _ distinct),
)

-- What the eviction leaves is as many runners as fit.
length-evicted :
    (service : WebGameService)
    → IsCoherent service
    → leb (length service.runners) max_runners ≡ false
    → length (drop_runners (evicted service) service).runners ≡ max_runners
length-evicted service (same, distinct) over =
    let n = length service.runners - max_runners in
    let recent = keys (by_recency service.last_used) in
    let sizes : length service.runners ≡ length (keys service.last_used) =
      sym (length-keys service.runners) ∙ ap length same in
    let gone =
      length-delete_all (take n recent) (keys service.runners)
        (take-AreDistinct n recent (by_recency-AreDistinct service.last_used distinct))
        (take-Within n recent (keys service.runners)
          λ k m. rw same (sym (mem-by_recency k service.last_used) ∙ m)) in
    let taken = length-take n recent (omega (arith, sizes, length-by_recency service.last_used)) in
    let left =
      sym (length-keys (remove_all (evicted service) service.runners))
      ∙ ap length (keys-remove_all (evicted service) service.runners) in
    left ∙ ground (arith, gone, taken, length-keys service.runners)

abbrev pub IsCache : WebGameService → Type 0
IsCache service = IsCoherent service × (length service.runners ≤ 128)

prune_runners-IsCache :
    (now : ℕ) (service : WebGameService) → IsCoherent service → IsCache (prune_runners now service)
unfolding prune_runners
prune_runners-IsCache now service h =
    let kept = drop_runners (idle_runners now 1800 service.last_used) service in
    let c = drop_runners-IsCoherent (idle_runners now 1800 service.last_used) service h in
    elim (Bool-cases (leb (length kept.runners) max_runners)) [
      | inl fits ↦ rw (fits) (c, leb→le _ _ fits)
      | inr over ↦
          rw (over) (
            drop_runners-IsCoherent (evicted kept) kept c,
            omega (arith, length-evicted kept c over),
          )
    ]

-- Whatever the cache holds, once a runner has been registered the two dicts of the cache have the
-- same keys, each once, and there are at most 128 runners. The dicts agree before.
pub register_runner-IsCache :
    (id : String) (now : ℕ) (runner : WebRunner) (service : WebGameService)
    → IsCoherent service
    → IsCache (register_runner id now runner service)
unfolding register_runner
register_runner-IsCache id now runner service h =
    prune_runners-IsCache now _ (stored_runner-IsCoherent id now runner service h)
