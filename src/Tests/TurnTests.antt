-- ===== src/Tests/TurnTests.antt =====
-- A turn whose narrator fails twice and then answers.
use agens_web.Prelude.{
  ◌≡◌, ◌≢◌, refl, String, Bool, true, false, List, [], ◌∷◌, none, some, pos, ltb, arith, strip, sym,
  ap, ◌∙◌, subst,
}
use agens_web.Python.{str, dict, Fields, field, end, truthy}
use agens_web.Session.State.{GameSession, new_session}
use agens_web.Game.Progress.Chance.{Dice}
use agens_web.Engine.Pending.{
  Interchange, Answer, returned, PendingModelFailureV1, to_dict, from_payload, created, json_object,
  is_empty, text_length,
}
use agens_web.Engine.Pending.RoundTrip.{from_payload-to_dict, created-IsPending}
use agens_web.Engine.Choices.{fallback_choices}
use agens_web.Engine.Choices.Slots.{InSlots, fallback_choices-InSlots}
use agens_web.Engine.Turns.{Run, Outcome, Policies}
use agens_web.Engine.Turns.Narrator.{
  Agent, ok, request_failed, classify_narrator_result, run_narrator, narrator_contract_failure,
  is_retryable_model_request_failure, should_retry_incomplete,
}
use agens_web.Engine.Turns.Steps.{frozen}
use agens_web.Engine.Turns.Flow.{handle_action}
use agens_web.Engine.Turns.Settled.{Accepted}
use agens_web.Engine.Turns.Held.{HasSections, handle_action_settled, counted}
use agens_web.Engine.Turns.Local.{resolve_pending_model_failure_local}
use agens_web.Engine.Turns.Machine.{resolve_pending_model_failure, outcome_of}
use agens_web.Engine.Turns.Retry.{Waits, Settles, retry_until, handle_action-retry_until}
use agens_web.Tests.Plain.{plain}

-- JSON that is in its normal form already.
instance abbrev pub io : Interchange
io = record { dumps_loads = λ fs. some (dict fs); sha256 = λ fs. "digest"; alnum = λ c. false }

abbrev a_year : Fields
a_year =
    field "character" (dict (field "age" (str "+1") end))
      (field "world" (dict end) (field "meta" (dict end) end))

abbrev pub policies : Policies
policies = record {
  settle_turn_outcome = λ text run. record { state_delta = a_year; turn_summary = "一年过去。" };
  normalize_choices = λ v. "静坐" ∷ "访友" ∷ "探险" ∷ "随缘" ∷ [];
  has_unapproved_time_span = λ narrative delta. false;
  is_consistent = λ narrative delta. true;
  conflicts_with_stage_delta = λ narrative delta s. false;
  conflicts_with_authoritative_realm = λ narrative s. false;
  generic_distinct_chronicle = λ delta s. "岁月如常。";
  narrative_from_rule_delta = λ delta. "一年过去。";
  visible_delta_chronicle = λ delta. "";
  is_recent_duplicate = λ run narrative. false;
  has_visible_authoritative_delta = λ delta narrative. true;
}

abbrev dice : Dice
dice = record { digest = λ t. 12345; fresh = 678 }

abbrev run : Run
run = record {
  session = record new_session { game_started = true; run_seed = "seed" };
  pending_model_failure = end;
  turn_history = [];
}

abbrev pub silent : Agent
silent n input = none

abbrev pub answering : Agent
answering n input = some (field "narrative" (str "山中一年。") end)

nothing_pending : from_payload (dict end) ≡ returned none
unfolding from_payload truthy
nothing_pending = refl

silent_fails :
    (text : String)
    → (classify_narrator_result policies (run_narrator policies silent text "一年过去。")).kind
      ≡ request_failed
unfolding classify_narrator_result run_narrator truthy
silent_fails text = refl

answering_answers :
    (text : String)
    → (classify_narrator_result policies (run_narrator policies answering text "一年过去。")).kind ≡ ok
unfolding classify_narrator_result run_narrator truthy narrator_contract_failure
    is_retryable_model_request_failure should_retry_incomplete strip
answering_answers text = refl

pub failed_not_ok : request_failed ≢ ok
failed_not_ok h = absurd (ground arith)

year_sections : HasSections a_year (field "age" (str "+1") end) end end
year_sections = record { of_character = refl; of_world = refl; of_meta = refl }

handle_action_settled_example :
    Accepted dice policies "A"
      (run_narrator policies answering "A" "一年过去。")
      a_year
      (field "age" (str "+1") end)
      end
      end
      (counted policies dice "id" "A" answering run "一年过去。" a_year)
      (handle_action policies dice "id" answering "A" run)
handle_action_settled_example =
    handle_action_settled policies dice "id" "A" answering run "一年过去。" a_year
      (field "age" (str "+1") end) end end nothing_pending refl year_sections
      (answering_answers "A")

abbrev no_choices : GameSession → List String
no_choices s = []

abbrev unchanged : String → PendingModelFailureV1 → Run → Answer (Run × Bool)
unchanged action p r = returned (r, false)

abbrev year_outcome : Outcome
year_outcome = record { state_delta = a_year; turn_summary = "一年过去。" }

frozen_year : json_object (dict (frozen a_year "一年过去。")) ≡ frozen a_year "一年过去。"
unfolding json_object
frozen_year = refl

frozen_filled : is_empty (json_object (dict (frozen a_year "一年过去。"))) ≡ false
unfolding json_object is_empty
frozen_filled = refl

frozen_outcome : outcome_of (json_object (dict (frozen a_year "一年过去。"))) ≡ some year_outcome
unfolding json_object
frozen_outcome = refl

pub short_id : ltb 64 (text_length "id") ≡ false
unfolding text_length
short_id = refl

handle_action-retry_until_example :
    let character = field "age" (str "+1") end in
    (waiting : Run) × (handle_action policies dice "id" silent "A" run ≡ returned waiting)
    × (waiting.session ≡ run.session)
    × (waiting.turn_history ≡ run.turn_history)
    × Settles policies dice no_choices unchanged character end end run
        (retry_until policies dice no_choices unchanged (silent ∷ answering ∷ []) waiting)
handle_action-retry_until_example =
    handle_action-retry_until policies dice no_choices unchanged (field "age" (str "+1") end) end
      end "id" "A" "一年过去。" a_year year_outcome run silent (silent ∷ []) answering request_failed
      nothing_pending refl (silent_fails "A") failed_not_ok refl short_id frozen_filled
      (ap (λ fs. json_object (dict fs)) frozen_year) frozen_outcome year_sections
      ((λ h. failed_not_ok (sym (silent_fails _) ∙ h)), tt) (answering_answers _)

abbrev waiting_turn : PendingModelFailureV1
waiting_turn = created "id" "turn" "A" "A" (frozen a_year "一年过去。") (pos 0) "request_failed"

from_payload-to_dict_example :
    from_payload (dict (to_dict waiting_turn)) ≡ returned (some waiting_turn)
from_payload-to_dict_example = from_payload-to_dict waiting_turn (
    created-IsPending "id" "turn" "A" "A" (frozen a_year "一年过去。") (pos 0) "request_failed" refl refl
      short_id (subst (λ fs. is_empty fs ≡ false) frozen_year frozen_filled) frozen_year)

fallback_choices-InSlots_example : InSlots (fallback_choices new_session)
fallback_choices-InSlots_example = fallback_choices-InSlots new_session

abbrev held_back : Run
held_back = record run { pending_model_failure = to_dict waiting_turn }

held_back-Waits : Waits policies dice no_choices unchanged waiting_turn year_outcome held_back
held_back-Waits = record {
  is_pending =
      created-IsPending "id" "turn" "A" "A" (frozen a_year "一年过去。") (pos 0) "request_failed" refl
        refl short_id (subst (λ fs. is_empty fs ≡ false) frozen_year frozen_filled) frozen_year;
  of_turn = refl;
  waiting = refl;
  outcome = refl;
  kept_in_run = refl;
}

resolve_pending_model_failure_local_example :
    Settles policies dice no_choices unchanged (field "age" (str "+1") end) end end held_back (
      resolve_pending_model_failure policies dice no_choices unchanged silent "use_local_story"
        held_back)
resolve_pending_model_failure_local_example =
    resolve_pending_model_failure_local policies dice no_choices unchanged
      (field "age" (str "+1") end) end end silent waiting_turn year_outcome held_back
      held_back-Waits year_sections
