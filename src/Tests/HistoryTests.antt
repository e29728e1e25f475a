-- ===== src/Tests/HistoryTests.antt =====
-- The context of a turn whose texts have spaces around them.
use agens_web.Prelude.{◌≡◌, [], ◌∷◌, some, strip}
use agens_web.Python.{str, dict, Fields, field, end, get}
use agens_web.Session.State.{new_session}
use agens_web.Engine.History.{context_of, meta_of, accepted_turn_context, accepted_context}
use agens_web.Engine.History.Context.{accepted_context-accepted_turn_context}
use agens_web.Tests.Plain.{plain}

abbrev told : Fields
told =
    field "meta" (dict (field "choice_slot" (str " A ") (field "turn_summary" (str "一年过去。 ") end)))
      end

accepted_context-accepted_turn_context_example :
    let c = context_of new_session (meta_of (get "meta" told)) ("静坐 " ∷ " " ∷ []) in
    accepted_context (accepted_turn_context new_session told ("静坐 " ∷ " " ∷ []))
    ≡ some (record c { motif = strip c.motif })
accepted_context-accepted_turn_context_example =
    accepted_context-accepted_turn_context new_session told ("静坐 " ∷ " " ∷ [])
