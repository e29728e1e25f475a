-- ===== src/Engine/History/Context.antt =====
-- The context of an accepted turn is read back from the history.
use agens_web.Prelude.{
  ◌≡◌, refl, ap, ◌∙◌, String, List, [], ◌∷◌, Option, some, ℤ, pos, max_ℤ, strip, strip_idem,
  is_blank, int_laws, Bool-cases, inl, inr, take,
}
use agens_web.Python.{
  Value, str, Fields, elements, get, get_or, null, or_else, text_of, truthy, Runtime,
}
use agens_web.Session.State.{GameSession}
use agens_web.Engine.History.{
  AcceptedTurnContextV1, texts, stripped_texts, context_of, meta_of, accepted_turn_context,
  accepted_context,
}

module _ ⦃py : Runtime⦄ where
  abbrev context :
      String
      → String
      → String
      → String
      → String
      → String
      → ℤ
      → String
      → List String
      → Option AcceptedTurnContextV1
  context a b c d e f n g xs = some (record {
    choice_slot = a;
    choice_category = b;
    event_id = c;
    motif = d;
    rule_consequence_summary = e;
    story_key = f;
    story_version = n;
    phase_beat = g;
    choices = xs;
  })

  stripped_str : (s : String) → strip (text_of (or_else (str s) (str ""))) ≡ strip s
  unfolding truthy
  stripped_str String.[] = refl
  stripped_str (String.◌∷◌ c s) = refl

  again_stripped : (s : String) → strip (text_of (or_else (str (strip s)) (str ""))) ≡ strip s
  again_stripped s = stripped_str (strip s) ∙ strip_idem s

  texts_back :
      (vs : List Value) → stripped_texts (elements (texts (stripped_texts vs))) ≡ stripped_texts vs
  texts_back [] = refl
  texts_back (v ∷ vs) = elim (Bool-cases (is_blank (strip (text_of v)))) [
    | inl blank ↦ rw blank (texts_back vs)
    | inr kept ↦
        rw (kept, strip_idem (text_of v), kept) (ap (λ t. strip (text_of v) ∷ t) (texts_back vs))
  ]

  version_back : (n : ℤ) → max_ℤ (pos 0) (max_ℤ (pos 0) n) ≡ max_ℤ (pos 0) n
  version_back n = omega int_laws

  abbrev raw : String → Fields → String
  raw key d = text_of (or_else (get_or key null d) (str ""))

  same_context :
      {a a' b b' c c' d d' e e' f f' g g' : String} {n n' : ℤ} {xs xs' : List String}
      → a ≡ a'
      → b ≡ b'
      → c ≡ c'
      → d ≡ d'
      → e ≡ e'
      → f ≡ f'
      → n ≡ n'
      → g ≡ g'
      → xs ≡ xs'
      → context a b c d e f n g xs ≡ context a' b' c' d' e' f' n' g' xs'
  same_context ea eb ec ed ee ef en eg ex = rw (ea, eb, ec, ed, ee, ef, en, eg, ex) refl

  -- The context that is stored of an accepted turn is read back as it was, but for spaces at the ends
  -- of its motif.
  pub accepted_context-accepted_turn_context :
      (s : GameSession) (state_delta : Fields) (choices : List String)
      → let c = context_of s (meta_of (get "meta" state_delta)) choices in
        accepted_context (accepted_turn_context s state_delta choices)
        ≡ some (record c { motif = strip c.motif })
  unfolding accepted_context accepted_turn_context
  accepted_context-accepted_turn_context s state_delta choices =
      let meta = meta_of (get "meta" state_delta) in
      let c = context_of s meta choices in
      same_context (again_stripped (raw "choice_slot" meta))
        (again_stripped (raw "choice_category" meta)) (again_stripped (raw "event_id" meta))
        (stripped_str c.motif) (again_stripped (raw "turn_summary" meta))
        (again_stripped s.story_key) (version_back s.story_version)
        (again_stripped (raw "story_beat" meta)) (texts_back (elements (texts (take 4 choices))))
