-- ===== src/Engine/Breakthrough/Marked.antt =====
-- Where a delta of an attempt keeps its sections, and the mark in its meta that changes nothing.
use agens_web.Prelude.{
  ◌≡◌, refl, sym, ap, ◌∙◌, String, true, false, Option, none, some, inl, inr, Bool-cases, str_eq,
  is_blank,
}
use agens_web.Python.{Value, bool, int, str, dict, Fields, field, end, get, get_or, put, Runtime}
use agens_web.Python.Dictionaries.{get-put}
use agens_web.Prelude.{pos}
use agens_web.Session.State.{GameSession}
use agens_web.Session.Delta.{apply_session_delta, apply_character_delta, delta_section}
use agens_web.Session.Delta.World.{apply_world_delta, apply_meta_delta, fields_or}
use agens_web.Engine.Turns.Steps.{update}
use agens_web.Engine.Breakthrough.Delta.{
  setdefault, kept_or_put, dict_or_empty, calendar_text, result_kept, attached,
  breakthrough_story_delta, ensure_breakthrough_meta,
}

-- Two dicts that hold the same at a key.
abbrev Agree : String → Fields → Fields → Type 0
Agree k a b = get k a ≡ get k b

Agree-put :
    (k j : String) (v : Value) (a b : Fields) → Agree k a b → Agree k (put j v a) (put j v b)
Agree-put k j v a b h = rw (get-put k j v a, get-put k j v b, h) refl

get-kept_or_put :
    (k j : String) (v : Value) (d : Fields) (o : Option Value)
    → str_eq j k ≡ false
    → get k (kept_or_put o j v d) ≡ get k d
get-kept_or_put k j v d (some _) n = refl
get-kept_or_put k j v d none n = get-put k j v d ∙ rw (n) refl

Agree-setdefault :
    (k j : String) (v : Value) (a b : Fields)
    → str_eq j k ≡ false
    → Agree k a b
    → Agree k (setdefault j v a) (setdefault j v b)
Agree-setdefault k j v a b n h =
    get-kept_or_put k j v a (get j a) n ∙ h ∙ sym (get-kept_or_put k j v b (get j b) n)

Agree-update :
    (k : String) (more a b : Fields) → Agree k a b → Agree k (update a more) (update b more)
Agree-update k end a b h = h
Agree-update k (field j v more) a b h =
    Agree-update k more (put j v a) (put j v b) (Agree-put k j v a b h)

-- The meta of a told attempt, from the meta before.
abbrev pub final_meta : Fields → String → Fields → Fields
final_meta more bt_result meta = setdefault "calendar_summary" (str (calendar_text bt_result)) (
    result_kept bt_result (
      update
        (setdefault "choice_category" (str "breakthrough")
          (setdefault "elapsed_years" (int (pos 0)) meta))
        more))

Agree-result_kept :
    (k bt_result : String) (a b : Fields)
    → str_eq "breakthrough_result" k ≡ false
    → Agree k a b
    → Agree k (result_kept bt_result a) (result_kept bt_result b)
Agree-result_kept k bt_result a b n h = elim (Bool-cases (is_blank bt_result)) [
  | inl e ↦ rw (e) h
  | inr e ↦ rw (e) (Agree-setdefault k "breakthrough_result" (str bt_result) a b n h)
]

Agree-final_meta :
    (k : String) (more : Fields) (bt_result : String) (a b : Fields)
    → str_eq "calendar_summary" k ≡ false
    → str_eq "breakthrough_result" k ≡ false
    → str_eq "choice_category" k ≡ false
    → str_eq "elapsed_years" k ≡ false
    → Agree k a b
    → Agree k (final_meta more bt_result a) (final_meta more bt_result b)
Agree-final_meta k more bt_result a b n1 n2 n3 n4 h =
    Agree-setdefault k "calendar_summary" _ _ _ n1 (
      Agree-result_kept k bt_result _ _ n2 (
        Agree-update k more _ _ (
          Agree-setdefault k "choice_category" _ _ _ n3
            (Agree-setdefault k "elapsed_years" _ _ _ n4 h))))

apply_meta_delta-Agree :
    (a b : Fields) (s : GameSession)
    → Agree "game_over" a b
    → Agree "game_over_reason" a b
    → Agree "status_effect_add" a b
    → Agree "finale" a b
    → apply_meta_delta a s ≡ apply_meta_delta b s
unfolding apply_meta_delta
apply_meta_delta-Agree a b s h1 h2 h3 h4 = rw (get_or, h1, h2, h3, h4) refl

abbrev ignored : Fields → Fields
ignored meta = put "model_state_update_ignored" (bool true) meta

-- The mark that a model's delta was ignored changes nothing of the session.
apply_meta_delta-ignored :
    (more : Fields) (bt_result : String) (meta : Fields) (s : GameSession)
    → apply_meta_delta (final_meta more bt_result (ignored meta)) s
      ≡ apply_meta_delta (final_meta more bt_result meta) s
apply_meta_delta-ignored more bt_result meta s =
    apply_meta_delta-Agree _ _ s (kept "game_over" refl refl refl refl refl)
      (kept "game_over_reason" refl refl refl refl refl)
      (kept "status_effect_add" refl refl refl refl refl) (kept "finale" refl refl refl refl refl)
  where
    kept :
        (k : String)
        → str_eq "model_state_update_ignored" k ≡ false
        → str_eq "calendar_summary" k ≡ false
        → str_eq "breakthrough_result" k ≡ false
        → str_eq "choice_category" k ≡ false
        → str_eq "elapsed_years" k ≡ false
        → Agree k (final_meta more bt_result (ignored meta)) (final_meta more bt_result meta)
    kept k n n1 n2 n3 n4 =
        Agree-final_meta k more bt_result (ignored meta) meta n1 n2 n3 n4
          (get-put k "model_state_update_ignored" (bool true) meta ∙ rw (n) refl)

module _ (story : Fields) (bt_result : String) (d : Fields) where
  -- The dict after its meta was begun, after its world was told, and the meta at the end.
  abbrev begun_meta : Value
  begun_meta = dict (
      setdefault "choice_category" (str "breakthrough")
        (setdefault "elapsed_years" (int (pos 0)) (dict_or_empty (get "meta" d))))

  abbrev begun : Fields
  begun = put "meta" begun_meta d

  abbrev told_world : Value
  told_world =
      dict (attached (dict_or_empty (get "world" begun)) (breakthrough_story_delta story).0)

  abbrev told : Fields
  told = put "world" told_world begun

  abbrev ended_meta : Value
  ended_meta =
      dict (final_meta (breakthrough_story_delta story).1 bt_result (dict_or_empty (get "meta" d)))

  pub ensured_meta :
      get "meta" (ensure_breakthrough_meta story bt_result d)
      ≡ some (
          dict (
            final_meta (breakthrough_story_delta story).1 bt_result (dict_or_empty (get "meta" d))))
  unfolding ensure_breakthrough_meta
  ensured_meta = get-put "meta" "meta" ended_meta told

  ensured_world :
      get "world" (ensure_breakthrough_meta story bt_result d)
      ≡ some (dict (attached (dict_or_empty (get "world" d)) (breakthrough_story_delta story).0))
  unfolding ensure_breakthrough_meta
  ensured_world =
      get-put "world" "meta" ended_meta told
      ∙ get-put "world" "world" told_world begun
      ∙ ap (λ o. some (dict (attached (dict_or_empty o) (breakthrough_story_delta story).0)))
          (get-put "world" "meta" begun_meta d)

  ensured_character :
      get "character" (ensure_breakthrough_meta story bt_result d) ≡ get "character" d
  unfolding ensure_breakthrough_meta
  ensured_character =
      get-put "character" "meta" ended_meta told
      ∙ get-put "character" "world" told_world begun
      ∙ get-put "character" "meta" begun_meta d

module _ ⦃py : Runtime⦄ where
  -- The session after a told attempt, section by section.
  abbrev by_sections :
      Fields → String → Option Value → Option Value → Fields → GameSession → GameSession
  by_sections story bt_result character world meta s =
      let (world_more, meta_more) = breakthrough_story_delta story in
      apply_meta_delta (final_meta meta_more bt_result meta) (
        apply_world_delta (attached (dict_or_empty world) world_more)
          (apply_character_delta (fields_or character end) s))

  apply_session_delta-ensured :
      (story : Fields) (bt_result : String) (d : Fields) (s : GameSession)
      → apply_session_delta (dict (ensure_breakthrough_meta story bt_result d)) s
        ≡ by_sections story bt_result
            (get "character" d)
            (get "world" d)
            (dict_or_empty (get "meta" d))
            s
  unfolding apply_session_delta
  apply_session_delta-ensured story bt_result d s =
      let e = ensure_breakthrough_meta story bt_result d in
      ap
        (λ o. apply_meta_delta (fields_or o end) (
          apply_world_delta (delta_section "world" e)
            (apply_character_delta (delta_section "character" e) s)))
        (ensured_meta story bt_result d)
      ∙ ap
          (λ o.
            apply_meta_delta
              (final_meta (breakthrough_story_delta story).1 bt_result
                (dict_or_empty (get "meta" d)))
              (apply_world_delta (fields_or o end)
                (apply_character_delta (delta_section "character" e) s)))
          (ensured_world story bt_result d)
      ∙ ap
          (λ o.
            apply_meta_delta
              (final_meta (breakthrough_story_delta story).1 bt_result
                (dict_or_empty (get "meta" d)))
              (apply_world_delta
                (attached (dict_or_empty (get "world" d)) (breakthrough_story_delta story).0)
                (apply_character_delta (fields_or o end) s)))
          (ensured_character story bt_result d)

  pub apply_session_delta-marked :
      (story : Fields) (bt_result : String) (d meta : Fields) (s : GameSession)
      → get "meta" d ≡ some (dict meta)
      → apply_session_delta
          (dict (ensure_breakthrough_meta story bt_result (put "meta" (dict (ignored meta)) d)))
          s
        ≡ apply_session_delta (dict (ensure_breakthrough_meta story bt_result d)) s
  apply_session_delta-marked story bt_result d meta s h =
      let d' = put "meta" (dict (ignored meta)) d in
      apply_session_delta-ensured story bt_result d' s
      ∙ ap (λ o. by_sections story bt_result o (get "world" d') (dict_or_empty (get "meta" d')) s)
          (get-put "character" "meta" _ d)
      ∙ ap
          (λ o. by_sections story bt_result (get "character" d) o (dict_or_empty (get "meta" d')) s)
          (get-put "world" "meta" _ d)
      ∙ ap
          (λ o. by_sections story bt_result (get "character" d) (get "world" d) (dict_or_empty o) s)
          (get-put "meta" "meta" _ d)
      ∙ apply_meta_delta-ignored (breakthrough_story_delta story).1 bt_result meta _
      ∙ sym (
          apply_session_delta-ensured story bt_result d s
          ∙ ap
              (λ o.
                by_sections story bt_result (get "character" d) (get "world" d) (dict_or_empty o) s)
              h)
