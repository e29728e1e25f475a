-- ===== src/Engine/Pending/RoundTrip.antt =====
-- A pending failure survives the dict that the session stores.
use agens_web.Prelude.{
  ◌≡◌, refl, ap, ℕ, zero, suc, String, true, false, none, some, ℤ, pos, negsuc, ◌≤ℤ◌, max_ℤ, str_eq,
  ◌==◌, mem_str, List, inl, inr, ◌⊎◌, is_blank, ltb, arith, Bool-cases, int_laws, eq_iff,
}
use agens_web.Python.{Value, str, int, dict, Fields, or_else, text_of, int_of, truthy, Runtime}
use agens_web.Engine.Pending.{
  Interchange, PendingModelFailureV1, stages, statuses, take_text, text_length, returned, to_dict,
  error_code_of, json_object, is_empty, from_payload, created, is_code,
}

module _ ⦃py : Runtime⦄ ⦃io : Interchange⦄ where
  -- What a stored failure is: its stage, status and identifier are ones that are read back, its
  -- outcome is JSON and has its own digest, and its texts and numbers are within their limits.
  pub record IsPending (p : PendingModelFailureV1) : Type 0 where
    pub stage_known : mem_str p.stage stages ≡ true
    pub status_known : mem_str p.status statuses ≡ true
    pub outcome_json : json_object (dict p.frozen_result) ≡ p.frozen_result
    pub outcome_filled : is_empty p.frozen_result ≡ false
    pub outcome_digest : p.outcome_hash ≡ io.sha256 p.frozen_result
    pub named : is_blank p.failure_id ≡ false
    pub name_short : ltb 64 (text_length p.failure_id) ≡ false
    pub action_short : take_text 512 p.action ≡ p.action
    pub code_kept : error_code_of (str p.error_code) ≡ p.error_code
    pub requested : pos 1 ≤ℤ p.request_no
    pub counted : pos 0 ≤ℤ p.rule_rng_counter
    pub based : pos 0 ≤ℤ p.base_version

  -- `str(s or default)` of a text that is not empty, or where the default is.
  text_or_default :
      (s default : String)
      → (is_blank s ≡ false) ⊎ (default ≡ "")
      → text_of (or_else (str s) (str default)) ≡ s
  unfolding truthy
  text_or_default String.[] default h = ground arith
  text_or_default (String.◌∷◌ c s) default h = refl

  same_text : (a b : String) → a ≡ b → str_eq a b ≡ true
  same_text a b e = ground (arith, eq_iff a b)

  filled_in :
      (s : String) (ss : List String)
      → mem_str s ss ≡ true
      → mem_str "" ss ≡ false
      → is_blank s ≡ false
  filled_in String.[] ss h e = ground arith
  filled_in (String.◌∷◌ c s) ss h e = refl

  not_zero : (n : ℕ) → (suc n == 0) ≡ false
  not_zero n = ground arith

  -- `max(low, int(n or low))` of a number that is no less.
  number_back :
      (n low : ℤ)
      → low ≤ℤ n
      → pos 0 ≤ℤ low
      → elim (int_of (or_else (int n) (int low))) [ none ↦ none | some m ↦ some (max_ℤ low m) ]
        ≡ some n
  unfolding truthy int_of
  number_back (pos zero) low h l = ap some (omega int_laws)
  number_back (pos (suc n)) low h l = rw (not_zero n) (ap some (omega int_laws))
  number_back (negsuc n) low h l = ap some (omega int_laws)

  -- A failure whose stage, status, identifier, outcome, digest, texts and numbers are within what is
  -- stored is read back from its dict as it was.
  pub from_payload-to_dict :
      (p : PendingModelFailureV1)
      → IsPending p
      → from_payload (dict (to_dict p)) ≡ returned (some p)
  unfolding from_payload
  from_payload-to_dict p h =
      rw
        (
          text_or_default p.stage "" (inr refl),
          text_or_default p.status "pending"
              (inl (filled_in p.status statuses h.status_known refl)),
          text_or_default p.outcome_hash "" (inr refl),
          text_or_default p.failure_id "" (inr refl),
          text_or_default p.slot "" (inr refl),
          text_or_default p.action "" (inr refl),
          h.outcome_json,
          h.stage_known,
          h.status_known,
          h.outcome_filled,
          h.named,
          h.name_short,
          number_back p.request_no (pos 1) h.requested (omega arith),
          number_back p.rule_rng_counter (pos 0) h.counted (omega arith),
          number_back p.base_version (pos 0) h.based (omega arith),
          h.action_short,
          h.code_kept,
          same_text p.outcome_hash (io.sha256 p.frozen_result) h.outcome_digest,
        )
        refl

  take_text_short : (n : ℕ) (s : String) → take_text n (take_text n s) ≡ take_text n s
  unfolding take_text
  take_text_short zero s = refl
  take_text_short (suc n) String.[] = refl
  take_text_short (suc n) (String.◌∷◌ c s) = ap (λ t. String.◌∷◌ c t) (take_text_short n s)

  blank_code : (s : String) → is_code s ≡ true → is_blank s ≡ false
  unfolding is_code
  blank_code String.[] h = ground arith
  blank_code (String.◌∷◌ c s) h = refl

  error_code_of_code : (s : String) → is_code s ≡ true → error_code_of (str s) ≡ s
  unfolding error_code_of
  error_code_of_code s h = rw (text_or_default s "llm_error" (inl (blank_code s h)), h) refl

  default_code : is_code "llm_error" ≡ true
  unfolding is_code
  default_code = refl

  error_code_of_idem : (v : Value) → error_code_of (str (error_code_of v)) ≡ error_code_of v
  unfolding error_code_of
  error_code_of_idem v =
      let s = text_of (or_else v (str "llm_error")) in
      elim (Bool-cases (is_code s)) [
        | inl good ↦ rw good (error_code_of_code s good)
        | inr bad ↦ rw bad (error_code_of_code "llm_error" default_code)
      ]

  -- A failure that has just been made of a frozen outcome can be stored.
  pub created-IsPending :
      (uuid stage action slot : String) (payload : Fields) (rule_rng_counter : ℤ)
      (error_code : String)
      → mem_str stage stages ≡ true
      → is_blank uuid ≡ false
      → ltb 64 (text_length uuid) ≡ false
      → is_empty payload ≡ false
      → json_object (dict payload) ≡ payload
      → IsPending (created uuid stage action slot payload rule_rng_counter error_code)
  created-IsPending uuid stage action slot payload rule_rng_counter error_code known named short
        filled stable =
      record {
        stage_known = known;
        status_known = refl;
        outcome_json = stable;
        outcome_filled = filled;
        outcome_digest = refl;
        named = named;
        name_short = short;
        action_short = take_text_short 512 action;
        code_kept = error_code_of_idem (str error_code);
        requested = omega arith;
        counted = omega int_laws;
        based = omega arith;
      }
