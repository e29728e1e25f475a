-- ===== src/Engine/Rules/Lifespan.antt =====
-- `_settle_lifespan` and `_low_realm_age_pressure`: what age takes of a life, and its end.
use agens_web.Prelude.{
  ◌≡◌, refl, ap, sym, subst, ℕ, zero, suc, String, Bool, true, false, ◌&&◌, ◌||◌, not, Option, none,
  some, if◌then◌else◌, str_eq, is_blank, lookup_or, strip, ℤ, pos, negsuc, eq_iff, ◌+ℤ◌, ◌-ℤ◌, ◌≤ℤ◌,
  max_ℤ, ltb_ℤ, leb_ℤ, inl, inr, Bool-cases, arith,
}
use agens_web.Python.{str, list, nil, cons, Fields, field, end, get, parse_int, Runtime}
use agens_web.Game.Realms.{realm_lifespans}
use agens_web.Session.State.{GameSession, cap_or}
use agens_web.Session.Delta.Character.{
  apply_character_numbers, parse_character_number, number_after,
}

-- A pressure of age: how many years it takes, the text of that change, and the effect it leaves.
pub record Pressure : Type 0 where
  pub lifespan_delta : ℤ
  pub lifespan_text : String
  pub status_effect : String
  pub game_over_reason : String

abbrev pub exhausted : String
exhausted = "寿元耗尽，坐化而去。"

abbrev one_or : ℤ → ℤ
one_or (pos zero) = pos 1
one_or n = n

abbrev pub pressure_at : ℤ → ℤ → Option Pressure
pressure_at new_age stage =
    if leb_ℤ (pos 90) new_age && ltb_ℤ stage (pos 9)
    then some (record {
      lifespan_delta = negsuc 14;
      lifespan_text = "-15";
      status_effect = "病衰";
      game_over_reason = "年岁已高，根基未成，病衰坐化。";
    })
    else if leb_ℤ (pos 70) new_age && ltb_ℤ stage (pos 9)
    then some (record {
      lifespan_delta = negsuc 7;
      lifespan_text = "-8";
      status_effect = "气血衰败";
      game_over_reason = exhausted;
    })
    else if leb_ℤ (pos 50) new_age && ltb_ℤ stage (pos 6)
    then some (record {
      lifespan_delta = negsuc 3;
      lifespan_text = "-4";
      status_effect = "瓶颈衰相";
      game_over_reason = exhausted;
    })
    else none

-- `_low_realm_age_pressure`
unfoldable pub low_realm_age_pressure : GameSession → ℤ → Option Pressure
low_realm_age_pressure s new_age =
    if str_eq s.realm "练气" then pressure_at new_age (one_or s.realm_stage) else none

-- The years that remain, the reason of an end, and the changes of the character.
pub record Settled : Type 0 where
  pub remaining : ℤ
  pub reason : String
  pub changes : Fields

abbrev pub reason_if : ℤ → String → String
reason_if remaining reason = if leb_ℤ remaining (pos 0) then reason else ""

abbrev pub pressed : ℤ → ℤ → Option Pressure → Settled
pressed cap new_age none = record { remaining = cap -ℤ new_age; reason = ""; changes = end }
pressed cap new_age (some p) =
    let remaining = max_ℤ (pos 1) (cap +ℤ p.lifespan_delta) -ℤ new_age in
    record {
      remaining = remaining;
      reason = reason_if remaining p.game_over_reason;
      changes =
          field "lifespan" (str p.lifespan_text)
            (field "status_effects_add" (list (cons (str p.status_effect) nil)) end);
    }

abbrev pub settled_at : Bool → ℤ → ℤ → Option Pressure → Settled
settled_at true cap new_age pressure = record {
  remaining = cap -ℤ new_age;
  reason = exhausted;
  changes = end;
}
settled_at false cap new_age pressure = pressed cap new_age pressure

-- `_settle_lifespan`; `realm` is the session's, or 练气 where it has none.
unfoldable pub settle_lifespan : GameSession → String → ℤ → Settled
unfolding low_realm_age_pressure
settle_lifespan s realm new_age =
    let cap = cap_or s.lifespan (lookup_or realm 100 realm_lifespans) in
    settled_at (leb_ℤ (cap -ℤ new_age) (pos 0) && not (str_eq s.realm "飞升")) cap new_age
      (low_realm_age_pressure s new_age)

module _ ⦃py : Runtime⦄ where
  -- The text of a change is read as the change.
  abbrev IsReadable : Pressure → Type 0
  IsReadable p =
      (current : ℤ)
      → parse_character_number (str p.lifespan_text) current ≡ some (current +ℤ p.lifespan_delta)

  abbrev AllReadable : Option Pressure → Type 0
  AllReadable none = Unit
  AllReadable (some p) = IsReadable p

  pressure_at-AllReadable : (new_age stage : ℤ) → AllReadable (pressure_at new_age stage)
  unfolding parse_character_number parse_int strip
  pressure_at-AllReadable new_age stage =
      elim (Bool-cases (leb_ℤ (pos 90) new_age && ltb_ℤ stage (pos 9))) [
        | inl a ↦ rw (a) (λ current. refl)
        | inr a ↦ elim (Bool-cases (leb_ℤ (pos 70) new_age && ltb_ℤ stage (pos 9))) [
          | inl b ↦ rw (a, b) (λ current. refl)
          | inr b ↦ elim (Bool-cases (leb_ℤ (pos 50) new_age && ltb_ℤ stage (pos 6))) [
            | inl c ↦ rw (a, b, c) (λ current. refl)
            | inr c ↦ rw (a, b, c) tt
          ]
        ]
      ]

  -- The life span after the changes, from the one before.
  abbrev lifespan_after : Fields → ℤ → ℤ
  lifespan_after changes lifespan = max_ℤ (pos 1) (number_after (get "lifespan" changes) lifespan)

  kept_lifespan : (lifespan : ℤ) → pos 1 ≤ℤ lifespan → max_ℤ (pos 1) lifespan ≡ lifespan
  unfolding max_ℤ
  kept_lifespan (pos zero) h = absurd (omega arith)
  kept_lifespan (pos (suc n)) h = ground arith
  kept_lifespan (negsuc n) h = absurd (omega arith)

  pressed-remaining :
      (lifespan new_age : ℤ) (p : Option Pressure)
      → pos 1 ≤ℤ lifespan
      → AllReadable p
      → lifespan_after (pressed lifespan new_age p).changes lifespan -ℤ new_age
        ≡ (pressed lifespan new_age p).remaining
  pressed-remaining lifespan new_age none h r = ap (λ l. l -ℤ new_age) (kept_lifespan lifespan h)
  pressed-remaining lifespan new_age (some p) h r =
      ap (λ o. max_ℤ (pos 1) (read o) -ℤ new_age) (r lifespan)
    where
      read : Option ℤ → ℤ
      read none = lifespan
      read (some n) = n

  settled-remaining :
      (over : Bool) (lifespan new_age : ℤ) (p : Option Pressure)
      → pos 1 ≤ℤ lifespan
      → AllReadable p
      → lifespan_after (settled_at over lifespan new_age p).changes lifespan -ℤ new_age
        ≡ (settled_at over lifespan new_age p).remaining
  settled-remaining true lifespan new_age p h r = ap (λ l. l -ℤ new_age) (kept_lifespan lifespan h)
  settled-remaining false lifespan new_age p h r = pressed-remaining lifespan new_age p h r

  session-AllReadable :
      (s : GameSession) (new_age : ℤ) → AllReadable (low_realm_age_pressure s new_age)
  unfolding low_realm_age_pressure
  session-AllReadable s new_age = elim (Bool-cases (str_eq s.realm "练气")) [
    | inl e ↦ rw (e) (pressure_at-AllReadable new_age (one_or s.realm_stage))
    | inr e ↦ rw (e) tt
  ]

-- A pressure is on 练气 alone, and its end has a reason.
abbrev IsFirm : Bool → Option Pressure → Type 0
IsFirm flown none = Unit
IsFirm flown (some p) = (is_blank p.game_over_reason ≡ false) × (flown ≡ false)

pressure_at-IsFirm : (new_age stage : ℤ) → IsFirm false (pressure_at new_age stage)
pressure_at-IsFirm new_age stage =
    elim (Bool-cases (leb_ℤ (pos 90) new_age && ltb_ℤ stage (pos 9))) [
      | inl a ↦ rw (a) (refl, refl)
      | inr a ↦ elim (Bool-cases (leb_ℤ (pos 70) new_age && ltb_ℤ stage (pos 9))) [
        | inl b ↦ rw (a, b) (refl, refl)
        | inr b ↦ elim (Bool-cases (leb_ℤ (pos 50) new_age && ltb_ℤ stage (pos 6))) [
          | inl c ↦ rw (a, b, c) (refl, refl)
          | inr c ↦ rw (a, b, c) tt
        ]
      ]
    ]

session-IsFirm :
    (s : GameSession) (new_age : ℤ)
    → IsFirm (str_eq s.realm "飞升") (low_realm_age_pressure s new_age)
unfolding low_realm_age_pressure
session-IsFirm s new_age = elim (Bool-cases (str_eq s.realm "练气")) [
  | inl e ↦
      let mortal : str_eq s.realm "飞升" ≡ false =
        subst (λ r. str_eq r "飞升" ≡ false) (sym ((eq_iff s.realm "练气").0 e)) refl in
      rw (e) (
        subst (λ b. IsFirm b (pressure_at new_age (one_or s.realm_stage))) (sym mortal)
          (pressure_at-IsFirm new_age (one_or s.realm_stage)))
  | inr e ↦ rw (e) tt
]

left_of : (n : ℤ) → ltb_ℤ (pos 0) n ≡ not (leb_ℤ n (pos 0))
left_of (pos n) = ground arith
left_of (negsuc n) = ground arith

pressed-reason :
    (lifespan new_age : ℤ) (flown : Bool) (p : Option Pressure)
    → (leb_ℤ (lifespan -ℤ new_age) (pos 0) && not flown) ≡ false
    → IsFirm flown p
    → is_blank (pressed lifespan new_age p).reason
      ≡ (ltb_ℤ (pos 0) (pressed lifespan new_age p).remaining || flown)
pressed-reason lifespan new_age true none h f = ground arith
pressed-reason lifespan new_age false none h f = ground arith
pressed-reason lifespan new_age flown (some p) h (named, mortal) =
    reason_when (max_ℤ (pos 1) (lifespan +ℤ p.lifespan_delta) -ℤ new_age)
  where
    reason_when :
        (remaining : ℤ)
        → is_blank (reason_if remaining p.game_over_reason) ≡ (ltb_ℤ (pos 0) remaining || flown)
    reason_when remaining = elim (Bool-cases (leb_ℤ remaining (pos 0))) [
      | inl c ↦ rw (c, left_of remaining, c, mortal, named) refl
      | inr c ↦ rw (c, left_of remaining, c) refl
    ]

settled-reason :
    (lifespan new_age : ℤ) (flown : Bool) (p : Option Pressure) (over : Bool)
    → (leb_ℤ (lifespan -ℤ new_age) (pos 0) && not flown) ≡ over
    → IsFirm flown p
    → is_blank (settled_at over lifespan new_age p).reason
      ≡ (ltb_ℤ (pos 0) (settled_at over lifespan new_age p).remaining || flown)
settled-reason lifespan new_age flown p true h f = rw (left_of (lifespan -ℤ new_age)) (ground arith)
settled-reason lifespan new_age flown p false h f = pressed-reason lifespan new_age flown p h f

-- The years that a turn tells as remaining are the ones between the age and the life span once the
-- changes of the turn have been applied to the session, and the turn ends the game by age exactly
-- where none remain, but in 飞升, where nobody dies of age. The life span is positive before.
pub settle_lifespan_agrees :
    ⦃py : Runtime⦄ (s : GameSession) (new_age : ℤ)
    → pos 1 ≤ℤ s.lifespan
    → let turn = settle_lifespan s s.realm new_age in
      ((apply_character_numbers turn.changes s).lifespan -ℤ new_age ≡ turn.remaining)
      × (is_blank turn.reason ≡ (ltb_ℤ (pos 0) turn.remaining || str_eq s.realm "飞升"))
unfolding settle_lifespan apply_character_numbers
settle_lifespan_agrees s new_age h =
    let pressure = low_realm_age_pressure s new_age in
    let flown = str_eq s.realm "飞升" in
    let cap : cap_or s.lifespan (lookup_or s.realm 100 realm_lifespans) ≡ s.lifespan =
      given_lifespan s.lifespan _ h in
    rw cap (
      settled-remaining (leb_ℤ (s.lifespan -ℤ new_age) (pos 0) && not flown) s.lifespan new_age
          pressure h (session-AllReadable s new_age),
      settled-reason s.lifespan new_age flown pressure _ refl (session-IsFirm s new_age),
    )
  where
    given_lifespan : (n : ℤ) (other : ℕ) → pos 1 ≤ℤ n → cap_or n other ≡ n
    given_lifespan (pos zero) other h = absurd (omega arith)
    given_lifespan (pos (suc n)) other h = ground arith
    given_lifespan (negsuc n) other h = absurd (omega arith)
