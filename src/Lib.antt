-- ===== src/Lib.antt =====
-- The rules of a text adventure, and the transaction that stores them.
--
-- The program is a web game whose story a language model tells. The rules that decide what a turn
-- does to the player's state are plain code: `src/agens_novel/game` has the tables and the
-- scales, `src/agens_novel/session` the state of a session and the deltas that change it,
-- `src/agens_novel/engine` the flow of a turn, `src/agens_novel/llm` the calls of the model, and
-- `web/backend` the HTTP service, which stores every change of a session in PostgreSQL. This
-- library models the first two, the settlement and the flow of an ordinary turn with its pending
-- failures, the breakthrough, the streamed answers and retries of the model's calls, and of the
-- last the transaction, the limits, the tokens and the requests of a player.
--
-- How the parts interact: the rules turn an action into a delta before the narrator is called. An
-- answer that is accepted only gives the turn its text and its choices; `apply_session_delta`
-- applies the delta of the rules to the session. Where the narrator fails, the delta is frozen in
-- a pending failure until the player retries, goes on without the model, or ends the run; an
-- attempt at a breakthrough is drawn once and frozen in the same way. The service keeps the
-- sessions in play as runners, in a cache; a request takes its runner, lets the engine work on
-- it, and commits the session's snapshot, with the turn, the run and the rewards that belong to
-- it, by `commit_session_mutation`, under a version and a request id. Where any of this fails,
-- the service rebuilds the runner from the snapshot that it took before.
--
-- Prelude: Boolean tests, lists, whole numbers, texts and dictionaries over the native numbers.
-- Python: a Python value as JSON gives it (Data), its conversions (Convert), and a law of its
-- dicts (Dictionaries). `str` of a value that is no text, the digits outside ASCII and the case
-- of a text are the operations of the record `Runtime`, a parameter of everything that uses them.
-- A float is a multiple of a power of two.
--
-- Game/Attributes, Game/Realms: `game/constants.py`: the attribute scale, the order of the
-- realms, their life spans, and what rarity a player may choose. Rates are in thousandths.
--
-- Game/Progress: `game/realm.py`: Eligibility, Chance and Attempt are the breakthrough to the
-- next realm, Stages the stages within one; the draws of `rule_rng.py` are digests, a parameter
-- (Dice).
--
-- Session/State: the fields of `GameSession` in `session/game_session.py`. Session/Delta:
-- `session/state_delta.py`, a function by function translation that returns the changed session
-- where the source assigns to its fields; Character has the numbers, the identity and the
-- attributes, Relations the relationships, Collections the lists and the equipment, Effects the
-- status effects, World the world and the meta section, Strings `utils/strings.py`. Session/Valid
-- has the invariant of a session, and Session/Laws what single deltas do.
--
-- Engine/Policy: `engine/action_delta_policy.py`, the two functions on deltas. Engine/Choices:
-- `engine/choices.py`, and the choices of `engine/game_engine.py`; Slots has `choice_intent` of
-- `engine/turn_rules.py`. Engine/Pending: `engine/pending_model_failure.py`, a failure and its
-- dict. Engine/Turns: `engine/turn_flow.py`: Narrator the calls of the narrator and
-- `engine/model_result.py`, Steps and Flow the turn, Machine what the player does about a
-- failure; Commute, Settled, Held, Retry and Local are about what a turn makes of a session. The
-- state is a `Run`, a session with its pending failure and its recorded turns, and `raised` is an
-- exception, after which the caller puts the snapshot back. The rules of a turn, and the
-- comparisons of a narrative with a delta by regular expressions, are the record `Policies`, a
-- parameter.
--
-- Engine/Rules: the settlement of a turn in `engine/turn_rules.py`: Lifespan has what age takes
-- of a life, Outcome the sections of the delta and the summary, Ends the end of a life. The
-- chronicle event, the story, the draws, and the numbers that are computed with floats are the
-- record `Chronicle`, a parameter. Engine/Breakthrough: `engine/breakthrough_flow.py`: Chronicle
-- has the narrative, Delta the delta of an attempt, Flow the attempt and its retries, Marked and
-- Settled what a told attempt makes of a session, Retry and Frozen what becomes of a held one,
-- Coerced what its narrative can say. The matches of its regular expressions are the record
-- `Patterns`, a parameter.
--
-- Engine/Rewards: `engine/death_rewards.py`: the cause of an end, the achievements, the rewards
-- and the points of a legacy; Points and Ending have their laws. Engine/History:
-- `engine/history.py`, what the narrator's history keeps of a turn.
--
-- Web/Store: `web/backend/database_postgres_session.py`. Rows has the tables of
-- `web/backend/database_postgres_schema.py` as lists of records, Runs the run and its turns,
-- Rewards the end of a run, Commit the transaction. A statement of SQL is a function on the list
-- of the rows. `commit_session_mutation m seen db` has two databases: `seen` is the one of the
-- first read, and `db` the one that the `UPDATE` meets when it has the row's lock, so a commit of
-- another process may lie between them. A failed transaction gives the database back unchanged.
--
-- Web/Service: `web/backend/service.py`: Runners has the cache of runners and who may take one,
-- Commit the context, the commit and the roll-back of a request, Turns
-- `web/backend/service_turns.py` (Choice the choice that a request names, Row the row of a
-- settled turn), Saves `web/backend/service_saves.py`; Laws is about all of these. A request runs
-- to its end before the next of its session, as under the session's lock, and no other process
-- writes meanwhile. The engine is a parameter (Backend) that changes a runner's run, events and
-- prompt, and leaves them half changed where it raises; so are the save format of a session and
-- the pages of a player. Time is an argument.
--
-- Web/Auth: the session's token in `web/backend/auth.py`; base64 and HMAC are the record
-- `Crypto`, a parameter, and Tokens has the laws.
--
-- Web/Limiter: one bucket of `InMemoryRateLimiter` in `web/backend/security.py`. Web/Body: the
-- limit of a body in the same file. Llm/Retry: `llm/retry.py`, where the outcomes of the calls
-- are an argument. Llm/Sse: the lines and events of a byte stream, in `llm/sse.py` and
-- `llm/client.py`; the decoding of a chunk and `json.loads` are arguments.
--
-- All recursion is structural on the data; the retries count down from `max_retries`, and no
-- function runs on fuel.
--
-- Not modelled: the story of a turn and its events, the opening as a flow, local stories, the
-- prompt's text of the history, and the profile that a legacy enters; the web client, the routes,
-- passwords, the start and the end of a session and guests as requests, the save format of a
-- session, the prompts and requests of the model, the catalog of story seeds, the deployment and
-- the scripts. Of the store, the tables of users, invitations, model settings and catalogs,
-- foreign keys and checks, and the cleaning of a save slot's name are left out. A section of a
-- rule's delta is a dict or empty: a list of pairs, which `dict` also takes, is made by no rule.
pub mod Prelude
pub mod Python
pub mod Game
pub mod Session
pub mod Engine
pub mod Llm
pub mod Web
pub mod Tests
