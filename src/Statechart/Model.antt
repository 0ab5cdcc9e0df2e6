-- ===== src/Statechart/Model.antt =====
-- The data of core/statechart.py, and the part of its surroundings that it is given.
use agentwire_cue.Prelude.{ℕ, String, Bool, Option, List}
use agentwire_cue.Prelude.Int.{ℤ}
use agentwire_cue.Value.{Runtime, Value, Fields}
use agentwire_cue.Outcome.{Exn}
use agentwire_cue.Expression.Eval.{Objects}
use agentwire_cue.Expression.Lexicon.{Lexicon}

pub record Event (rt : Runtime) : Type 0 where
  pub type : String
  pub payload : Fields rt
  pub message_id : Option String
  pub source_peer : Option String

-- What can leave an action: ActionError, or any other exception.
pub data Raise (rt : Runtime) : Type 0 where
  action_error : Raise rt
  exception : Exn rt → Raise rt

pub data Outcome (rt : Runtime) (A : Type 0) : Type 0 where
  ok : A → Outcome rt A
  err : Raise rt → Outcome rt A

-- The call of `_a2a_send`: with the keyword `metadata`, or in the form with two arguments.
pub data SendCall (rt : Runtime) : Type 0 where
  with_metadata : Value rt → SendCall rt
  without_metadata : SendCall rt

-- What the engine does to the outside.
pub data Effect (rt : Runtime) : Type 0 where
  logged : String → Effect rt
  -- a call of `_a2a_reply`: message id and text
  replied : String → String → Effect rt
  -- a call of `_a2a_send`: peer, text and metadata
  sent : Value rt → String → SendCall rt → Effect rt
  -- a handler that another module has registered ran, for an action type
  handled : String → Effect rt
  -- the events cue.action.executed, cue.guard.evaluated and cue.error
  executed : String → Effect rt
  guard_evaluated : Bool → Effect rt
  guard_error : String → Effect rt
  -- state.json was replaced: path and content
  saved : String → Value rt → Effect rt

-- What actions share: the context dict, the number of readings of the clock so far, and the effects,
-- the newest first.
pub record Run (rt : Runtime) : Type 0 where
  pub context : Fields rt
  pub reads : ℕ
  pub effects : List (Effect rt)

-- What `EvalEnv` holds besides the shared context.
pub record EvalEnv (rt : Runtime) : Type 0 where
  pub event : Event rt
  pub current_state : Value rt
  pub entered_at_ms : ℤ

-- The plugin and the parts of its spec that `StatechartEngine.__init__` reads; they do not change.
pub record Chart (rt : Runtime) : Type 0 where
  pub name : String
  pub version : String
  pub meta : Fields rt
  pub states : Fields rt
  pub persist_path : Option String
  pub persist_exclude : List String
  pub from_fallback : Bool

-- The fields of `StatechartEngine` that change.
pub record Engine (rt : Runtime) : Type 0 where
  pub current_state : Value rt
  pub state_entered_at_ms : ℤ
  pub run : Run rt
  pub open run use *

-- A handler of another module: from the action, the environment, the context and the clock reading
-- to an exception or none, the context and the clock reading.
abbrev pub Handler : Runtime → Type 0
Handler rt = Value rt → EvalEnv rt → Fields rt → ℕ → Option (Raise rt) × Fields rt × ℕ

-- What the module uses and does not implement; `none` is a call that raises nothing.
pub record Host (rt : Runtime) : Type 0 where
  pub py : Objects rt
  pub lex : Lexicon rt
  -- the n-th reading of `now_ms()`
  pub time : ℕ → ℕ
  -- the namespaces of core/history_proxy.py
  pub peers : Value rt
  pub history : Value rt
  -- await self._a2a_reply(...), await self._a2a_send(...)
  pub reply : String → String → Option (Exn rt)
  pub send : Value rt → String → SendCall rt → Option (Exn rt)
  -- getattr(log, level.lower(), log.info)(...)
  pub log_call : String → Option (Exn rt)
  -- what `register_action` has added to ACTION_REGISTRY
  pub handlers : String → Option (Handler rt)
  -- str(e)
  pub error_text : Exn rt → String
  -- json.dumps and json.loads; `none` if they raise
  pub dumps : Value rt → Option String
  pub loads : String → Option (Value rt)
  -- write_text and os.replace raise no OSError
  pub can_write : String → Bool
