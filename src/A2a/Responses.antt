-- ===== src/A2a/Responses.antt =====
-- The answers of `A2AListener` of core/a2a_client.py.
use Prim.Native.String.{◌++◌}
use agentwire_cue.Prelude.{ℕ, String, false, List, [], ◌∷◌}
use agentwire_cue.Prelude.Int.{pos, negsuc}
use agentwire_cue.Value.{Runtime, Value, Values, bool, int, str, list, dict, nil, cons, end, field}
use agentwire_cue.Outcome.{Result, ok, ◌>>=◌}
use agentwire_cue.Statechart.Action.{get_field}

-- An answer: a status and a body in JSON.
pub record Response (rt : Runtime) : Type 0 where
  pub status : ℕ
  pub body : Value rt

module _ {rt : Runtime} where
  abbrev pub refusal : ℕ → String → Response rt
  refusal status error = record { status = status; body = dict (field "error" (str error) end) }

  -- {'jsonrpc': '2.0', 'id': id, key: value}
  unfoldable pub reply : Value rt → String → Value rt → Response rt
  reply id key value = record {
    status = 200;
    body = dict (field "jsonrpc" (str "2.0") (field "id" id (field key value end)));
  }

  abbrev pub error_object : ℕ → String → Value rt
  error_object number message =
      dict (field "code" (int (negsuc number)) (field "message" (str message) end))

  abbrev pub state_object : String → Value rt
  state_object state = dict (field "state" (str state) end)

  abbrev pub accepted : Value rt
  accepted = dict (
      field "kind" (str "task")
        (field "id" (str "cue-task") (field "status" (state_object "accepted") end)))

  abbrev pub working : Value rt
  working = dict (
      field "task"
        (dict
          (field "id" (str "cue-task") (field "status" (state_object "TASK_STATE_WORKING") end)))
        end)

  -- body.get("params", {}).get("message", {})
  unfoldable pub message_of : Value rt → Result rt (Value rt)
  unfolding get_field
  message_of body =
      get_field body "params" (dict end) >>= λ params. get_field params "message" (dict end)

  -- The answer to GetTask.
  unfoldable pub get_task : Value rt → Value rt → Result rt (Response rt)
  unfolding get_field reply
  get_task body id = do
    params ← get_field body "params" (dict end)
    task_id ← get_field params "id" (str "")
    ok (
        reply id "result"
          (dict (field "id" task_id (field "status" (state_object "TASK_STATE_COMPLETED") end))))

  abbrev pub no_tasks : Value rt
  no_tasks = dict (
      field "tasks" (list nil) (
        field "nextPageToken" (str "")
          (field "pageSize" (int (pos 0)) (field "totalSize" (int (pos 0)) end))))

-- The part of the listener and of its package that the agent card shows.
pub record CardData : Type 0 where
  pub host : String
  pub port : String
  pub version : String
  -- the name and the version of each plugin, and their number as a text
  pub plugins : List (String × String)
  pub count : String

module _ {rt : Runtime} where
  abbrev pub skill : String × String → Value rt
  skill (name, version) = dict (
      field "id" (str name) (
        field "name" (str name) (
          field "description" (str ("Plugin: " ++ name ++ " v" ++ version)) (
            field "tags" (list (cons (str "cue") (cons (str "workflow") (cons (str name) nil)))) (
              field "inputModes" (list (cons (str "text") nil))
                (field "outputModes" (list (cons (str "text") nil)) end))))))

  abbrev pub skills : List (String × String) → Values rt
  skills [] = nil
  skills (p ∷ ps) = cons (skill p) (skills ps)

  abbrev pub interface : CardData → Value rt
  interface c = dict (
      field "url" (str ("http://" ++ c.host ++ ":" ++ c.port ++ "/a2a/jsonrpc"))
        (field "protocolBinding" (str "jsonrpc") (field "protocolVersion" (str "1.0") end)))

  abbrev pub capabilities : Value rt
  capabilities = dict (
      field "streaming" (bool false)
        (field "pushNotifications" (bool false) (field "extendedAgentCard" (bool false) end)))

  -- The body of `_handle_agent_card`.
  unfoldable pub agent_card : CardData → Value rt
  agent_card c = dict (
      field "protocolVersion" (str "1.0") (
        field "name" (str "agentwire-cue") (
          field "description"
            (str (
              "AgentWire CUE v" ++ c.version ++ " — Workflow Orchestration Engine. Hosts "
              ++ c.count ++ " YAML statechart plugins."))
            (field "version" (str c.version) (
              field "supportedInterfaces" (list (cons (interface c) nil)) (
                field "provider"
                  (dict (
                    field "url" (str "https://github.com/DerekEXS/agentwire-cue")
                      (field "organization" (str "AgentWire") end)))
                  (field "capabilities" capabilities (
                    field "skills" (list (skills c.plugins)) (
                      field "defaultInputModes" (list (cons (str "text") nil)) (
                        field "defaultOutputModes" (list (cons (str "text") nil)) (
                          field "endpoints"
                            (dict (
                              field "inbound"
                                (str ("http://" ++ c.host ++ ":" ++ c.port ++ "/a2a/inbound")) end))
                            end)))))))))))
