-- ===== src/Methods/Keeps.antt =====
-- No request breaks the server: what holds of its state before a message holds after it.
use gear_mcp_server.Base.{
  ℕ, suc, ◌≤◌, ◌≡◌, refl, arith, Bool, true, false, Option, none, some, List, [], ◌∷◌, leb,
  Bool-cases, inl, inr, Bytes, codes, is_empty, length, length-append, str_eq,
}
use gear_mcp_server.Exec.{std_exception, parse_error, unknown, Result, ok, threw, modify}
use gear_mcp_server.Exec.Keeps.{Keeps, Keeps-if, Keeps-lift, Keeps-pure, keeps_rules}
use gear_mcp_server.Framing.{skip_space}
use gear_mcp_server.Json.{JsonLib}
use gear_mcp_server.Registry.{ToolInfo, increment_call_count}
use gear_mcp_server.Registry.Invariant.{IsValid, increment_call_count-IsValid}
use gear_mcp_server.Catalog.{ResourceInfo, PromptEntry}
use gear_mcp_server.Logs.{LogEntry, push_log, max_log_entries}
use gear_mcp_server.Methods.{
  Host, Server, ToolHandler, ResourceReadHandler, PromptGetHandler, on_world, now, log,
}
use gear_mcp_server.Methods.ToolsCall.{
  finish_call, run_tool, call_found, call_named, handle_tools_call, call_name,
}
use gear_mcp_server.Methods.Handlers.{
  handle_ping, handle_initialize, handle_tools_list, handle_resources_list, read_found, read_uri,
  handle_resources_read, handle_prompts_list, get_found, get_named, handle_prompts_get,
}
use gear_mcp_server.Methods.Dispatch.{
  dispatch, log_answered, handle, method_of, answer, answer_if_id, handle_request, handle_parsed,
  handle_message,
}

-- The registry keeps its invariant, the log its bound, and the catalogue stays as `start` has it.
pub record IsSound {W : Type 0} (start s : Server W) : Type 0 where
  pub registry_valid : IsValid s.registry
  pub log_bounded : length s.logs ≤ max_log_entries
  pub same_resources : s.resources ≡ start.resources
  pub same_prompts : s.prompts ≡ start.prompts

length-push_log :
    (e : LogEntry) (logs : List LogEntry)
    → length logs ≤ max_log_entries
    → length (push_log e logs) ≤ max_log_entries
unfolding push_log
length-push_log e [] h = omega arith
length-push_log e (x ∷ xs) h = elim (Bool-cases (leb max_log_entries (suc (length xs)))) [
  | inl full ↦ rw full (omega (arith, length-append {0} xs (e ∷ [])))
  | inr room ↦ rw room (ground (arith, room, length-append xs (e ∷ [])))
]

module _ {W : Type 0} {start : Server W} where
  Keeps-on_world : {A : Type 0} (m : W → Result A × W) → Keeps (IsSound start) (on_world m)
  Keeps-on_world m = record {
    at = λ s h. record {
      registry_valid = h.registry_valid;
      log_bounded = h.log_bounded;
      same_resources = h.same_resources;
      same_prompts = h.same_prompts;
    };
  }

  Keeps-count :
      (name : Bytes)
      → Keeps
          (IsSound start)
          (modify (λ s. record s { registry = increment_call_count name s.registry }))
  Keeps-count name = record {
    at = λ s h. record {
      registry_valid = increment_call_count-IsValid name s.registry h.registry_valid;
      log_bounded = h.log_bounded;
      same_resources = h.same_resources;
      same_prompts = h.same_prompts;
    };
  }

module _ {W : Type 0} (host : Host W) {start : Server W} where
  Keeps-now : Keeps (IsSound start) (now host)
  Keeps-now = record {
    at = λ s h. record {
      registry_valid = h.registry_valid;
      log_bounded = h.log_bounded;
      same_resources = h.same_resources;
      same_prompts = h.same_prompts;
    };
  }

  Keeps-log : (a b c d : Bytes) (n : ℕ) (e : Bytes) → Keeps (IsSound start) (log host a b c d n e)
  unfolding log
  Keeps-log a b c d n e = record {
    at = λ s h. record {
      registry_valid = h.registry_valid;
      log_bounded = length-push_log _ s.logs h.log_bounded;
      same_resources = h.same_resources;
      same_prompts = h.same_prompts;
    };
  }

ruleset server_rules = (keeps_rules, Keeps-on_world, Keeps-count, Keeps-now, Keeps-log)

module _ (lib : JsonLib) {W : Type 0} (host : Host W) {start : Server W} where
  open lib use {Json}

  Keeps-finish_call :
      (id : Json) (n a : Bytes) (dur : ℕ) (r : Bytes × Bytes)
      → Keeps (IsSound start) (finish_call lib host id n a dur r)
  unfolding finish_call
  Keeps-finish_call id n a dur (result_out, error_out) = search server_rules

  Keeps-run_tool :
      (id params : Json) (n : Bytes) (info : ToolInfo) (h : Option (ToolHandler W))
      → Keeps (IsSound start) (run_tool lib host id params n info h)
  unfolding run_tool
  Keeps-run_tool id params n info h = search (server_rules, Keeps-finish_call) depth 9

  Keeps-call_found :
      (id params : Json) (n : Bytes) (o : Option (ToolInfo × Option (ToolHandler W))) (b : Bool)
      → Keeps (IsSound start) (call_found lib host id params n o b)
  unfolding call_found
  Keeps-call_found id params n none b = search server_rules
  Keeps-call_found id params n (some (info, h)) false = search server_rules
  Keeps-call_found id params n (some (info, h)) true = Keeps-run_tool id params n info h

  Keeps-call_named :
      (id params : Json) (n : Bytes) → Keeps (IsSound start) (call_named lib host id params n)
  unfolding call_named
  Keeps-call_named id params n = search (server_rules, Keeps-call_found)

  Keeps-handle_tools_call : (req : Json) → Keeps (IsSound start) (handle_tools_call lib host req)
  unfolding handle_tools_call
  Keeps-handle_tools_call req = search (server_rules, Keeps-call_named)

  Keeps-read_found :
      (id : Json) (uri : Bytes) (o : Option (ResourceInfo (ResourceReadHandler W)))
      → Keeps (IsSound start) (read_found lib id uri o)
  unfolding read_found
  Keeps-read_found id uri none = search server_rules
  Keeps-read_found id uri (some r) = search server_rules

  Keeps-handle_resources_read : (req : Json) → Keeps (IsSound start) (handle_resources_read lib req)
  unfolding handle_resources_read read_uri
  Keeps-handle_resources_read req = search (server_rules, Keeps-read_found)

  Keeps-get_found :
      (id : Json) (name : Bytes) (args : List (Bytes × Bytes))
      (o : Option (PromptEntry (PromptGetHandler W)))
      → Keeps (IsSound start) (get_found lib id name args o)
  unfolding get_found
  Keeps-get_found id name args none = search server_rules
  Keeps-get_found id name args (some e) = search server_rules

  Keeps-handle_prompts_get : (req : Json) → Keeps (IsSound start) (handle_prompts_get lib req)
  unfolding handle_prompts_get get_named
  Keeps-handle_prompts_get req = search (server_rules, Keeps-get_found) depth 9

  Keeps-lists :
      (req : Json)
      → Keeps (IsSound start) (handle_tools_list lib {W = W} req)
        × Keeps (IsSound start) (handle_resources_list lib {W = W} req)
        × Keeps (IsSound start) (handle_prompts_list lib {W = W} req)
  unfolding handle_tools_list handle_resources_list handle_prompts_list
  Keeps-lists req = (record { at = λ s h. h }, record { at = λ s h. h }, record { at = λ s h. h })

  Keeps-dispatch :
      (method : Bytes) (req : Json) → Keeps (IsSound start) (dispatch lib host method req)
  unfolding dispatch
  Keeps-dispatch method req =
      let (tools, resources, prompts) = Keeps-lists req in
      let is = λ (name : Bytes). str_eq method name in
      Keeps-if (is (codes "ping")) _ _ (Keeps-lift (handle_ping lib req)) (
        Keeps-if (is (codes "initialize")) _ _ (Keeps-lift (handle_initialize lib req)) (
          Keeps-if (is (codes "tools/list")) _ _ tools (
            Keeps-if (is call_name) _ _ (Keeps-handle_tools_call req) (
              Keeps-if (is (codes "resources/list")) _ _ resources (
                Keeps-if (is (codes "resources/read")) _ _ (Keeps-handle_resources_read req) (
                  Keeps-if (is (codes "prompts/list")) _ _ prompts (
                    Keeps-if (is (codes "prompts/get")) _ _ (Keeps-handle_prompts_get req)
                      (Keeps-pure []))))))))

  Keeps-log_answered :
      (method : Bytes) (t0 : ℕ) (response : Bytes)
      → Keeps (IsSound start) (log_answered lib host method t0 response)
  unfolding log_answered
  Keeps-log_answered method t0 response = search server_rules depth 9

  Keeps-handle : (req : Json) → Keeps (IsSound start) (handle lib host req)
  unfolding handle
  Keeps-handle req = search (server_rules, Keeps-dispatch, Keeps-log_answered) depth 9

  Keeps-answer : (req : Json) (method : Bytes) → Keeps (IsSound start) (answer lib host req method)
  unfolding answer
  Keeps-answer req method = search (server_rules, Keeps-handle)

  Keeps-handle_request :
      (req : Json) (m : Option Bytes) → Keeps (IsSound start) (handle_request lib host req m)
  unfolding handle_request
  Keeps-handle_request req none = search server_rules
  Keeps-handle_request req (some method) = go (lib.find (codes "id") req)
    where
      go : (o : Option Json) → Keeps (IsSound start) (answer_if_id lib host o req method)
      go none = Keeps-pure []
      go (some id) = Keeps-answer req method

  Keeps-handle_parsed : (r : Result Json) → Keeps (IsSound start) (handle_parsed lib host r)
  unfolding handle_parsed
  Keeps-handle_parsed (ok req) = Keeps-handle_request req (method_of lib host req)
  Keeps-handle_parsed (threw (parse_error w)) = search server_rules
  Keeps-handle_parsed (threw (std_exception w)) = search server_rules
  Keeps-handle_parsed (threw unknown) = search server_rules

module _ (lib : JsonLib) {W : Type 0} (host : Host W) where
  IsSound-refl : (s : Server W) → IsValid s.registry → length s.logs ≤ max_log_entries → IsSound s s
  IsSound-refl s v b = record {
    registry_valid = v;
    log_bounded = b;
    same_resources = refl;
    same_prompts = refl;
  }

  -- Whatever text a client sends, and whatever the handlers do or throw, a registry that keeps its
  -- invariant does so afterwards, the log stays within its bound, and the registered resources
  -- and prompts are unchanged.
  pub handle_message-IsSound :
      (text : Bytes) (s : Server W)
      → IsValid s.registry
      → length s.logs ≤ max_log_entries
      → IsSound s (handle_message lib host text s).1
  unfolding handle_message
  handle_message-IsSound text s v b = elim (Bool-cases (is_empty (skip_space text))) [
    | inl blank ↦ rw blank (IsSound-refl s v b)
    | inr visible ↦
        rw visible ((Keeps-handle_parsed lib host (lib.parse text)).at s (IsSound-refl s v b))
  ]
