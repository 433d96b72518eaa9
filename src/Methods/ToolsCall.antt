-- ===== src/Methods/ToolsCall.antt =====
-- src/server/mcp_methods.cpp: `_handle_tools_call`.
use gear_mcp_server.Base.{
  ℕ, Bool, true, false, not, Option, none, some, [], ◌++◌, if◌then◌else◌, Bytes, codes, is_empty,
}
use gear_mcp_server.Exec.{Result, ok, threw, Exec, lift, gets, modify, ◌>>=◌, ◌>>◌}
use gear_mcp_server.Json.{JsonLib}
use gear_mcp_server.Registry.{ToolInfo, get_tool, is_tool_enabled, increment_call_count}
use gear_mcp_server.Methods.{ToolHandler, Host, Server, on_world, now, elapsed, log, preview, c_str}
use gear_mcp_server.Methods.Rpc.{
  get_id, get_params, value, make_response, make_error, dump_line, invalid_params, method_not_found,
  text_result,
}

abbrev pub timed_out : Bytes
timed_out =
    codes
      "{\"error\": \"Main thread dispatch timed out (10s). The process node may not be receiving notifications.\"}"

abbrev pub call_name : Bytes
call_name = codes "tools/call"

module _ {W : Type 0} (host : Host W) where
  -- The task that is queued for the main thread: a null handler leaves both texts empty.
  abbrev pub main_task : Option (ToolHandler W) → Bytes → W → Result (Bytes × Bytes) × W
  main_task none args w = (ok ([], []), w)
  main_task (some h) args w = h args w

  -- A task that throws on the main thread never sets the flag that its caller waits for.
  abbrev pub or_timed_out : Result (Bytes × Bytes) × W → Result (Bytes × Bytes) × W
  or_timed_out (ok r, w) = (ok r, w)
  or_timed_out (threw e, w) = (ok (timed_out, []), w)

  -- MainThreadQueue::invoke_on_main, as the caller sees it: the task ran, here or on the main
  -- thread, or the wait of ten seconds was over before it did. A task that is run after that
  -- is not in the model of this call.
  unfoldable pub invoke_on_main : Option (ToolHandler W) → Bytes → W → Result (Bytes × Bytes) × W
  invoke_on_main handler args w =
      if not (host.dispatch_available w)
      then main_task handler args w
      else if host.served_in_time w
      then or_timed_out (main_task handler args w)
      else (ok (timed_out, []), w)

  -- The call of the handler in the thread of the connection.
  abbrev pub call_directly : Option (ToolHandler W) → Bytes → W → Result (Bytes × Bytes) × W
  call_directly none args w = (ok ([], codes "Tool has no handler"), w)
  call_directly (some h) args w = h args w

  unfoldable pub run_handler :
      ToolInfo → Option (ToolHandler W) → Bytes → W → Result (Bytes × Bytes) × W
  run_handler info handler args =
      if info.main_thread then invoke_on_main handler args else call_directly handler args

module _ (lib : JsonLib) {W : Type 0} (host : Host W) where
  open lib use {Json, dump, find}

  -- The arguments as the raw text that the handler gets.
  unfoldable pub arguments_text : Json → Result Bytes
  arguments_text params = elim (find (codes "arguments") params) [
    | none ↦ ok (codes "{}")
    | some a ↦ dump a
  ]

  -- The end of a call: the log entry and the response.
  unfoldable pub finish_call : Json → Bytes → Bytes → ℕ → Bytes × Bytes → Exec (Server W) Bytes
  finish_call id tool_name args_json dur (result_out, error_out) =
      if not (is_empty error_out)
      then (do
        log host (codes "error") call_name tool_name (codes "error") dur (preview error_out)
        lift (dump_line lib (make_response lib id (text_result lib error_out true))))
      else do
        log host (codes "info") call_name tool_name (codes "ok") dur (preview args_json)
        lift (dump_line lib (make_response lib id (text_result lib result_out false)))

  -- From the reading of the arguments on.
  unfoldable pub run_tool :
      Json → Json → Bytes → ToolInfo → Option (ToolHandler W) → Exec (Server W) Bytes
  run_tool id params tool_name info handler = do
    args_json ← lift (arguments_text params)
    t0 ← now host
    outcome ← on_world (run_handler host info handler args_json)
    t1 ← now host
    modify (λ s. record s { registry = increment_call_count tool_name s.registry })
    finish_call id tool_name args_json (elapsed host t0 t1) outcome

  -- The look-up, and the check of the panel's switch.
  unfoldable pub call_found :
      Json
      → Json
      → Bytes
      → Option (ToolInfo × Option (ToolHandler W))
      → Bool
      → Exec (Server W) Bytes
  call_found id params tool_name none enabled = do
    log host (codes "warn") call_name tool_name (codes "error") 0 (codes "tool not registered")
    lift (dump_line lib (make_error lib id invalid_params (codes "Tool not found: " ++ tool_name)))
  call_found id params tool_name (some (info, handler)) false = do
    log host (codes "warn") call_name tool_name (codes "skipped") 0 (codes "tool disabled in panel")
    lift (
        dump_line lib
          (make_error lib id method_not_found (codes "Method not found: " ++ tool_name)))
  call_found id params tool_name (some (info, handler)) true =
      run_tool id params tool_name info handler

  unfoldable pub call_named : Json → Json → Bytes → Exec (Server W) Bytes
  call_named id params tool_name =
      if is_empty tool_name
      then (do
        log host (codes "error") call_name [] (codes "error") 0 (codes "missing 'name'")
        lift (
            dump_line lib
              (make_error lib id invalid_params (codes "Invalid params: missing 'name'"))))
      else do
        tool ← gets (λ s. get_tool (some (c_str tool_name)) s.registry)
        enabled ← gets (λ s. is_tool_enabled tool_name s.registry)
        call_found id params tool_name tool enabled

  unfoldable pub handle_tools_call : Json → Exec (Server W) Bytes
  handle_tools_call p_req = do
    let params = get_params lib p_req
    tool_name ← lift (value lib params (codes "name") [])
    call_named (get_id lib p_req) params tool_name
