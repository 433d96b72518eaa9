-- ===== src/Methods/Dispatch.antt =====
-- src/server/mcp_methods.cpp: `handle`, and src/server/mcp_server.cpp: `_handle_message`.
use gear_mcp_server.Base.{
  ℕ, not, Option, none, some, [], ◌++◌, if◌then◌else◌, Bytes, codes, is_empty, str_eq,
}
use gear_mcp_server.Exec.{
  Exception, std_exception, parse_error, unknown, Result, ok, threw, Exec, pure, lift, ◌>>=◌, ◌>>◌,
}
use gear_mcp_server.Framing.{skip_space}
use gear_mcp_server.Json.{JsonLib, ℤ, negsuc}
use gear_mcp_server.Methods.{Host, Server, now, elapsed, log}
use gear_mcp_server.Methods.Rpc.{get_id, value, make_error, dump_line, method_not_found}
use gear_mcp_server.Methods.ToolsCall.{handle_tools_call, call_name}
use gear_mcp_server.Methods.Handlers.{
  handle_ping, handle_initialize, handle_tools_list, handle_resources_list, handle_resources_read,
  handle_prompts_list, handle_prompts_get,
}

-- -32700
abbrev pub parse_error_code : ℤ
parse_error_code = negsuc 32699

-- -32600
abbrev pub invalid_request : ℤ
invalid_request = negsuc 32599

-- The two handlers of the outer `try`.
abbrev internal_text : Bytes → Bytes
internal_text w =
    codes
      "{\"jsonrpc\":\"2.0\",\"id\":null,\"error\":{\"code\":-32603,\"message\":\"Internal error: "
    ++ w
    ++ codes "\"}}\n"

unfoldable pub internal_error : Exception → Bytes
internal_error (std_exception w) = internal_text w
internal_error (parse_error w) = internal_text w
internal_error unknown =
    codes
      "{\"jsonrpc\":\"2.0\",\"id\":null,\"error\":{\"code\":-32603,\"message\":\"Unknown internal error\"}}\n"

abbrev pub catch_all : Result Bytes → Bytes
catch_all (ok response) = response
catch_all (threw e) = internal_error e

module _ (lib : JsonLib) {W : Type 0} (host : Host W) where
  open lib use {Json, null, parse, find, as_string}

  -- The chain of comparisons; a method that is not recognised has the empty response.
  unfoldable pub dispatch : Bytes → Json → Exec (Server W) Bytes
  dispatch method p_req =
      if str_eq method (codes "ping")
      then lift (handle_ping lib p_req)
      else if str_eq method (codes "initialize")
      then lift (handle_initialize lib p_req)
      else if str_eq method (codes "tools/list")
      then handle_tools_list lib p_req
      else if str_eq method call_name
      then handle_tools_call lib host p_req
      else if str_eq method (codes "resources/list")
      then handle_resources_list lib p_req
      else if str_eq method (codes "resources/read")
      then handle_resources_read lib p_req
      else if str_eq method (codes "prompts/list")
      then handle_prompts_list lib p_req
      else if str_eq method (codes "prompts/get")
      then handle_prompts_get lib p_req
      else pure []

  -- The log entry of a method that was answered; `tools/call` has made its own.
  unfoldable pub log_answered : Bytes → ℕ → Bytes → Exec (Server W) Bytes
  log_answered method t0 response = if is_empty response then pure response else do
    t1 ← now host
    if str_eq method call_name then pure response else do
      log host (codes "info") method [] (codes "ok") (elapsed host t0 t1) []
      pure response

  unfoldable pub handle : Json → Exec (Server W) Bytes
  handle p_req = do
    method ← lift (value lib p_req (codes "method") [])
    t0 ← now host
    response ← dispatch method p_req
    log_answered method t0 response

  -- The request has a method, which is a string.
  unfoldable pub method_of : Json → Option Bytes
  method_of req = elim (find (codes "method") req) [ none ↦ none | some m ↦ as_string m ]

  unfoldable pub answer : Json → Bytes → Exec (Server W) Bytes
  answer req method = do
    response ← handle req
    if not (is_empty response)
        then pure response
        else lift (
            dump_line lib (
              make_error lib (get_id lib req) method_not_found
                (codes "Method not found: " ++ method)))

  -- A request without an id is a notification, and is dropped.
  abbrev pub answer_if_id : Option Json → Json → Bytes → Exec (Server W) Bytes
  answer_if_id none req method = pure []
  answer_if_id (some id) req method = answer req method

  unfoldable pub handle_request : Json → Option Bytes → Exec (Server W) Bytes
  handle_request req none = lift (
      dump_line lib (
        make_error lib (get_id lib req) invalid_request
          (codes "Invalid Request: missing 'method'")))
  handle_request req (some method) = answer_if_id (find (codes "id") req) req method

  -- The body of the outer `try`, with the inner one around `parse`.
  unfoldable pub handle_parsed : Result Json → Exec (Server W) Bytes
  handle_parsed (ok req) = handle_request req (method_of req)
  handle_parsed (threw (parse_error w)) =
      lift (dump_line lib (make_error lib null parse_error_code (codes "Parse error: " ++ w)))
  handle_parsed (threw e) = lift (threw e)

  -- `_handle_message`: the response text, empty where nothing is to be sent. The test for a
  -- request of whitespace only is `find_first_not_of(" \t\r\n") == npos`.
  unfoldable pub handle_message : Bytes → Server W → Bytes × Server W
  handle_message p_request s =
      if is_empty (skip_space p_request)
      then ([], s)
      else let (r, s') = handle_parsed (parse p_request) s in (catch_all r, s')
