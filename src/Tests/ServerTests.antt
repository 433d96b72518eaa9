-- ===== src/Tests/ServerTests.antt =====
-- src/server/mcp_server.cpp and the methods.
use gear_mcp_server.Base.{
  ℕ, ◌+◌, ◌≡◌, refl, arith, Bool, true, false, ◌||◌, none, some, [], ◌∷◌, ◌++◌, codes, is_empty,
}
use gear_mcp_server.Exec.{ok, threw, std_exception}
use gear_mcp_server.Framing.{skip_space}
use gear_mcp_server.OrdMap.{lookup, insert, has_key, before}
use gear_mcp_server.Registry.{
  ToolInfo, ToolRegistry, new_registry, register_tool, set_tool_enabled, get_tool, is_tool_enabled,
}
use gear_mcp_server.Registry.Invariant.{register, toggle, initial, next, Reach-IsValid}
use gear_mcp_server.Methods.{ToolHandler, Server, log_entry}
use gear_mcp_server.Logs.{push_log}
use gear_mcp_server.Methods.Rpc.{get_params, make_error, dump_line, method_not_found}
use gear_mcp_server.Methods.ToolsCall.{arguments_text, run_handler, run_tool, call_named}
use gear_mcp_server.Methods.BadNames.{handle_message-name_not_string}
use gear_mcp_server.Methods.Calls.{Finished, run_tool-Finished, call_named-nul}
use gear_mcp_server.Methods.Switch.{switched, call_named-switched}
use gear_mcp_server.Methods.Dispatch.{method_of, handle_message, internal_error}
use gear_mcp_server.Methods.Replies.{
  is_notification, handle_message-silent, handle_message-unanswered,
}
use gear_mcp_server.Methods.Keeps.{IsSound, handle_message-IsSound}
use gear_mcp_server.Tests.Sample.{
  Value, nil, text, sample, busy, call_text, note_text, call_request, record_of, fields_of,
}

abbrev echo : ToolHandler ℕ
echo args w = (ok (args, []), w + 10)

abbrev broken : ToolHandler ℕ
broken args w = (threw (std_exception (codes "no")), w + 10)

-- One tool, disabled.
abbrev registry : ToolRegistry (ToolHandler ℕ)
registry =
    (set_tool_enabled (codes "t") false (
      register_tool (some (codes "t")) none none (some echo) false
        (new_registry (ToolHandler ℕ)))).1

abbrev server : Server ℕ
server = record { registry = registry; resources = []; prompts = []; logs = []; world = 5 }

abbrev info : Bool → ToolInfo
info main = record {
  name = codes "t";
  description = [];
  input_schema = codes "{}";
  main_thread = main;
}

abbrev no_params : Value
no_params = record_of (fields_of [])

found_t : get_tool (some (codes "t")) registry ≡ some (info false, some echo)
unfolding get_tool register_tool set_tool_enabled insert before has_key lookup
found_t = refl

handle_message-silent_example :
    is_empty (handle_message sample busy note_text server).0
    ≡ (is_empty (skip_space note_text) || is_notification sample busy (sample.parse note_text))
handle_message-silent_example = handle_message-silent sample busy note_text server

note_is_silent :
    (is_empty (skip_space note_text) || is_notification sample busy (sample.parse note_text)) ≡ true
unfolding skip_space method_of
note_is_silent = refl

handle_message-unanswered_example : handle_message sample busy note_text server ≡ ([], server)
handle_message-unanswered_example =
    handle_message-unanswered sample busy note_text server note_is_silent

handle_message-IsSound_example : IsSound server (handle_message sample busy call_text server).1
handle_message-IsSound_example =
    handle_message-IsSound sample busy call_text server
      (Reach-IsValid (
        next (next (initial refl) (register (some (codes "t")) none none (some echo) false))
          (toggle (codes "t") false)))
      (omega arith)

echo_runs : run_handler busy (info false) (some echo) (codes "{}") 6 ≡ (ok (codes "{}", []), 16)
unfolding run_handler
echo_runs = refl

empty_arguments : arguments_text sample busy no_params ≡ ok (codes "{}")
unfolding arguments_text
empty_arguments = refl

run_tool-Finished_example :
    Finished sample busy nil
      (codes "t")
      (codes "{}")
      []
      server
      (run_tool sample busy nil no_params (codes "t") (info false) (some echo) server)
run_tool-Finished_example =
    run_tool-Finished sample busy nil no_params (codes "t") (info false) (some echo) server
      empty_arguments echo_runs

abbrev set_t : Bool → Server ℕ
set_t b = switched sample busy (codes "t") b server

call_named-switched_example :
    (call_named sample busy nil no_params (codes "t") (set_t false) ≡ (
      dump_line sample
          (make_error sample nil method_not_found (codes "Method not found: " ++ codes "t")),
      record (set_t false) {
        logs =
            push_log
              (log_entry
                (busy.now_ms 5).0
                (codes "warn")
                (codes "tools/call")
                (codes "t")
                (codes "skipped")
                0
                (codes "tool disabled in panel"))
              [];
        world = (busy.now_ms 5).1;
      },
    ))
    × (call_named sample busy nil no_params (codes "t") (set_t true)
        ≡ run_tool sample busy nil no_params (codes "t") (info false) (some echo) (set_t true))
call_named-switched_example =
    call_named-switched sample busy nil no_params (codes "t") server (refl, tt) refl found_t

t_nul_enabled : is_tool_enabled (codes "t" ++ (0 ∷ [])) registry ≡ true
unfolding is_tool_enabled register_tool set_tool_enabled insert before has_key lookup
t_nul_enabled = refl

call_named-nul_example :
    call_named sample busy nil no_params (codes "t" ++ (0 ∷ [])) server
    ≡ run_tool sample busy nil no_params (codes "t" ++ (0 ∷ [])) (info false) (some echo) server
call_named-nul_example =
    call_named-nul sample busy nil no_params (codes "t") [] server (refl, tt) refl found_t
      t_nul_enabled

broken_throws :
    run_handler busy (info false) (some broken) (codes "{}") 6
    ≡ (threw (std_exception (codes "no")), 16)
unfolding run_handler
broken_throws = refl

call_params : get_params sample call_request ≡ record_of (fields_of ((codes "name", nil) ∷ []))
unfolding get_params
call_params = refl

params_is_object : sample.is_object (get_params sample call_request) ≡ true
unfolding get_params
params_is_object = refl

name_is_null : sample.find (codes "name") (get_params sample call_request) ≡ some nil
unfolding get_params
name_is_null = refl

call_is_visible : is_empty (skip_space call_text) ≡ false
unfolding skip_space
call_is_visible = refl

handle_message-name_not_string_example :
    ((handle_message sample busy call_text server).0 ≡ internal_error (sample.type_error nil))
    × ((handle_message sample busy call_text server).1.logs ≡ [])
    × ((handle_message sample busy call_text server).1.registry ≡ registry)
handle_message-name_not_string_example =
    handle_message-name_not_string sample busy call_text server call_request (text (codes "7")) nil
      call_is_visible refl refl refl refl params_is_object name_is_null refl
