-- ===== src/Methods/Calls.antt =====
-- `tools/call`: what is refused, what a call that ran leaves behind, and what the client is told.
use gear_mcp_server.Base.{
  ℕ, ◌≡◌, refl, ap, ◌∙◌, arith, true, false, not, Option, some, [], ◌∷◌, ◌++◌, ◌==◌, if◌then◌else◌,
  Bytes, codes, is_empty, All,
}
use gear_mcp_server.Exec.{Exception, Result, ok, threw}
use gear_mcp_server.Json.{JsonLib}
use gear_mcp_server.Registry.{ToolInfo, get_tool, is_tool_enabled, increment_call_count}
use gear_mcp_server.Logs.{LogEntry, push_log}
use gear_mcp_server.Methods.{ToolHandler, Host, Server, log, log_entry, preview, elapsed, c_str}
use gear_mcp_server.Methods.Rpc.{make_response, dump_line, text_result}
use gear_mcp_server.Methods.ToolsCall.{
  timed_out, call_name, run_handler, invoke_on_main, arguments_text, finish_call, run_tool,
  call_found, call_named,
}

abbrev pub HasNoNul : Bytes → Type 0
HasNoNul = All (λ c. (c == 0) ≡ false)

c_str-HasNoNul : (k rest : Bytes) → HasNoNul k → c_str (k ++ (0 ∷ rest)) ≡ k
unfolding c_str
c_str-HasNoNul [] rest h = refl
c_str-HasNoNul (c ∷ cs) rest h = rw h.0 (ap (◌∷◌ c) (c_str-HasNoNul cs rest h.1))

pub c_str_whole : (k : Bytes) → HasNoNul k → c_str k ≡ k
unfolding c_str
c_str_whole [] h = refl
c_str_whole (c ∷ cs) h = rw h.0 (ap (◌∷◌ c) (c_str_whole cs h.1))

nonempty-append : (k rest : Bytes) → is_empty k ≡ false → is_empty (k ++ rest) ≡ false
nonempty-append [] rest h = ground arith
nonempty-append (c ∷ cs) rest h = refl

module _ (lib : JsonLib) {W : Type 0} (host : Host W) where
  open lib use {Json, parse, find, as_string, is_object, type_error}

  -- A call by a name that finds a tool: the handler runs exactly if the name is not disabled.
  pub call_named-found :
      (id params : Json) (name : Bytes) (s : Server W) {info : ToolInfo}
      {handler : Option (ToolHandler W)}
      → is_empty name ≡ false
      → get_tool (some (c_str name)) s.registry ≡ some (info, handler)
      → call_named lib host id params name s
        ≡ call_found lib host id params name
            (some (info, handler))
            (is_tool_enabled name s.registry)
            s
  unfolding call_named
  call_named-found id params name s ne found = rw (ne, found)

  -- The switch can be passed by: the look-up stops at a NUL in the name, and the switch is
  -- asked for the whole name. A tool that is disabled runs when its name is sent with a NUL and
  -- any bytes behind it, unless that longer name is disabled too.
  pub call_named-nul :
      (id params : Json) (k rest : Bytes) (s : Server W) {info : ToolInfo}
      {handler : Option (ToolHandler W)}
      → HasNoNul k
      → is_empty k ≡ false
      → get_tool (some k) s.registry ≡ some (info, handler)
      → is_tool_enabled (k ++ (0 ∷ rest)) s.registry ≡ true
      → call_named lib host id params (k ++ (0 ∷ rest)) s
        ≡ run_tool lib host id params (k ++ (0 ∷ rest)) info handler s
  call_named-nul id params k rest s {info} {handler} nul ne found on =
      call_named-found id params (k ++ (0 ∷ rest)) s {info = info} {handler = handler}
        (nonempty-append k _ ne) (rw (c_str-HasNoNul k rest nul) found)
      ∙ rw on (unfold call_found in refl)

  -- What a call that ran leaves behind: the counter of its name raised, one log entry with the
  -- status, and a response that is marked as an error exactly if the handler gave an error text.
  pub record Finished (id : Json) (name result_out error_out : Bytes) (s : Server W)
      (after : Result Bytes × Server W) : Type 0 where
    pub counted : after.1.registry ≡ increment_call_count name s.registry
    pub replied :
        after.0
        ≡ dump_line lib (
            make_response lib id (
              text_result lib
                (if is_empty error_out then result_out else error_out)
                (not (is_empty error_out))))
    pub entry : LogEntry
    pub logged : after.1.logs ≡ push_log entry s.logs
    pub entry_tool : entry.tool ≡ name
    pub entry_status : entry.status ≡ (if is_empty error_out then codes "ok" else codes "error")

  finish_call-Finished :
      (id : Json) (name args : Bytes) (dur : ℕ) (result_out error_out : Bytes) (s t : Server W)
      → t.registry ≡ increment_call_count name s.registry
      → t.logs ≡ s.logs
      → Finished id name result_out error_out s
          (finish_call lib host id name args dur (result_out, error_out) t)
  unfolding finish_call log
  finish_call-Finished id name args dur result_out [] s t er el = record {
    counted = er;
    replied = refl;
    entry =
        log_entry (host.now_ms t.world).0 (codes "info") call_name name (codes "ok") dur
          (preview args);
    logged = ap (push_log _) el;
    entry_tool = refl;
    entry_status = refl;
  }
  finish_call-Finished id name args dur result_out (c ∷ cs) s t er el = record {
    counted = er;
    replied = refl;
    entry =
        log_entry (host.now_ms t.world).0 (codes "error") call_name name (codes "error") dur
          (preview (c ∷ cs));
    logged = ap (push_log _) el;
    entry_tool = refl;
    entry_status = refl;
  }

  run_tool-ran :
      (id params : Json) (name : Bytes) (info : ToolInfo) (handler : Option (ToolHandler W))
      (s : Server W) {args result_out error_out : Bytes} {w : W}
      → arguments_text lib host params ≡ ok args
      → run_handler host info handler args (host.now_ms s.world).1 ≡ (ok (result_out, error_out), w)
      → run_tool lib host id params name info handler s
        ≡ finish_call lib host id name args
            (elapsed host (host.now_ms s.world).0 (host.now_ms w).0)
            (result_out, error_out)
            (record s {
              registry = increment_call_count name s.registry;
              world = (host.now_ms w).1;
            })
  unfolding run_tool
  run_tool-ran id params name info handler s ea er = rw ea (rw er)

  -- A call whose arguments could be written as text and whose handler came back with a result or
  -- an error text: the counter of the name is raised, the log gets exactly one entry, with the
  -- name and the status `ok` or `error`, and the response carries the error text, or the result
  -- where that is empty, and is marked as an error exactly if there is an error text.
  pub run_tool-Finished :
      (id params : Json) (name : Bytes) (info : ToolInfo) (handler : Option (ToolHandler W))
      (s : Server W) {args result_out error_out : Bytes} {w : W}
      → arguments_text lib host params ≡ ok args
      → run_handler host info handler args (host.now_ms s.world).1 ≡ (ok (result_out, error_out), w)
      → Finished id name result_out error_out s (run_tool lib host id params name info handler s)
  run_tool-Finished id params name info handler s {args} {result_out} {error_out} {w} ea er =
      rw (run_tool-ran id params name info handler s ea er) (
        finish_call-Finished id name args _ result_out error_out s
          (record s { registry = increment_call_count name s.registry; world = (host.now_ms w).1 })
          refl refl)

  -- A tool for the main thread that the main thread does not complete in time is reported as a
  -- success: the call is counted and logged as `ok`, and the response, which carries the text
  -- of the time-out, is not marked as an error.
  pub run_tool-timed_out :
      (id params : Json) (name : Bytes) (info : ToolInfo) (handler : Option (ToolHandler W))
      (s : Server W) {args : Bytes}
      → arguments_text lib host params ≡ ok args
      → info.main_thread ≡ true
      → host.dispatch_available (host.now_ms s.world).1 ≡ true
      → host.served_in_time (host.now_ms s.world).1 ≡ false
      → Finished id name timed_out [] s (run_tool lib host id params name info handler s)
        × ((run_tool lib host id params name info handler s).0
            ≡ dump_line lib (make_response lib id (text_result lib timed_out false)))
  run_tool-timed_out id params name info handler s {args} ea m d l =
      let ran : run_handler host info handler args (host.now_ms s.world).1
          ≡ (ok (timed_out, []), (host.now_ms s.world).1) =
        unfold run_handler invoke_on_main in rw m (rw d (rw l)) in
      let done = run_tool-Finished id params name info handler s ea ran in (done, done.replied)

  -- A handler that throws leaves no trace on the server: the call is not counted and not
  -- logged, and what the handler threw goes on to the caller.
  pub run_tool-threw :
      (id params : Json) (name : Bytes) (info : ToolInfo) (handler : Option (ToolHandler W))
      (s : Server W) {args : Bytes} {e : Exception} {w : W}
      → arguments_text lib host params ≡ ok args
      → run_handler host info handler args (host.now_ms s.world).1 ≡ (threw e, w)
      → run_tool lib host id params name info handler s ≡ (threw e, record s { world = w })
  unfolding run_tool
  run_tool-threw id params name info handler s ea er = rw ea (rw er)
