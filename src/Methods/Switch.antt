-- ===== src/Methods/Switch.antt =====
-- `tools/call` behind the panel's switch.
use gear_mcp_server.Base.{
  ◌≡◌, refl, sym, ap, ◌∙◌, Bool, true, false, Option, some, is_some, ◌++◌, Bytes, codes, is_empty,
  str_eq_refl,
}
use gear_mcp_server.Json.{JsonLib}
use gear_mcp_server.OrdMap.{has_key, lookup}
use gear_mcp_server.Registry.{
  ToolInfo, ToolRegistry, found, get_tool, is_tool_enabled, set_tool_enabled,
}
use gear_mcp_server.Registry.Enabled.{set_tool_enabled_lem}
use gear_mcp_server.Registry.Refines.{is_some-get_tool, set_tool_enabled-tools}
use gear_mcp_server.Logs.{push_log}
use gear_mcp_server.Methods.{ToolHandler, Host, Server, log, log_entry}
use gear_mcp_server.Methods.Rpc.{make_error, dump_line, method_not_found}
use gear_mcp_server.Methods.ToolsCall.{call_name, run_tool, call_found, call_named}
use gear_mcp_server.Methods.Calls.{HasNoNul, c_str_whole, call_named-found}

-- Setting a tool that is found decides whether it is enabled, and the look-up finds it as before.
set_found :
    {H : Type 0} (k : Bytes) (b : Bool) (r : ToolRegistry H) {o : ToolInfo × Option H}
    → get_tool (some k) r ≡ some o
    → (is_tool_enabled k (set_tool_enabled k b r).1 ≡ b)
      × (get_tool (some k) (set_tool_enabled k b r).1 ≡ some o)
unfolding get_tool
set_found k b r e =
    let known : has_key k r.tools ≡ true =
      sym (is_some-get_tool k r) ∙ ap is_some (unfold get_tool in e) in
    let (was, on) = set_tool_enabled_lem k k b r in
    (
      on ∙ rw (known, str_eq_refl k) refl,
      ap (λ m. found (lookup k m)) (set_tool_enabled-tools k b r).0 ∙ e,
    )

module _ (lib : JsonLib) {W : Type 0} (host : Host W) where
  open lib use {Json}

  abbrev pub switched : Bytes → Bool → Server W → Server W
  switched k b s = record s { registry = (set_tool_enabled k b s.registry).1 }

  -- The panel's switch decides on a call by the name of a tool that is registered, a name that is
  -- not empty and has no NUL in it. After the tool was switched off, the call is refused as an
  -- unknown method; it leaves the registry with its counters, the resources and the prompts as they
  -- are, asks nothing of the outside but the time, and adds one entry to the log. After the tool was
  -- switched on, the call runs it. What the switch was before does not matter.
  pub call_named-switched :
      (id params : Json) (k : Bytes) (s : Server W) {info : ToolInfo}
      {handler : Option (ToolHandler W)}
      → HasNoNul k
      → is_empty k ≡ false
      → get_tool (some k) s.registry ≡ some (info, handler)
      → (call_named lib host id params k (switched k false s) ≡ (
        dump_line lib (make_error lib id method_not_found (codes "Method not found: " ++ k)),
        record (switched k false s) {
          logs =
              push_log
                (log_entry
                  (host.now_ms s.world).0
                  (codes "warn")
                  call_name
                  k
                  (codes "skipped")
                  0
                  (codes "tool disabled in panel"))
                s.logs;
          world = (host.now_ms s.world).1;
        },
      ))
        × (call_named lib host id params k (switched k true s)
            ≡ run_tool lib host id params k info handler (switched k true s))
  unfolding log
  call_named-switched id params k s {info} {handler} nul ne found =
      let off = set_found k false s.registry found in
      let on = set_found k true s.registry found in
      let whole = c_str_whole k nul in
      (
        call_named-found lib host id params k (switched k false s) {info = info} {handler = handler}
              ne (rw whole off.1)
            ∙ rw (off.0) (unfold call_found in refl),
        call_named-found lib host id params k (switched k true s) {info = info} {handler = handler}
              ne (rw whole on.1)
            ∙ rw (on.0) (unfold call_found in refl),
      )
