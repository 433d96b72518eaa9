-- ===== src/Methods/Handlers.antt =====
-- src/server/mcp_methods.cpp: the other methods.
use gear_mcp_server.Base.{
  Option, none, some, List, [], ◌∷◌, ◌++◌, map, if◌then◌else◌, Bytes, codes, is_empty,
}
use gear_mcp_server.Exec.{Result, ok, threw, Exec, lift, gets, ◌>>=◌}
use gear_mcp_server.Json.{JsonLib}
use gear_mcp_server.Registry.{ToolInfo, list_tools}
use gear_mcp_server.Catalog.{
  ResourceInfo, PromptArgument, PromptEntry, PromptMessage, find_resource, find_prompt,
}
use gear_mcp_server.Methods.{ResourceReadHandler, PromptGetHandler, Server, on_world}
use gear_mcp_server.Methods.Rpc.{
  get_id, get_params, value, make_response, make_error, dump_line, invalid_params,
}

abbrev pub supported_protocol : Bytes
supported_protocol = codes "2024-11-05"

-- The text holds a dash outside ASCII, of three bytes in UTF-8.
abbrev instructions : Bytes
instructions =
    codes "Gear MCP Server "
    ++ (0xe2 ∷ 0x80 ∷ 0x94 ∷ [])
    ++ codes
        " C++ GDExtension embedded in the Godot editor. Use tools/list to discover available tools and resources/list for readable context (godot://editor/context)."

module _ (lib : JsonLib) where
  open lib use {
    Json, string, boolean, object, array, parse, dump, find, as_string, is_object, items,
  }

  unfoldable pub handle_ping : Json → Result Bytes
  handle_ping p_req = dump_line lib (make_response lib (get_id lib p_req) (string (codes "pong")))

  -- The version that the client asks for is read, which may throw, and then not used.
  unfoldable pub initialize_result : Json
  initialize_result = object (
      (codes "protocolVersion", string supported_protocol)
      ∷ (
        codes "capabilities",
        object (
            (codes "tools", object [])
            ∷ (codes "resources", object [])
            ∷ (codes "prompts", object [])
            ∷ []),
      )
      ∷ (
        codes "serverInfo",
        object (
            (codes "name", string (codes "gear-mcp-server"))
            ∷ (codes "version", string (codes "0.1.0"))
            ∷ []),
      )
      ∷ (codes "instructions", string instructions)
      ∷ [])

  unfoldable pub handle_initialize : Json → Result Bytes
  handle_initialize p_req =
      elim (value lib (get_params lib p_req) (codes "protocolVersion") supported_protocol) [
        | threw e ↦ threw e
        | ok client_version ↦ dump_line lib (make_response lib (get_id lib p_req) initialize_result)
      ]

  -- A schema that does not parse is replaced by an empty object.
  unfoldable pub tool_json : ToolInfo → Json
  tool_json t = object (
      (codes "name", string t.name)
      ∷ (codes "description", string t.description)
      ∷ (codes "inputSchema", elim (parse t.input_schema) [ ok j ↦ j | threw e ↦ object [] ])
      ∷ [])

  unfoldable pub list_result : Bytes → List Json → Json
  list_result key xs = object ((key, array xs) ∷ [])

  unfoldable pub resource_json : {R : Type 0} → ResourceInfo R → Json
  resource_json r = object (
      (codes "uri", string r.uri)
      ∷ (codes "name", string r.name)
      ∷ (codes "description", string r.description)
      ∷ (codes "mimeType", string r.mime_type)
      ∷ [])

  unfoldable pub argument_json : PromptArgument → Json
  argument_json a = object (
      (codes "name", string a.name)
      ∷ (codes "description", string a.description)
      ∷ (codes "required", boolean a.required)
      ∷ [])

  unfoldable pub prompt_json : {P : Type 0} → PromptEntry P → Json
  prompt_json e = object (
      (codes "name", string e.info.name)
      ∷ (codes "description", string e.info.description)
      ∷ (codes "arguments", array (map argument_json e.info.arguments))
      ∷ [])

  unfoldable pub message_json : PromptMessage → Json
  message_json m = object (
      (codes "role", string m.role)
      ∷ (
        codes "content",
        object ((codes "type", string (codes "text")) ∷ (codes "text", string m.content) ∷ []),
      )
      ∷ [])

  -- An argument of a prompt as text: a string as it is, any other value as JSON text.
  unfoldable pub argument_text : Json → Result Bytes
  argument_text v = elim (as_string v) [ none ↦ dump v | some s ↦ ok s ]

  unfoldable pub argument_texts : List (Bytes × Json) → Result (List (Bytes × Bytes))
  argument_texts [] = ok []
  argument_texts ((k, v) ∷ ms) =
      let rest = argument_texts ms in
      elim (argument_text v) [
        | threw e ↦ threw e
        | ok t ↦ elim rest [ threw e ↦ threw e | ok ts ↦ ok ((k, t) ∷ ts) ]
      ]

  unfoldable pub prompt_arguments : Json → Result (List (Bytes × Bytes))
  prompt_arguments params = elim (find (codes "arguments") params) [
    | none ↦ ok []
    | some a ↦ if is_object a then argument_texts (items a) else ok []
  ]

  unfoldable pub contents_result : Bytes → Bytes → Bytes → Json
  contents_result uri mime_type text = object (
      (
        codes "contents",
        array (
            object (
              (codes "uri", string uri)
              ∷ (codes "mimeType", string mime_type)
              ∷ (codes "text", string text)
              ∷ [])
            ∷ []),
      )
      ∷ [])

  unfoldable pub prompt_result : Bytes → List PromptMessage → Json
  prompt_result description messages = object (
      (codes "description", string description)
      ∷ (codes "messages", array (map message_json messages))
      ∷ [])

  module _ {W : Type 0} where
    unfoldable pub handle_tools_list : Json → Exec (Server W) Bytes
    handle_tools_list p_req s = (
      dump_line lib (
          make_response lib (get_id lib p_req)
            (list_result (codes "tools") (map tool_json (list_tools s.registry)))),
      s,
    )

    unfoldable pub handle_resources_list : Json → Exec (Server W) Bytes
    handle_resources_list p_req s = (
      dump_line lib (
          make_response lib (get_id lib p_req)
            (list_result (codes "resources") (map resource_json s.resources))),
      s,
    )

    -- A null handler leaves the text empty.
    unfoldable pub read_text : Option (ResourceReadHandler W) → Bytes → W → Result Bytes × W
    read_text none uri w = (ok [], w)
    read_text (some h) uri w = h uri w

    unfoldable pub read_found :
        Json → Bytes → Option (ResourceInfo (ResourceReadHandler W)) → Exec (Server W) Bytes
    read_found id uri none =
        lift
          (dump_line lib (make_error lib id invalid_params (codes "Resource not found: " ++ uri)))
    read_found id uri (some r) = do
      text ← on_world (read_text r.read_handler uri)
      lift (dump_line lib (make_response lib id (contents_result uri r.mime_type text)))

    unfoldable pub read_uri : Json → Bytes → Exec (Server W) Bytes
    read_uri id uri =
        if is_empty uri
        then lift (
            dump_line lib
              (make_error lib id invalid_params (codes "Invalid params: missing 'uri'")))
        else do r ← gets (λ s. find_resource uri s.resources); read_found id uri r

    unfoldable pub handle_resources_read : Json → Exec (Server W) Bytes
    handle_resources_read p_req = do
      uri ← lift (value lib (get_params lib p_req) (codes "uri") [])
      read_uri (get_id lib p_req) uri

    unfoldable pub handle_prompts_list : Json → Exec (Server W) Bytes
    handle_prompts_list p_req s = (
      dump_line lib (
          make_response lib (get_id lib p_req)
            (list_result (codes "prompts") (map prompt_json s.prompts))),
      s,
    )

    unfoldable pub prompt_messages :
        Option (PromptGetHandler W) → List (Bytes × Bytes) → W → Result (List PromptMessage) × W
    prompt_messages none args w = (ok [], w)
    prompt_messages (some h) args w = h args w

    unfoldable pub get_found :
        Json
        → Bytes
        → List (Bytes × Bytes)
        → Option (PromptEntry (PromptGetHandler W))
        → Exec (Server W) Bytes
    get_found id name args none =
        lift (dump_line lib (make_error lib id invalid_params (codes "Prompt not found: " ++ name)))
    get_found id name args (some e) = do
      messages ← on_world (prompt_messages e.handler args)
      lift (dump_line lib (make_response lib id (prompt_result e.info.description messages)))

    unfoldable pub get_named : Json → Json → Bytes → Exec (Server W) Bytes
    get_named id params name =
        if is_empty name
        then lift (
            dump_line lib
              (make_error lib id invalid_params (codes "Invalid params: missing 'name'")))
        else do
          args ← lift (prompt_arguments params)
          e ← gets (λ s. find_prompt name s.prompts)
          get_found id name args e

    unfoldable pub handle_prompts_get : Json → Exec (Server W) Bytes
    handle_prompts_get p_req = do
      let params = get_params lib p_req
      name ← lift (value lib params (codes "name") [])
      get_named (get_id lib p_req) params name
