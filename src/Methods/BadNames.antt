-- ===== src/Methods/BadNames.antt =====
-- tools/call with a name that is no string: what the whole server answers.
use gear_mcp_server.Base.{◌≡◌, ap, ◌∙◌, true, false, none, some, [], Bytes, codes, is_empty}
use gear_mcp_server.Exec.{Exception, ok, threw}
use gear_mcp_server.Framing.{skip_space}
use gear_mcp_server.Json.{JsonLib}
use gear_mcp_server.Methods.{Host, Server}
use gear_mcp_server.Methods.Rpc.{get_params, value}
use gear_mcp_server.Methods.ToolsCall.{call_name, handle_tools_call}
use gear_mcp_server.Methods.Dispatch.{
  dispatch, handle, method_of, answer, answer_if_id, handle_request, handle_parsed, handle_message,
  internal_error,
}

module _ (lib : JsonLib) {W : Type 0} (host : Host W) where
  open lib use {Json, parse, find, as_string, is_object, type_error}

  value-not_string :
      (j : Json) (key d : Bytes) {v : Json}
      → is_object j ≡ true
      → find key j ≡ some v
      → as_string v ≡ none
      → value lib j key d ≡ threw (type_error v)
  unfolding value
  value-not_string j key d o f n = rw (o, f, n)

  value_string :
      (j : Json) (key d t : Bytes)
      → is_object j ≡ true
      → find key j ≡ some (lib.string t)
      → value lib j key d ≡ ok t
  unfolding value
  value_string j key d t o f = rw (o, f, lib.as_string-string t)

  handle_tools_call-bad_name :
      (req : Json) (s : Server W) {name : Json}
      → is_object (get_params lib req) ≡ true
      → find (codes "name") (get_params lib req) ≡ some name
      → as_string name ≡ none
      → handle_tools_call lib host req s ≡ (threw (type_error name), s)
  unfolding handle_tools_call
  handle_tools_call-bad_name req s op n ns =
      rw (value-not_string (get_params lib req) (codes "name") [] op n ns)

  -- A method that throws at once leaves the clock read and nothing else.
  answer-threw :
      (req : Json) (method : Bytes) (s : Server W) {e : Exception}
      → is_object req ≡ true
      → find (codes "method") req ≡ some (lib.string method)
      → dispatch lib host method req (record s { world = (host.now_ms s.world).1 })
        ≡ (threw e, record s { world = (host.now_ms s.world).1 })
      → answer lib host req method s ≡ (threw e, record s { world = (host.now_ms s.world).1 })
  unfolding answer handle
  answer-threw req method s o m d = rw (value_string req (codes "method") [] method o m) (rw d)

  -- A request whose tool name is no string is answered by an internal error without its id, and
  -- nothing is logged.
  pub handle_message-name_not_string :
      (text : Bytes) (s : Server W) (req id name : Json)
      → is_empty (skip_space text) ≡ false
      → parse text ≡ ok req
      → is_object req ≡ true
      → find (codes "method") req ≡ some (lib.string call_name)
      → find (codes "id") req ≡ some id
      → is_object (get_params lib req) ≡ true
      → find (codes "name") (get_params lib req) ≡ some name
      → as_string name ≡ none
      → ((handle_message lib host text s).0 ≡ internal_error (type_error name))
        × ((handle_message lib host text s).1.logs ≡ s.logs)
        × ((handle_message lib host text s).1.registry ≡ s.registry)
  unfolding handle_message
  handle_message-name_not_string text s req id name ne p o m i op n ns =
      let t = record s { world = (host.now_ms s.world).1 } in
      let called = handle_tools_call-bad_name req t op n ns in
      let answered =
        answer-threw req call_name s {e = type_error name} o m (unfold dispatch in called) in
      let method : method_of lib host req ≡ some call_name =
        unfold method_of in rw (m, method_of) (lib.as_string-string call_name) in
      let requested : handle_request lib host req (some call_name) s
          ≡ (threw (type_error name), t) =
        unfold handle_request in ap (λ o. answer_if_id lib host o req call_name s) i ∙ answered in
      let parsed : handle_parsed lib host (ok req) s ≡ (threw (type_error name), t) =
        unfold handle_parsed in ap (λ o. handle_request lib host req o s) method ∙ requested in
      (rw (ne, p, parsed), rw (ne, p, parsed), rw (ne, p, parsed))
