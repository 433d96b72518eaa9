-- ===== src/Methods/Rpc.antt =====
-- src/server/mcp_methods.cpp: what the methods read from a request, and the envelopes of their
-- responses.
use gear_mcp_server.Base.{Bool, Option, none, some, [], ◌∷◌, ◌++◌, if◌then◌else◌, Bytes, codes}
use gear_mcp_server.Exec.{Result, ok, threw}
use gear_mcp_server.Json.{JsonLib, ℤ, negsuc}

-- -32602
abbrev pub invalid_params : ℤ
invalid_params = negsuc 32601

-- -32601
abbrev pub method_not_found : ℤ
method_not_found = negsuc 32600

abbrev pub or_else : {A : Type 0} → Option A → A → A
or_else none d = d
or_else (some a) d = a

module _ (lib : JsonLib) where
  open lib use {Json, null, string, number, object, dump, find, as_string, is_object, type_error}

  unfoldable pub get_id : Json → Json
  get_id p_req = or_else (find (codes "id") p_req) null

  unfoldable pub get_params : Json → Json
  get_params p_req = elim (find (codes "params") p_req) [
    | none ↦ object []
    | some p ↦ if is_object p then p else object []
  ]

  -- j.value(key, "...")
  unfoldable pub value : Json → Bytes → Bytes → Result Bytes
  value j key d =
      if is_object j
      then elim (find key j) [
        | none ↦ ok d
        | some v ↦ elim (as_string v) [ none ↦ threw (type_error v) | some s ↦ ok s ]
      ]
      else threw (type_error j)

  unfoldable pub make_response : Json → Json → Json
  make_response p_id p_result = object (
      (codes "jsonrpc", string (codes "2.0"))
      ∷ (codes "id", p_id)
      ∷ (codes "result", p_result)
      ∷ [])

  unfoldable pub make_error : Json → ℤ → Bytes → Json
  make_error p_id p_code p_message = object (
      (codes "jsonrpc", string (codes "2.0"))
      ∷ (codes "id", p_id)
      ∷ (
        codes "error",
        object ((codes "code", number p_code) ∷ (codes "message", string p_message) ∷ []),
      )
      ∷ [])

  -- j.dump() + "\n"
  unfoldable pub dump_line : Json → Result Bytes
  dump_line j = elim (dump j) [ ok s ↦ ok (s ++ codes "\n") | threw e ↦ threw e ]

  -- A result that tells of an error or not, with one piece of text.
  unfoldable pub text_result : Bytes → Bool → Json
  text_result text failed = object (
      (
        codes "content",
        lib.array (
            object ((codes "type", string (codes "text")) ∷ (codes "text", string text) ∷ []) ∷ []),
      )
      ∷ (codes "isError", lib.boolean failed)
      ∷ [])
