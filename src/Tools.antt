-- ===== src/Tools.antt =====
-- src/tools/: the tools, whose handlers `tools/call` runs. What the handlers read from their
-- parameters, and what they answer.
pub mod Glob
pub mod Files
pub mod Intent
pub mod Meta
pub mod Autoload
pub mod Project
pub mod Dx
use gear_mcp_server.Base.{
  ℕ, ◌≡◌, ◌<◌, ◌^◌, Bool, Option, none, some, List, [], ◌∷◌, if◌then◌else◌, Bytes, codes, length,
}
use gear_mcp_server.Exec.{Result, ok, threw, Exec, lift}
use gear_mcp_server.Json.{JsonLib, ℤ, pos}
use gear_mcp_server.Methods.{ToolHandler}
use gear_mcp_server.Methods.Rpc.{or_else}

-- Further calls of the JSON library: is_null(), get<int>() and get<bool>() on the values that have one,
-- size(), the items of an array, and dump(2).
pub record Values (lib : JsonLib) : Type 0 where
  pub is_null : lib.Json → Bool
  pub as_int : lib.Json → Option ℤ
  pub as_boolean : lib.Json → Option Bool
  pub as_array : lib.Json → Option (List lib.Json)
  pub size : lib.Json → ℕ
  pub dump_indented : lib.Json → Result Bytes
  pub as_int-number : (n : ℕ) → n < 2 ^ 31 → as_int (lib.number (pos n)) ≡ some (pos n)
  pub as_boolean-boolean : (b : Bool) → as_boolean (lib.boolean b) ≡ some b
  pub as_array-array : (xs : List lib.Json) → as_array (lib.array xs) ≡ some xs
  pub size-array : (xs : List lib.Json) → size (lib.array xs) ≡ length xs

module _ {A : Type 0} (lib : JsonLib) where
  open lib use {Json, find, is_object, type_error}

  -- value(key, default) with the reader of the default's type: throws on a value that is no
  -- object, and on a member that the reader does not read.
  abbrev pub read_member : (Json → Option A) → A → Option Json → Result A
  read_member read d none = ok d
  read_member read d (some v) = elim (read v) [ none ↦ threw (type_error v) | some a ↦ ok a ]

  unfoldable pub value_of : (Json → Option A) → Json → Bytes → A → Result A
  value_of read j key d =
      if is_object j then read_member read d (find key j) else threw (type_error j)

-- value(key, default) with a JSON default.
unfoldable pub value_json : (lib : JsonLib) → lib.Json → Bytes → lib.Json → Result lib.Json
value_json lib j key d =
    if lib.is_object j then ok (or_else (lib.find key j) d) else threw (lib.type_error j)

-- A handler's r_result and r_error.
abbrev pub Answer : Type 0
Answer = Bytes × Bytes

abbrev pub refuse : {W : Type 0} → Bytes → Exec W Answer
refuse r_error w = (ok ([], r_error), w)

-- The same of a call that may run out of fuel: `none` is fuel that ran out.
abbrev pub refuse_now : {W : Type 0} → Bytes → Exec W (Option Answer)
refuse_now r_error w = (ok (some ([], r_error)), w)

abbrev pub answered : Result Bytes → Result Answer
answered (ok t) = ok (t, [])
answered (threw e) = threw e

-- r_result = result.dump()
abbrev pub reply : {W : Type 0} → Result Bytes → Exec W Answer
reply t w = (answered t, w)

-- The parameters are parsed; where they do not parse, the handler refuses with this text.
abbrev pub with_parsed : {J W : Type 0} → Bytes → Result J → (J → Exec W Answer) → Exec W Answer
with_parsed invalid (ok params) body = body params
with_parsed invalid (threw e) body = refuse invalid

abbrev pub with_params :
    (lib : JsonLib) {W : Type 0} → Bytes → (lib.Json → Exec W Answer) → ToolHandler W
with_params lib invalid body p_params_json = with_parsed invalid (lib.parse p_params_json) body
