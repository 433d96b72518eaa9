-- ===== src/Json.antt =====
-- The JSON library that the program calls (nlohmann::json), as an interface: values, the calls
-- that the program makes, and what their documentation says of them. A call that may throw has
-- a `Result`.
use gear_mcp_server.Base.{
  ℕ, Bool, true, false, Option, none, some, List, [], ◌∷◌, ◌≡◌, if◌then◌else◌, Bytes, str_eq,
}
use gear_mcp_server.Exec.{Result, Exception}

-- `negsuc n` is -(n + 1).
pub data ℤ : Type 0 where
  pos : ℕ → ℤ
  negsuc : ℕ → ℤ

-- The first member of that name.
unfoldable pub member {ℓ} : {A : Type ℓ} → Bytes → List (Bytes × A) → Option A
member k [] = none
member k ((j, v) ∷ ms) = let rest = member k ms in if str_eq j k then some v else rest

pub record JsonLib : Type 1 where
  pub Json : Type 0
  -- json(nullptr), json(std::string), json(int), json(bool), and the initializer lists
  pub null : Json
  pub string : Bytes → Json
  pub number : ℤ → Json
  pub boolean : Bool → Json
  pub object : List (Bytes × Json) → Json
  pub array : List Json → Json
  -- json::parse
  pub parse : Bytes → Result Json
  -- dump()
  pub dump : Json → Result Bytes
  -- contains(key) with operator[](key), and find(key)
  pub find : Bytes → Json → Option Json
  -- is_string() with get<std::string>()
  pub as_string : Json → Option Bytes
  pub is_object : Json → Bool
  -- the members of an object, in the order of iteration
  pub items : Json → List (Bytes × Json)
  -- value(key, default) with a string default: throws on a value that is no object, and on a
  -- member that is no string; operator[](key) throws on a value that is no object
  pub type_error : Json → Exception
  -- what the documentation says of these calls
  pub find-object : (k : Bytes) (ms : List (Bytes × Json)) → find k (object ms) ≡ member k ms
  pub find-not_object : (k : Bytes) (j : Json) → is_object j ≡ false → find k j ≡ none
  pub as_string-string : (s : Bytes) → as_string (string s) ≡ some s
  pub is_object-object : (ms : List (Bytes × Json)) → is_object (object ms) ≡ true
