-- ===== src/Tests/Sample.antt =====
-- A small JSON library and host that meet the interfaces, for the tests.
use gear_mcp_server.Base.{
  ℕ, ◌+◌, ◌≡◌, refl, ap, Bool, true, false, Option, none, some, List, [], ◌∷◌, ◌++◌, if◌then◌else◌,
  Bytes, codes, str_eq, length,
}
use gear_mcp_server.Exec.{std_exception, parse_error, Result, ok, threw}
use gear_mcp_server.Json.{JsonLib, ℤ, member}
use gear_mcp_server.Methods.{Host}
use gear_mcp_server.Tools.{Values}

mutual
  pub data Value : Type 0 where
    nil : Value
    text : Bytes → Value
    num : ℤ → Value
    flag : Bool → Value
    record_of : Fields → Value
    items_of : Items → Value

  pub data Fields : Type 0 where
    no_fields : Fields
    field : Bytes → Value → Fields → Fields

  pub data Items : Type 0 where
    done : Items
    item : Value → Items → Items

abbrev pub fields_of : List (Bytes × Value) → Fields
fields_of [] = no_fields
fields_of ((k, v) ∷ ms) = field k v (fields_of ms)

abbrev pub to_items : List Value → Items
to_items [] = done
to_items (v ∷ vs) = item v (to_items vs)

abbrev pub look : Bytes → Fields → Option Value
look k no_fields = none
look k (field j v fs) = let rest = look k fs in if str_eq j k then some v else rest

abbrev pub find_in : Bytes → Value → Option Value
find_in k (record_of fs) = look k fs
find_in k _ = none

abbrev pub as_text : Value → Option Bytes
as_text (text s) = some s
as_text _ = none

abbrev pub is_record : Value → Bool
is_record (record_of fs) = true
is_record _ = false

abbrev pub members : Fields → List (Bytes × Value)
members no_fields = []
members (field k v fs) = (k, v) ∷ members fs

abbrev pub list_members : Value → List (Bytes × Value)
list_members (record_of fs) = members fs
list_members _ = []

abbrev pub print : Value → Result Bytes
print (text s) = ok (b'"' ∷ s ++ b'"' ∷ [])
print (record_of fs) = ok (codes "{}")
print _ = ok (codes "null")

-- The texts that the tests send.
abbrev pub call_text : Bytes
call_text = codes "{call}"

abbrev pub note_text : Bytes
note_text = codes "{note}"

abbrev pub call_request : Value
call_request = record_of (
    fields_of (
      (codes "method", text (codes "tools/call"))
      ∷ (codes "id", text (codes "7"))
      ∷ (codes "params", record_of (fields_of ((codes "name", nil) ∷ [])))
      ∷ []))

abbrev pub note_request : Value
note_request = record_of (fields_of ((codes "method", text (codes "ping")) ∷ []))

abbrev pub read : Bytes → Result Value
read t =
    if str_eq t call_text
    then ok call_request
    else if str_eq t note_text
    then ok note_request
    else threw (parse_error (codes "bad"))

pub look-fields_of : (k : Bytes) (ms : List (Bytes × Value)) → look k (fields_of ms) ≡ member k ms
unfolding member
look-fields_of k [] = refl
look-fields_of k ((j, v) ∷ ms) = ap (λ r. if str_eq j k then some v else r) (look-fields_of k ms)

pub find_in-not_record : (k : Bytes) (j : Value) → is_record j ≡ false → find_in k j ≡ none
find_in-not_record k nil h = refl
find_in-not_record k (record_of fs) h = cc
find_in-not_record k _ h = refl

abbrev pub sample : JsonLib
sample = record {
  Json = Value;
  null = nil;
  string = text;
  number = num;
  boolean = flag;
  object = λ ms. record_of (fields_of ms);
  array = λ vs. items_of (to_items vs);
  parse = read;
  dump = print;
  find = find_in;
  as_string = as_text;
  is_object = is_record;
  items = list_members;
  type_error = λ j. std_exception (codes "type must be string");
  find-object = look-fields_of;
  find-not_object = find_in-not_record;
  as_string-string = λ s. refl;
  is_object-object = λ ms. refl;
}

-- The outside is a clock; the main thread takes tasks and never completes one.
abbrev pub busy : Host ℕ
busy = record {
  now_ms = λ t. (t, t + 1);
  dispatch_available = λ t. true;
  served_in_time = λ t. false;
}

abbrev pub items_in : Items → List Value
items_in done = []
items_in (item v vs) = v ∷ items_in vs

abbrev pub as_items : Value → Option (List Value)
as_items (items_of vs) = some (items_in vs)
as_items _ = none

abbrev pub as_number : Value → Option ℤ
as_number (num n) = some n
as_number _ = none

abbrev pub as_flag : Value → Option Bool
as_flag (flag b) = some b
as_flag _ = none

abbrev pub is_nil : Value → Bool
is_nil nil = true
is_nil _ = false

abbrev pub size_of_value : Value → ℕ
size_of_value (items_of vs) = length (items_in vs)
size_of_value nil = 0
size_of_value _ = 1

pub items_in-to_items : (vs : List Value) → items_in (to_items vs) ≡ vs
items_in-to_items [] = refl
items_in-to_items (v ∷ vs) = ap (◌∷◌ v) (items_in-to_items vs)

-- The library with another parser, and the further calls on its values.
abbrev pub parsing : (Bytes → Result Value) → JsonLib
parsing read_text = record sample { parse = read_text }

abbrev pub values_of : (read_text : Bytes → Result Value) → Values (parsing read_text)
values_of read_text = record {
  is_null = is_nil;
  as_int = as_number;
  as_boolean = as_flag;
  as_array = as_items;
  size = size_of_value;
  dump_indented = λ v. ok (codes "saved");
  as_int-number = λ n h. refl;
  as_boolean-boolean = λ b. refl;
  as_array-array = λ vs. ap some (items_in-to_items vs);
  size-array = λ vs. ap length (items_in-to_items vs);
}
