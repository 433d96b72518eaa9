-- ===== src/Catalog.antt =====
-- src/server/mcp_methods.h and mcp_methods.cpp: the resources and the prompts that are
-- registered, and how a request finds one. `R` and `P` are the types of what the handlers'
-- function pointers may point to; a null pointer is `none`.
pub mod Laws
pub mod Resolves
use gear_mcp_server.Base.{
  ℕ, Bool, true, false, Option, none, some, List, [], ◌∷◌, ◌++◌, ◌&&◌, ltb, if◌then◌else◌, Bytes,
  codes, str_eq, starts_with, split_at, length,
}

pub record ResourceInfo (R : Type 0) : Type 0 where
  pub uri : Bytes
  pub name : Bytes
  pub description : Bytes
  pub mime_type : Bytes
  pub read_handler : Option R

pub record PromptArgument : Type 0 where
  pub name : Bytes
  pub description : Bytes
  pub required : Bool

pub record PromptInfo : Type 0 where
  pub name : Bytes
  pub description : Bytes
  pub arguments : List PromptArgument

pub record PromptMessage : Type 0 where
  pub role : Bytes
  pub content : Bytes

pub record PromptEntry (P : Type 0) : Type 0 where
  pub info : PromptInfo
  pub handler : Option P

-- A resource with the same URI is replaced where it stands; else the resource goes to the end.
unfoldable pub register_resource :
    {R : Type 0} → ResourceInfo R → List (ResourceInfo R) → List (ResourceInfo R)
register_resource p_resource [] = p_resource ∷ []
register_resource p_resource (r ∷ rs) =
    let rest = register_resource p_resource rs in
    if str_eq r.uri p_resource.uri then p_resource ∷ rs else r ∷ rest

unfoldable pub register_prompt :
    {P : Type 0} → PromptInfo → Option P → List (PromptEntry P) → List (PromptEntry P)
register_prompt p_prompt p_handler [] = (record { info = p_prompt; handler = p_handler }) ∷ []
register_prompt p_prompt p_handler (e ∷ es) =
    let rest = register_prompt p_prompt p_handler es in
    if str_eq e.info.name p_prompt.name
    then (record { info = p_prompt; handler = p_handler }) ∷ es
    else e ∷ rest

-- The first loop of `_handle_resources_read`: the resource with exactly this URI.
unfoldable pub find_exact : {R : Type 0} → Bytes → List (ResourceInfo R) → Option (ResourceInfo R)
find_exact uri [] = none
find_exact uri (r ∷ rs) = let rest = find_exact uri rs in if str_eq r.uri uri then some r else rest

-- The test of the second loop, on a template's URI: what stands before its first `{` is a prefix
-- of `uri`, and not all of it.
unfoldable pub matches_template : Bytes → Bytes → Bool
matches_template uri template = elim (split_at b'{' template) [
  | none ↦ false
  | some (prefix, _) ↦ ltb (length prefix) (length uri) && starts_with uri prefix
]

-- The second loop.
unfoldable pub find_template :
    {R : Type 0} → Bytes → List (ResourceInfo R) → Option (ResourceInfo R)
find_template uri [] = none
find_template uri (r ∷ rs) =
    let rest = find_template uri rs in if matches_template uri r.uri then some r else rest

-- The search of `_handle_resources_read`.
unfoldable pub find_resource :
    {R : Type 0} → Bytes → List (ResourceInfo R) → Option (ResourceInfo R)
find_resource uri rs = elim (find_exact uri rs) [ none ↦ find_template uri rs | some r ↦ some r ]

-- The search of `_handle_prompts_get`.
unfoldable pub find_prompt : {P : Type 0} → Bytes → List (PromptEntry P) → Option (PromptEntry P)
find_prompt name [] = none
find_prompt name (e ∷ es) =
    let rest = find_prompt name es in if str_eq e.info.name name then some e else rest
