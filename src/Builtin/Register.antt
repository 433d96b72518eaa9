-- ===== src/Builtin/Register.antt =====
-- src/server/phase4_resources.cpp: `register_phase4_resources`.
use gear_mcp_server.Base.{false, some, List, [], ◌∷◌, ◌++◌, Bytes, codes}
use gear_mcp_server.Exec.{ok}
use gear_mcp_server.Json.{JsonLib}
use gear_mcp_server.Catalog.{
  ResourceInfo, PromptArgument, PromptInfo, PromptMessage, register_resource, register_prompt,
}
use gear_mcp_server.Methods.{ResourceReadHandler, PromptGetHandler, Server}
use gear_mcp_server.Builtin.{Engine}
use gear_mcp_server.Builtin.Prompts.{prompt_scene_bootstrap, prompt_debug_triage}
use gear_mcp_server.Builtin.Project.{resource_project_info}
use gear_mcp_server.Builtin.Readers.{
  scene_prefix, script_prefix, resource_prefix, resource_scene, resource_script, resource_resource,
}

abbrev pub optional_argument : Bytes → Bytes → PromptArgument
optional_argument n d = record { name = n; description = d; required = false }

abbrev pub scene_bootstrap : PromptInfo
scene_bootstrap = record {
  name = codes "godot.scene_bootstrap";
  description = codes "Workflow template for creating a new Godot scene with the Gear MCP tools";
  arguments =
      optional_argument (codes "name") (codes "Scene name (default: MyScene)")
      ∷ optional_argument (codes "root_node") (codes "Root node class (default: Node2D)")
      ∷ optional_argument (codes "children") (codes "Free-form description of the desired children")
      ∷ [];
}

abbrev pub debug_triage : PromptInfo
debug_triage = record {
  name = codes "godot.debug_triage";
  description =
      codes
        "Debug-triage workflow template using logging, introspection, and code inspection tools";
  arguments =
      optional_argument (codes "symptom") (codes "One-line description of the symptom")
      ∷ optional_argument (codes "context")
          (codes "Free-form context (recent changes, repro steps)")
      ∷ [];
}

-- A prompt's function, which neither throws nor acts on the outside.
abbrev pub pure_prompt :
    {W : Type 0} → (List (Bytes × Bytes) → List PromptMessage) → PromptGetHandler W
pure_prompt f args w = (ok (f args), w)

module _ (lib : JsonLib) {W : Type 0} (engine : Engine lib.Json W) where
  abbrev pub builtin :
      Bytes → Bytes → Bytes → ResourceReadHandler W → ResourceInfo (ResourceReadHandler W)
  builtin uri name description h = record {
    uri = uri;
    name = name;
    description = description;
    mime_type = codes "application/json";
    read_handler = some h;
  }

  abbrev pub project_resource : ResourceInfo (ResourceReadHandler W)
  project_resource =
      builtin (codes "godot://project/info") (codes "Project Info")
        (codes "Project path, engine version, and project.godot [application] section")
        (resource_project_info lib engine)

  abbrev pub scene_resource : ResourceInfo (ResourceReadHandler W)
  scene_resource =
      builtin (scene_prefix ++ codes "{path}") (codes "Scene File")
        (codes "Read the contents of a .tscn/.scn scene file. URI: godot://scene/{res_path}")
        (resource_scene lib engine)

  abbrev pub script_resource : ResourceInfo (ResourceReadHandler W)
  script_resource =
      builtin (script_prefix ++ codes "{path}") (codes "Script File")
        (codes
          "Read the contents of a script file (.gd, .cs, etc.). URI: godot://script/{res_path}")
        (resource_script lib engine)

  abbrev pub file_resource : ResourceInfo (ResourceReadHandler W)
  file_resource =
      builtin (resource_prefix ++ codes "{path}") (codes "Resource File")
        (codes "Read the contents of any resource file. URI: godot://resource/{res_path}")
        (resource_resource lib engine)

  unfoldable pub register_phase4_resources : Server W → Server W
  register_phase4_resources s = record s {
    resources = register_resource file_resource (
        register_resource script_resource
          (register_resource scene_resource (register_resource project_resource s.resources)));
    prompts =
        register_prompt debug_triage (some (pure_prompt prompt_debug_triage))
          (register_prompt scene_bootstrap (some (pure_prompt prompt_scene_bootstrap)) s.prompts);
  }
