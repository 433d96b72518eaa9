-- ===== src/Tools/Meta/Groups.antt =====
-- src/tools/meta/meta_tools.cpp: `domain_catalog`, the tools by domain.
use gear_mcp_server.Base.{List, [], ◌∷◌, Bytes, codes}

pub record DomainInfo : Type 0 where
  pub name : Bytes
  pub description : Bytes
  pub tools : List Bytes

unfoldable pub domain_catalog : List DomainInfo
domain_catalog =
    (record {
      name = codes "file";
      description = codes "Filesystem operations (read/write/list)";
      tools = codes "read_file" ∷ codes "write_file" ∷ codes "list_directory" ∷ [];
    })
    ∷ (record {
      name = codes "scene";
      description = codes "Scene creation, manipulation, and tree traversal";
      tools =
          codes "create_scene"
          ∷ codes "save_scene"
          ∷ codes "list_scene_nodes"
          ∷ codes "add_node"
          ∷ codes "get_node_properties"
          ∷ codes "set_node_properties"
          ∷ codes "delete_node"
          ∷ codes "duplicate_node"
          ∷ codes "reparent_node"
          ∷ codes "load_sprite"
          ∷ [];
    })
    ∷ (record {
      name = codes "script";
      description = codes "GDScript and C# script operations";
      tools = codes "create_script" ∷ codes "modify_script" ∷ codes "get_script_info" ∷ [];
    })
    ∷ (record {
      name = codes "classdb";
      description = codes "ClassDB introspection and inheritance queries";
      tools = codes "query_classes" ∷ codes "query_class_info" ∷ codes "inspect_inheritance" ∷ [];
    })
    ∷ (record {
      name = codes "project";
      description = codes "Project metadata, settings, and search";
      tools =
          codes "list_projects"
          ∷ codes "get_project_info"
          ∷ codes "search_project"
          ∷ codes "get_project_setting"
          ∷ codes "set_project_setting"
          ∷ [];
    })
    ∷ (record {
      name = codes "editor";
      description = codes "Editor lifecycle and inspection";
      tools =
          codes "run_project"
          ∷ codes "stop_project"
          ∷ codes "get_debug_output"
          ∷ codes "get_editor_status"
          ∷ codes "get_godot_version"
          ∷ codes "launch_editor"
          ∷ [];
    })
    ∷ (record {
      name = codes "resource";
      description = codes "Resource creation, modification, and dependencies";
      tools =
          codes "create_resource"
          ∷ codes "modify_resource"
          ∷ codes "create_material"
          ∷ codes "create_shader"
          ∷ codes "get_dependencies"
          ∷ [];
    })
    ∷ (record {
      name = codes "export";
      description = codes "Project export presets and execution";
      tools = codes "export_project" ∷ codes "list_export_presets" ∷ [];
    })
    ∷ (record {
      name = codes "signal";
      description = codes "Signal connect/disconnect/listing";
      tools = codes "connect_signal" ∷ codes "disconnect_signal" ∷ codes "list_connections" ∷ [];
    })
    ∷ (record {
      name = codes "autoload";
      description = codes "Autoload scripts and main-scene management";
      tools =
          codes "add_autoload"
          ∷ codes "remove_autoload"
          ∷ codes "list_autoloads"
          ∷ codes "set_main_scene"
          ∷ [];
    })
    ∷ (record {
      name = codes "animation";
      description = codes "Animation resources, tracks, and state machines";
      tools =
          codes "create_animation"
          ∷ codes "add_animation_track"
          ∷ codes "create_animation_tree"
          ∷ codes "add_animation_state"
          ∷ codes "connect_animation_states"
          ∷ [];
    })
    ∷ (record {
      name = codes "audio";
      description = codes "Audio bus and effect management";
      tools =
          codes "create_audio_bus"
          ∷ codes "get_audio_buses"
          ∷ codes "set_audio_bus_effect"
          ∷ codes "set_audio_bus_volume"
          ∷ [];
    })
    ∷ (record {
      name = codes "tilemap";
      description = codes "TileSet and TileMap manipulation";
      tools = codes "create_tileset" ∷ codes "set_tilemap_cells" ∷ [];
    })
    ∷ (record {
      name = codes "navigation";
      description = codes "NavigationRegion and NavigationAgent helpers";
      tools = codes "create_navigation_region" ∷ codes "create_navigation_agent" ∷ [];
    })
    ∷ (record {
      name = codes "theme";
      description = codes "Theme color, font, and shader application";
      tools =
          codes "set_theme_color" ∷ codes "set_theme_font_size" ∷ codes "apply_theme_shader" ∷ [];
    })
    ∷ (record {
      name = codes "plugin";
      description = codes "Editor plugin listing and enable/disable";
      tools = codes "list_plugins" ∷ codes "enable_plugin" ∷ codes "disable_plugin" ∷ [];
    })
    ∷ (record {
      name = codes "input";
      description = codes "Input map and action management";
      tools = codes "add_input_action" ∷ [];
    })
    ∷ (record {
      name = codes "uid";
      description = codes "Resource UID lookup and refresh";
      tools = codes "get_uid" ∷ codes "update_project_uids" ∷ [];
    })
    ∷ (record {
      name = codes "import";
      description = codes "Resource import options and reimport";
      tools =
          codes "get_import_status"
          ∷ codes "get_import_options"
          ∷ codes "set_import_options"
          ∷ codes "reimport_resource"
          ∷ codes "validate_project"
          ∷ [];
    })
    ∷ (record {
      name = codes "runtime";
      description = codes "Runtime SceneTree inspection and manipulation";
      tools =
          codes "inspect_runtime_tree"
          ∷ codes "set_runtime_property"
          ∷ codes "call_runtime_method"
          ∷ codes "get_runtime_metrics"
          ∷ [];
    })
    ∷ (record {
      name = codes "intent";
      description = codes "Intent snapshots, decision logs, and handoff briefs";
      tools =
          codes "capture_intent_snapshot"
          ∷ codes "record_decision_log"
          ∷ codes "record_work_step"
          ∷ codes "record_execution_trace"
          ∷ codes "summarize_intent_context"
          ∷ codes "generate_handoff_brief"
          ∷ codes "export_handoff_pack"
          ∷ codes "set_recording_mode"
          ∷ codes "get_recording_mode"
          ∷ [];
    })
    ∷ (record {
      name = codes "assets";
      description = codes "CC0 asset providers (Poly Haven, AmbientCG, Kenney)";
      tools = codes "list_asset_providers" ∷ codes "search_assets" ∷ codes "fetch_asset" ∷ [];
    })
    ∷ (record {
      name = codes "debug";
      description = codes "LSP and DAP debug tools (Godot's language server and debug adapter)";
      tools =
          codes "lsp_get_diagnostics"
          ∷ codes "lsp_get_completions"
          ∷ codes "lsp_get_hover"
          ∷ codes "lsp_get_symbols"
          ∷ codes "dap_set_breakpoint"
          ∷ codes "dap_remove_breakpoint"
          ∷ codes "dap_continue"
          ∷ codes "dap_pause"
          ∷ codes "dap_step_over"
          ∷ codes "dap_get_stack_trace"
          ∷ [];
    })
    ∷ (record {
      name = codes "testing";
      description = codes "Runtime input injection and viewport screenshots";
      tools =
          codes "capture_screenshot"
          ∷ codes "capture_viewport"
          ∷ codes "inject_action"
          ∷ codes "inject_key"
          ∷ codes "inject_mouse_click"
          ∷ codes "inject_mouse_motion"
          ∷ [];
    })
    ∷ (record {
      name = codes "dx";
      description = codes "Developer experience: health checks, log parsing, prototype scaffolding";
      tools =
          codes "parse_error_log"
          ∷ codes "get_project_health"
          ∷ codes "find_resource_usages"
          ∷ codes "scaffold_gameplay_prototype"
          ∷ [];
    })
    ∷ []
