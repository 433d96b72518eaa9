-- ===== src/Lib.antt =====
-- Gear MCP server: a verification library for the C++ core of the repository.
--
-- The program is a Godot extension with a server for the Model Context Protocol. A connection
-- delivers bytes, which are cut into JSON texts (src/server/tcp_server.cpp); each text is
-- parsed, checked and dispatched (src/server/mcp_server.cpp) to a JSON-RPC method
-- (src/server/mcp_methods.cpp). `tools/call` finds a tool in the registry
-- (src/server/tool_registry.cpp) and runs its handler, in the thread of the connection or on the
-- editor's main thread (src/server/main_thread_queue.cpp). Calls and other methods leave entries
-- in a log buffer that the editor's panel shows. Resources and prompts are read in the same way;
-- some are built in (src/server/phase4_resources.cpp). The tools share helpers for paths
-- (src/shared/path_utils.cpp) and for Godot's configuration files
-- (src/shared/config_parser.cpp).
--
-- Which file models which part:
--   Framing       extract_next_message and the receiving loop of src/server/tcp_server.cpp; what
--                 `recv` returned is a list of chunks
--   Registry      ToolRegistry of src/server/tool_registry.h and tool_registry.cpp, one function
--                 per method; each method holds the mutex throughout and is one step
--   Logs          the log entries and their buffer, in src/server/mcp_methods.cpp
--   Catalog       the registered resources and prompts, in src/server/mcp_methods.cpp
--   Methods       the state of the server, and in its children: Rpc the envelopes, ToolsCall and
--                 Handlers the methods of src/server/mcp_methods.cpp, Dispatch `handle` and
--                 `_handle_message` of src/server/mcp_server.cpp
--   Paths         src/shared/path_utils.cpp
--   Config        src/shared/config_parser.cpp: Value the values and their quoting, Ini the reader
--                 and its questions, Edit the changes of a file's text, Presets the export
--                 presets, Project the operations that read and rewrite project.godot, Scan the
--                 search for the projects in a directory
--   Builtin       src/server/phase4_resources.cpp: Project and Readers the readers of resources,
--                 Prompts the prompts, Register their registration
--   Queue         src/server/main_thread_queue.cpp: the tasks for the main thread, as the steps of
--                 the calls that wait and of the main thread, and the loop of the main thread
--                 among the moves of the other threads
--   Client        src/shared/json_rpc_client.cpp: the framing of a call of the language server, and
--                 the reading of the response
--   Tools         what a handler reads from its parameters and answers; Tools/Glob and Tools/Files
--                 src/tools/file/file_tools.cpp, Tools/Intent src/tools/intent/intent_tools.cpp:
--                 the state of the intent tools, in Record the handlers that append to it, in
--                 Report those that report it, in Brief the text of a brief
--                 Tools/Meta src/tools/meta/meta_tools.cpp: in Groups the catalogue of the domains
--                 Tools/Autoload src/tools/autoload/autoload_tools.cpp
--                 Tools/Project src/tools/project/project_tools.cpp: the search through the files
--                 of a project, in Handlers the handlers, in Found what there is to be found
--                 Tools/Dx src/tools/dx/dx_tools.cpp: Log, Usages, Health and Scaffold, one for
--                 each of the four handlers
--   Folders       what the program reads of directories, as functions of the state of the disk
--   Lifecycle     starting, stopping and accepting, in src/server/tcp_server.cpp and
--                 src/server/mcp_server.cpp
--   Exec          the shape of a method: it changes the state and may throw
--   Json          nlohmann::json as an interface, with the documented behaviour that is relied on
--   OrdMap        std::map and std::set with string keys
--   Base          bytes, lists and tests on native numbers
--   Tests         concrete requests, registries and byte streams
--
-- The handlers of tools, resources and prompts are arbitrary functions that act on the world
-- outside the server and may throw; the clock and the main thread are a `Host`. A method runs
-- without interference from another connection.
--
-- Fuel: `drain` takes a number of rounds, and `drain_all` gives it one more than the buffer has
-- bytes, since each message takes at least one byte from the buffer. `pattern_match` and
-- `glob_match` give their loop enough for each pair of a position in the name and one in the
-- pattern. `list_recursive` takes a bound on the depth of the directories: `none` is a listing
-- that did not end; so do `search_directory` and `scan_projects`. `process_pending` takes a number
-- of rounds: one more than the tasks in the queue and the calls that begin meanwhile is enough.
-- Everything else is structural recursion.
--
-- The file system, the engine, and the number readers of the C++ standard library are parameters
-- too: functions that the configuration files, the built-in resources, the tools and the client
-- are given. So is std::regex, with the constructor that throws on a pattern it refuses.
--
-- Not modelled: threads beyond the sequences of their steps, the engine's API and the tools that
-- call it, the schemas and descriptions with which tools are registered, the conversion of
-- Godot's values to JSON, the panel, the proxy, and the third-party code.
pub mod Base
pub mod OrdMap
pub mod Framing
pub mod Exec
pub mod Json
pub mod Registry
pub mod Logs
pub mod Catalog
pub mod Methods
pub mod Paths
pub mod Config
pub mod Builtin
pub mod Queue
pub mod Client
pub mod Folders
pub mod Tools
pub mod Lifecycle
mod Tests
