-- ===== src/Tools/Dx/Traversal.antt =====
-- scaffold_gameplay_prototype: a path with `..`.
use gear_mcp_server.Base.{
  ◌≡◌, refl, true, false, ◌||◌, [], inl, inr, Bool-cases, Bytes, codes, is_empty, find-longer, take,
  str_eq, arith,
}
use gear_mcp_server.Exec.{ok}
use gear_mcp_server.Json.{JsonLib}
use gear_mcp_server.Methods.Rpc.{value}
use gear_mcp_server.Paths.{has_traversal}
use gear_mcp_server.Tools.Dx.{FileSystem}
use gear_mcp_server.Tools.Dx.Scaffold.{
  res_prefixed, scaffold_at, scaffold, handle_scaffold_gameplay_prototype,
}

has_traversal-res_prefixed :
    (path : Bytes) → has_traversal path ≡ true → has_traversal (res_prefixed path) ≡ true
unfolding has_traversal res_prefixed
has_traversal-res_prefixed path h = elim (Bool-cases (str_eq (take 6 path) (codes "res://"))) [
  | inl e ↦ rw e h
  | inr e ↦ rw e (find-longer (codes "res://") path (codes "..") h)
]

either-res_prefixed :
    (a b : Bytes)
    → (has_traversal a || has_traversal b) ≡ true
    → (has_traversal (res_prefixed a) || has_traversal (res_prefixed b)) ≡ true
either-res_prefixed a b h = elim (Bool-cases (has_traversal a)) [
  | inl e ↦ rw (has_traversal-res_prefixed a e) refl
  | inr e ↦
      let other : has_traversal b ≡ true = rw e at h in
      rw (has_traversal-res_prefixed b other) (ground arith)
]

module _ (lib : JsonLib) {W : Type 0} (file_system : FileSystem W) (get_project_path : W → Bytes)
    (res_to_absolute : Bytes → W → Bytes) (refresh : W → W) where
  open lib use {Json, parse}

  -- With a project open, and a scene and a script named of which at least one has `..` in its
  -- path: the call refuses, and no directory is made and no file is written. The other parameters
  -- are texts.
  pub handle_scaffold-traversal :
      (t : Bytes) (params : Json) (scene_path script_path root_type name : Bytes) (w : W)
      → parse t ≡ ok params
      → value lib params (codes "scene_path") [] ≡ ok scene_path
      → value lib params (codes "script_path") [] ≡ ok script_path
      → value lib params (codes "root_node_type") (codes "Node2D") ≡ ok root_type
      → value lib params (codes "name") (codes "Prototype") ≡ ok name
      → is_empty scene_path ≡ false
      → is_empty script_path ≡ false
      → is_empty (get_project_path w) ≡ false
      → (has_traversal scene_path || has_traversal script_path) ≡ true
      → handle_scaffold_gameplay_prototype lib file_system get_project_path res_to_absolute refresh
          t w
        ≡ (ok ([], codes "Path traversal detected"), w)
  unfolding handle_scaffold_gameplay_prototype scaffold scaffold_at
  handle_scaffold-traversal t params scene_path script_path root_type name w hp hc hs hr hn nc ns np
        up =
      rw (hp, hc)
        (rw (hs, hr)
          (rw hn (rw (nc, ns) (rw np (rw (either-res_prefixed scene_path script_path up) refl)))))
