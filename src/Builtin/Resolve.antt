-- ===== src/Builtin/Resolve.antt =====
-- Which built-in resource a URI is read by.
use gear_mcp_server.Base.{
  ℕ, ◌≡◌, refl, arith, Bool, true, false, Option, none, some, [], ◌∷◌, ◌++◌, ltb, if◌then◌else◌,
  Bytes, codes, str_eq, length, split_at,
}
use gear_mcp_server.Json.{JsonLib}
use gear_mcp_server.Catalog.{
  register_resource, find_exact, find_template, matches_template, find_resource,
}
use gear_mcp_server.Methods.{Server}
use gear_mcp_server.Builtin.{Engine}
use gear_mcp_server.Builtin.Readers.{scene_prefix, script_prefix, resource_prefix}
use gear_mcp_server.Builtin.Register.{
  scene_resource, script_resource, file_resource, register_phase4_resources,
}

either :
    {A : Type 0} (b : Bool) (x : A) (o : Option A)
    → o ≡ some x
    → (elim (if b then some x else none) as (λ r. Option A) [ none ↦ o | some r ↦ some r ]) ≡ some x
either true x o e = refl
either false x o e = e

module _ (lib : JsonLib) {W : Type 0} (engine : Engine lib.Json W) where
  -- On a server without resources, the built-in ones: a URI of a scene, a script or a resource
  -- file with a path that is not empty is read by the reader of that kind.
  pub register_phase4_resources-resolves :
      (s : Server W) (c : ℕ) (cs : Bytes)
      → s.resources ≡ []
      → (find_resource (scene_prefix ++ c ∷ cs) (register_phase4_resources lib engine s).resources
          ≡ some (scene_resource lib engine))
        × ((find_resource
                (script_prefix ++ c ∷ cs)
                (register_phase4_resources lib engine s).resources
              ≡ some (script_resource lib engine))
            × (find_resource
                  (resource_prefix ++ c ∷ cs)
                  (register_phase4_resources lib engine s).resources
                ≡ some (file_resource lib engine)))
  unfolding register_phase4_resources register_resource find_resource find_exact find_template
      matches_template split_at
  register_phase4_resources-resolves s c cs e =
      let long1 : ltb 14 (length (scene_prefix ++ c ∷ cs)) ≡ true = ground arith in
      let long2 : ltb 15 (length (script_prefix ++ c ∷ cs)) ≡ true = ground arith in
      let long3 : ltb 17 (length (resource_prefix ++ c ∷ cs)) ≡ true = ground arith in
      let s14 : ltb 14 (length (script_prefix ++ c ∷ cs)) ≡ true = ground arith in
      let r14 : ltb 14 (length (resource_prefix ++ c ∷ cs)) ≡ true = ground arith in
      let r15 : ltb 15 (length (resource_prefix ++ c ∷ cs)) ≡ true = ground arith in
      let b = str_eq (codes "{path}") (c ∷ cs) in
      rw e (
        either b _ _ (rw long1),
        (either b _ _ (rw (s14, long2)), either b _ _ (rw (r14, r15, long3))),
      )
