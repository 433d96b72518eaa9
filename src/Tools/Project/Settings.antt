-- ===== src/Tools/Project/Settings.antt =====
-- set_project_setting and then get_project_setting.
use gear_mcp_server.Base.{ℕ, ◌≡◌, refl, true, false, [], ◌∷◌, Bool, Bytes, codes, is_empty}
use gear_mcp_server.Exec.{ok}
use gear_mcp_server.Json.{JsonLib}
use gear_mcp_server.Methods.Rpc.{value}
use gear_mcp_server.Config.{Disk}
use gear_mcp_server.Config.Value.{Numbers}
use gear_mcp_server.Config.Settings.{CanChange, get_project_setting-set_project_setting}
use gear_mcp_server.Tools.{Values, answered}
use gear_mcp_server.Tools.Autoload.{in_project}
use gear_mcp_server.Tools.Project.Handlers.{
  get_keyed, handle_get_project_setting, set_keyed, handle_set_project_setting,
}

module _ (lib : JsonLib) (values : Values lib) {W : Type 0} (disk : Disk W)
    (get_project_path : W → Bytes) (numbers : Numbers lib.Json) (ini_error : Bytes → W → Bool) where
  open lib use {Json, string, boolean, object, parse, dump}

  -- A setting is changed, in a section that the file of the project does not have, and then read,
  -- by two calls that name the same project, section and key; the changes are ones that
  -- `CanChange` describes. The first call answers that it succeeded, with what it was given; the
  -- second answers with the JSON text of the value that was given, and changes nothing.
  pub handle_get_project_setting-handle_set_project_setting :
      (t u : Bytes) (p q : Json) (project_path sn : Bytes) (c : ℕ) (cs v text written : Bytes)
      (w w' : W)
      → parse t ≡ ok p
      → value lib p (codes "project_path") [] ≡ ok project_path
      → value lib p (codes "section") [] ≡ ok sn
      → value lib p (codes "key") [] ≡ ok (c ∷ cs)
      → value lib p (codes "value") [] ≡ ok v
      → parse u ≡ ok q
      → value lib q (codes "project_path") [] ≡ ok project_path
      → value lib q (codes "section") [] ≡ ok sn
      → value lib q (codes "key") [] ≡ ok (c ∷ cs)
      → is_empty project_path ≡ false
      → CanChange lib numbers disk ini_error project_path sn (c ∷ cs) v text w w'
      → dump (string v) ≡ ok written
      → (handle_set_project_setting lib values disk get_project_path numbers ini_error t w ≡ (
        answered (
            dump (
              object (
                (codes "success", boolean true)
                ∷ (codes "section", string sn)
                ∷ (codes "key", string (c ∷ cs))
                ∷ (codes "value", string v)
                ∷ []))),
        w',
      ))
        × (handle_get_project_setting lib values disk get_project_path numbers ini_error u w' ≡ (
          answered (
              dump (
                object (
                  (codes "success", boolean true)
                  ∷ (codes "section", string sn)
                  ∷ (codes "key", string (c ∷ cs))
                  ∷ (codes "value", string written)
                  ∷ []))),
          w',
        ))
  unfolding handle_set_project_setting handle_get_project_setting in_project set_keyed get_keyed
  handle_get_project_setting-handle_set_project_setting t u p q project_path sn c cs v text written
        w w' hp pp ps pk pv hq qp qs qk some_path can dumped =
      let (sets, gets) =
        get_project_setting-set_project_setting lib numbers disk ini_error project_path sn c cs v
          text w w' can in
      (
        rw (hp, pp) (rw some_path (rw some_path (rw (ps, pk) (rw pv (rw sets refl))))),
        rw (hq, qp) (rw some_path (rw some_path (rw (qs, qk) (rw gets (rw dumped refl))))),
      )
