-- ===== src/Tools/Dx/Throws.antt =====
-- parse_error_log: the pattern of the log's lines is no regular expression.
use gear_mcp_server.Base.{
  ℕ, ◌+◌, ◌-◌, ◌≡◌, refl, Bool, true, false, some, [], ◌∷◌, ◌==◌, ◌&&◌, if◌then◌else◌, Bytes, codes,
  is_empty,
}
use gear_mcp_server.Exec.{ok, threw, Exception, Exec}
use gear_mcp_server.Json.{JsonLib, ℤ, pos}
use gear_mcp_server.Methods.Rpc.{value}
use gear_mcp_server.Tools.{Values, value_of, Answer}
use gear_mcp_server.Tools.Dx.{FileSystem, Regexes}
use gear_mcp_server.Tools.Dx.Log.{
  log_pattern, parse_log_lines, default_log, log_at, log_opened, handle_parse_error_log,
}

-- Where a reader of a pattern is: behind a backslash, or in a bracket expression, and in how many
-- groups.
pub record Place : Type 0 where
  pub escaped : Bool
  pub in_class : Bool
  pub groups : ℕ

pub place_after : ℕ → Place → Place
place_after c p =
    if p.escaped
    then record p { escaped = false }
    else if c == b'\\'
    then record p { escaped = true }
    else if p.in_class
    then (if c == b']' then record p { in_class = false } else p)
    else if c == b'['
    then record p { in_class = true }
    else if c == b'('
    then record p { groups = p.groups + 1 }
    else if c == b')'
    then record p { groups = p.groups - 1 }
    else p

-- A parenthesis closes a group that is not open.
pub closes_none : ℕ → Place → Bool
closes_none c p =
    (if p.escaped then false else if p.in_class then false else c == b')') && p.groups == 0

pub is_paired_from : Place → Bytes → Bool
is_paired_from p [] = p.groups == 0
is_paired_from p (c ∷ s) =
    let rest = is_paired_from (place_after c p) s in if closes_none c p then false else rest

-- The parentheses of a pattern are in pairs.
unfoldable pub is_paired : Bytes → Bool
unfolding is_paired_from place_after closes_none
is_paired = is_paired_from (record { escaped = false; in_class = false; groups = 0 })

log_pattern-unpaired : is_paired log_pattern ≡ false
unfolding is_paired
log_pattern-unpaired = refl

parse_log_lines-throws :
    (regexes : Regexes) (content : Bytes) (e : Exception)
    → regexes.compile log_pattern ≡ threw e
    → parse_log_lines regexes content ≡ threw e
unfolding parse_log_lines
parse_log_lines-throws regexes content e h = rw (h, parse_log_lines) refl

module _ (lib : JsonLib) (values : Values lib) (regexes : Regexes) {W : Type 0}
    (file_system : FileSystem W) (get_project_path : W → Bytes) (undefined : Exec W Answer) where
  open lib use {Json, parse}

  log_opened-throws :
      (max_lines : ℤ) (min_level path content : Bytes) (w : W) (e : Exception)
      → parse_log_lines regexes content ≡ threw e
      → log_opened lib values regexes file_system get_project_path undefined max_lines min_level
          path
          (some content)
          w
        ≡ (threw e, w)
  log_opened-throws max_lines min_level path content w e h = rw h refl

  -- Where the constructor of a regex throws on each pattern whose parentheses are not in pairs:
  -- the call throws for every log that exists and opens, whatever is in it, and answers nothing.
  -- The log is the one that the parameters name, or the editor's own log.
  pub handle_parse_error_log-throws :
      (t : Bytes) (params : Json) (max_lines : ℤ) (min_level given path content : Bytes) (w : W)
      → ((p : Bytes) → is_paired p ≡ false → (e : Exception) × (regexes.compile p ≡ threw e))
      → parse t ≡ ok params
      → value_of lib values.as_int params (codes "max_lines") (pos 100) ≡ ok max_lines
      → value lib params (codes "min_level") (codes "warning") ≡ ok min_level
      → value lib params (codes "log_path") [] ≡ ok given
      → (if is_empty given
          then default_log lib values regexes file_system get_project_path undefined
              (get_project_path w)
          else given)
        ≡ path
      → is_empty path ≡ false
      → file_system.exists path w ≡ true
      → file_system.text path w ≡ some content
      → (e : Exception) × (handle_parse_error_log lib values regexes file_system get_project_path
            undefined t w
          ≡ (threw e, w))
  unfolding handle_parse_error_log log_at
  handle_parse_error_log-throws t params max_lines min_level given path content w refuses hp hm hl
        hg chosen ne there opens =
      let (e, thrown) = refuses log_pattern log_pattern-unpaired in
      (
        e,
        rw (hp, hm)
            (rw (hl, hg)
              (rw chosen (
                rw (ne, there)
                  (rw opens (
                    log_opened-throws max_lines min_level path content w e
                      (parse_log_lines-throws regexes content e thrown)))))),
      )
