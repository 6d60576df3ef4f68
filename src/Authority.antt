-- ===== src/Authority.antt =====
-- authority/capability-authority.ts: may a capability be used. `resolve` of node:path, of one path and
-- of a path within another, is an argument. The time of the check is left out.
pub mod Permits
use Prim.Native.String.{len, slice}
use text.Mathlib.Text.{starts_with}
use evolve_loop.Base.{
  ◌-◌, String, ◌<>◌, Bool, true, false, not, ◌&&◌, ◌||◌, Option, none, some, get_or, ◌==◌, Eq,
  if◌then◌else◌, string_eq,
}
use evolve_loop.Types.{Authority, allow, deny, confirm}

pub data Filesystem : Type 0 where
  nothing read write : Filesystem

instance unfoldable pub filesystem_eq : Eq Filesystem
filesystem_eq = record { dec = hlevel }

pub record Permissions : Type 0 where
  pub filesystem : Option Filesystem
  pub network : Option Bool
  pub shell : Option Bool

pub record AuthorityContext : Type 0 where
  pub confirmed : Option Bool
  pub allow_shell : Option Bool
  pub allow_write : Option Bool
  pub allow_network : Option Bool
  pub workspace_root : Option String

-- An absent `permissions` or `context` is one with no field.
pub record AuthorityRequest : Type 0 where
  pub capability : String
  pub permissions : Permissions
  pub side_effects : Option Bool
  pub requires_confirmation : Option Bool
  pub target_path : Option String
  pub context : AuthorityContext

-- The decision and its reason, of which the evidence is a copy.
pub record AuthorityResult : Type 0 where
  pub decision : Authority
  pub reason : String

abbrev pub build : Authority → String → AuthorityResult
build d reason = record { decision = d; reason = reason }

-- `!!o`, and `o === false`.
abbrev pub is_set : Option Bool → Bool
is_set o = get_or o false

abbrev pub is_off : Option Bool → Bool
is_off o = not (get_or o true)

-- `s.endsWith(t)`
abbrev pub ends_with : String → String → Bool
ends_with s t = slice s (len s - len t) (len s) == t

abbrev pub outside : (String → String) → (String → String → String) → String → String → Bool
outside resolve resolve_in target workspace =
    let root = resolve workspace in
    let resolved = resolve_in root target in
    not (resolved == root || starts_with resolved (root <> "/"))

-- An absent or empty path escapes nothing.
unfoldable pub path_escapes_workspace :
    (String → String) → (String → String → String) → Option String → Option String → Bool
path_escapes_workspace resolve resolve_in (some target) (some workspace) =
    if target == "" || workspace == "" then false else outside resolve resolve_in target workspace
path_escapes_workspace resolve resolve_in none _ = false
path_escapes_workspace resolve resolve_in (some target) none = false

unfoldable pub is_shell : AuthorityRequest → Bool
is_shell req = req.capability == "shell.execute" || is_set req.permissions.shell

abbrev pub may_write : Option Filesystem → Bool
may_write none = false
may_write (some fs) = fs == write

unfoldable pub is_write : AuthorityRequest → Bool
is_write req =
    req.capability == "filesystem.write"
    || may_write req.permissions.filesystem
    || ends_with req.capability ".write"

unfoldable pub is_network : AuthorityRequest → Bool
is_network req =
    if starts_with req.capability "knowledge."
    then false
    else is_set req.permissions.network || starts_with req.capability "browser."

unfoldable pub is_read_only : AuthorityRequest → Bool
is_read_only req =
    if is_shell req || is_write req || is_network req
    then false
    else if is_set req.side_effects
    then false
    else not (may_write req.permissions.filesystem)

-- The branch of one kind of operation: `flag` is the context's word on the kind.
abbrev pub judge_kind : Option Bool → Bool → (denied allowed asks : String) → AuthorityResult
judge_kind flag confirmed denied allowed asks =
    if is_off flag && not confirmed
    then build deny denied
    else if is_set flag || confirmed
    then build allow allowed
    else build confirm asks

unfoldable pub authorize :
    (String → String) → (String → String → String) → AuthorityRequest → AuthorityResult
unfolding path_escapes_workspace is_shell is_write is_network is_read_only
authorize resolve resolve_in req =
    let ctx = req.context in
    let confirmed = is_set ctx.confirmed in
    if path_escapes_workspace resolve resolve_in req.target_path ctx.workspace_root
    then build deny "path_escape_denied"
    else if is_set req.requires_confirmation
        && not confirmed
        && not (is_shell req)
        && not (is_write req)
    then build confirm "requires_confirmation"
    else if is_shell req
    then judge_kind ctx.allow_shell confirmed "shell_denied_by_context" "shell_allowed_by_context"
        "shell_requires_confirmation"
    else if is_write req
    then judge_kind ctx.allow_write confirmed "write_denied_by_context" "write_allowed_by_context"
        "write_requires_confirmation"
    else if is_network req
    then judge_kind ctx.allow_network confirmed "network_denied_by_context"
        "network_allowed_by_context" "network_requires_confirmation"
    else if is_read_only req
    then build allow "deterministic_read_only"
    else if is_set req.side_effects && not confirmed && not (is_set ctx.allow_write)
    then build confirm "side_effects_require_confirmation"
    else build allow "default_allow"
