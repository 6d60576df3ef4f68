-- ===== src/Authority/Permits.antt =====
-- authority/capability-authority.ts: what a context must say for a request to be allowed.
use evolve_loop.Base.{
  Option, none, some, String, ◌≡◌, ◌↔◌, Bool, true, false, not, ◌&&◌, ◌||◌, arith, if◌then◌else◌,
}
use evolve_loop.Types.{allow, deny, confirm, authority_eq}
use evolve_loop.Authority.{
  build, AuthorityResult, AuthorityRequest, is_set, judge_kind, path_escapes_workspace, is_shell,
  is_write, is_network, is_read_only, authorize,
}

-- The context speaks for the most powerful kind of operation that the request asks for: shell before
-- write before network before other side effects. A demand for confirmation counts only where neither
-- a shell nor a write is asked for.
abbrev pub permits : AuthorityRequest → Bool
permits req =
    let ctx = req.context in
    is_set ctx.confirmed
    || (if is_shell req
        then is_set ctx.allow_shell
        else if is_write req
        then is_set ctx.allow_write
        else not (is_set req.requires_confirmation)
          && (if is_network req
              then is_set ctx.allow_network
              else not (is_set req.side_effects) || is_set ctx.allow_write))

judge_kind-allow :
    (flag : Option Bool) (confirmed : Bool) (denied allowed asks : String)
    → ((judge_kind flag confirmed denied allowed asks).decision ≡ allow)
      ↔ ((confirmed || is_set flag) ≡ true)
unfolding authority_eq
judge_kind-allow none true denied allowed asks = ground arith
judge_kind-allow none false denied allowed asks = ground arith
judge_kind-allow (some true) true denied allowed asks = ground arith
judge_kind-allow (some true) false denied allowed asks = ground arith
judge_kind-allow (some false) true denied allowed asks = ground arith
judge_kind-allow (some false) false denied allowed asks = ground arith

-- The branches of `authorize`, over the tests that they make.
abbrev branches :
    (escapes asks confirmed shell writes network read_only side_effects may_write : Bool)
    (s w k : AuthorityResult)
    → AuthorityResult
branches escapes asks confirmed shell writes network read_only side_effects may_write s w k =
    if escapes
    then build deny "path_escape_denied"
    else if asks && not confirmed && not shell && not writes
    then build confirm "requires_confirmation"
    else if shell
    then s
    else if writes
    then w
    else if network
    then k
    else if read_only
    then build allow "deterministic_read_only"
    else if side_effects && not confirmed && not may_write
    then build confirm "side_effects_require_confirmation"
    else build allow "default_allow"

abbrev granted :
    (asks confirmed shell writes network side_effects allow_shell may_write allow_network : Bool)
    → Bool
granted asks confirmed shell writes network side_effects allow_shell may_write allow_network =
    confirmed
    || (if shell
        then allow_shell
        else if writes
        then may_write
        else not asks && (if network then allow_network else not side_effects || may_write))

-- Nothing but a confirmation overrules a demand for one.
module _ (asks confirmed read_only side_effects allow_shell may_write allow_network : Bool)
    (s w k : AuthorityResult) (s-allow : (s.decision ≡ allow) ↔ ((confirmed || allow_shell) ≡ true))
    (w-allow : (w.decision ≡ allow) ↔ ((confirmed || may_write) ≡ true))
    (k-allow : (k.decision ≡ allow) ↔ ((confirmed || allow_network) ≡ true)) where
  branches-allow :
      (escapes shell writes network : Bool)
      → (read_only ≡ true → side_effects ≡ false)
      → ((branches escapes asks confirmed shell writes network read_only side_effects may_write s w
            k).decision
          ≡ allow)
        ↔ ((escapes ≡ false)
            × (granted asks confirmed shell writes network side_effects allow_shell may_write
                  allow_network
                ≡ true))
  unfolding authority_eq
  branches-allow true shell writes network ro = ground arith
  branches-allow false true writes network ro = ground arith
  branches-allow false false true network ro = ground arith
  branches-allow false false false true ro = ground arith
  branches-allow false false false false ro = ground arith

read_only-harmless :
    (req : AuthorityRequest) → is_read_only req ≡ true → is_set req.side_effects ≡ false
unfolding is_read_only
read_only-harmless req h = ground arith

-- A request is allowed exactly when its path, if any, stays inside the workspace and the context
-- permits it: it is confirmed, or the flag is set for the most powerful kind of operation that the
-- request asks for and no confirmation is demanded of a request without shell and write.
pub authorize-allow :
    (resolve : String → String) (resolve_in : String → String → String) (req : AuthorityRequest)
    → ((authorize resolve resolve_in req).decision ≡ allow) ↔ (
        (path_escapes_workspace resolve resolve_in req.target_path req.context.workspace_root
          ≡ false)
        × (permits req ≡ true))
unfolding authorize
authorize-allow resolve resolve_in req =
    let ctx = req.context in
    let confirmed = is_set ctx.confirmed in
    branches-allow (is_set req.requires_confirmation) confirmed (is_read_only req)
      (is_set req.side_effects) (is_set ctx.allow_shell) (is_set ctx.allow_write)
      (is_set ctx.allow_network) _ _ _ (judge_kind-allow ctx.allow_shell confirmed _ _ _)
      (judge_kind-allow ctx.allow_write confirmed _ _ _)
      (judge_kind-allow ctx.allow_network confirmed _ _ _)
      (path_escapes_workspace resolve resolve_in req.target_path ctx.workspace_root) (is_shell req)
      (is_write req) (is_network req) (read_only-harmless req)
