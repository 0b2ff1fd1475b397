-- ===== src/Route/Normalize.antt =====
-- internal/route/matcher.go: `normalizeRule`.
use paperboat_tunnel.Base.{
  ℕ, Bool, not, ◌&&◌, ◌||◌, [], ◌∷◌, Option, ◌==◌, if◌then◌else◌, Result, ok, err, ◌>>=◌, ◌>>◌,
  refuse_if, or_err,
}
use paperboat_tunnel.Base.Strings.{Str, codes, eq_str, has_prefix, contains}
use paperboat_tunnel.Go.Text.{trim_space, to_lower, contains_any, trim_prefix}
use paperboat_tunnel.Go.Net.{split_host_port, is_ip}
use paperboat_tunnel.Route.Rule.{
  RouteRule, Error, invalid, helper_https_wss, preview_https_wss, tunnel_https_wss, match_exact,
  match_managed_exact, match_one_label_wildcard, match_catch_all,
}
use paperboat_tunnel.Route.Request.{
  line_breaks, normalize_request_path, normalize_match_host, valid_opaque_tunnel_hostname,
}
use paperboat_tunnel.Route.Match.{is_exact_match_type}

abbrev star : ℕ
star = b'*'

abbrev or_default : Str → Str → Str
or_default s d = if eq_str s [] then d else s

unfoldable pub effective_match_type : RouteRule → Str
unfolding trim_space to_lower
effective_match_type rule = or_default (to_lower (trim_space rule.match_type)) match_exact

-- The suffix that a wildcard rule names.
unfoldable pub wildcard_source : RouteRule → Str
unfolding has_prefix trim_prefix
wildcard_source rule =
    if eq_str rule.wildcard_suffix [] && has_prefix rule.hostname (codes "*.")
    then trim_prefix rule.hostname (codes "*.")
    else rule.wildcard_suffix

unfoldable pub valid_desired_state : Str → Bool
valid_desired_state s =
    eq_str s (codes "active")
    || eq_str s (codes "ready")
    || eq_str s (codes "degraded")
    || eq_str s (codes "offline")
    || eq_str s (codes "registering")
    || eq_str s (codes "disabled")
    || eq_str s (codes "deleted")
    || eq_str s (codes "expired")
    || eq_str s (codes "removed")

-- The scheme in lower case; no scheme stays none.
unfoldable pub normalize_scheme : Str → Result Error Str
unfolding to_lower
normalize_scheme s =
    let low = to_lower s in
    if eq_str s []
    then ok s
    else if eq_str low (codes "http")
        || eq_str low (codes "https")
        || eq_str low (codes "h2c")
        || eq_str low (codes "unix")
    then ok low
    else err invalid

-- What the end of `normalizeRule` requires of the target.
unfoldable pub check_target : RouteRule → Result Error (Unit {0})
unfolding contains_any has_prefix split_host_port
check_target rule = do
  refuse_if (eq_str rule.target [] || contains_any rule.target line_breaks) invalid
  if eq_str rule.kind tunnel_https_wss
      then refuse_if (contains_any rule.target (codes " \t?#")) invalid
      else if eq_str rule.origin_scheme (codes "unix")
      then refuse_if
          (not (has_prefix rule.target (codes "/")) || contains_any rule.target (codes "?#"))
          invalid
      else if eq_str rule.origin_scheme []
      then ok tt
      else or_err (split_host_port rule.target) invalid >>= λ _. ok tt

module _ (to_ascii : Str → Option Str) where
  -- The cases of the switch on the match type: the host name and the wildcard suffix.
  unfoldable pub exact_target : RouteRule → Str → Result Error (Str × Str)
  unfolding contains normalize_match_host is_ip valid_opaque_tunnel_hostname
  exact_target rule match_type = do
    refuse_if (eq_str rule.hostname [] && not (eq_str rule.wildcard_suffix [])) invalid
    refuse_if (contains rule.hostname star || contains rule.wildcard_suffix star) invalid
    host ← normalize_match_host to_ascii rule.hostname
    refuse_if (eq_str host [] || is_ip host) invalid
    refuse_if
        (eq_str match_type match_managed_exact
          && eq_str rule.kind tunnel_https_wss
          && not (valid_opaque_tunnel_hostname host))
        invalid
    ok (host, [])

  unfoldable pub wildcard_target : RouteRule → Result Error (Str × Str)
  unfolding contains normalize_match_host is_ip wildcard_source
  wildcard_target rule = do
    refuse_if (eq_str (wildcard_source rule) [] || contains (wildcard_source rule) star) invalid
    suffix ← normalize_match_host to_ascii (wildcard_source rule)
    refuse_if (eq_str suffix [] || is_ip suffix || not (contains suffix b'.')) invalid
    ok ([], suffix)

  unfoldable pub host_target : RouteRule → Str → Result Error (Str × Str)
  unfolding exact_target wildcard_target is_exact_match_type
  host_target rule match_type =
      if is_exact_match_type match_type
      then exact_target rule match_type
      else if eq_str match_type match_one_label_wildcard
      then wildcard_target rule
      else if eq_str match_type match_catch_all
      then (do
        refuse_if (not (eq_str rule.hostname []) || not (eq_str rule.wildcard_suffix [])) invalid
        ok ([], []))
      else err invalid

  unfoldable pub normalize_rule : ℕ → RouteRule → Result Error RouteRule
  unfolding contains_any effective_match_type host_target normalize_request_path valid_desired_state
      normalize_scheme check_target
  normalize_rule generation rule = do
    refuse_if (eq_str rule.id [] || contains_any rule.id line_breaks) invalid
    let rule_generation = if rule.generation == 0 then generation else rule.generation
    refuse_if (not (rule_generation == generation)) invalid
    refuse_if
        (not (eq_str rule.kind helper_https_wss)
          && not (eq_str rule.kind preview_https_wss)
          && not (eq_str rule.kind tunnel_https_wss))
        invalid
    target ← host_target rule (effective_match_type rule)
    prefix ← normalize_request_path rule.path_prefix
    let desired = or_default rule.desired_state (codes "active")
    refuse_if (not (valid_desired_state desired)) invalid
    refuse_if
        (not (eq_str rule.host_override [])
          && contains_any rule.host_override (13 ∷ 10 ∷ 0 ∷ codes "/?# \t"))
        invalid
    scheme ← normalize_scheme rule.origin_scheme
    let normal = record rule {
      generation = rule_generation;
      match_type = effective_match_type rule;
      hostname = target.0;
      wildcard_suffix = target.1;
      path_prefix = prefix;
      desired_state = desired;
      origin_scheme = scheme;
    }
    check_target normal
    ok normal
