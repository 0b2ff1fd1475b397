-- ===== src/Route/Match.antt =====
-- internal/route/matcher.go: which rule serves a host and a request path.
pub mod Order
pub mod Choice
use paperboat_tunnel.Base.{
  ℕ, ◌+◌, Bool, true, false, not, ◌||◌, Option, none, some, List, [], ◌∷◌, ◌++◌, Ordering, ltb,
  ◌==◌, if◌then◌else◌, length, ltbℤ, Result, ok, err, ◌>>=◌,
}
use paperboat_tunnel.Base.Strings.{
  Str, codes, eq_str, has_prefix, has_suffix, trim_suffix, contains, count,
}
use paperboat_tunnel.Route.Rule.{
  RouteRule, Error, no_match, match_conflict, match_exact, match_managed_exact,
  match_one_label_wildcard, match_catch_all,
}

pub record RouteCandidate : Type 0 where
  pub rule : RouteRule
  pub host_class : ℕ
  pub suffix_labels : ℕ

unfoldable pub is_exact_match_type : Str → Bool
is_exact_match_type t = eq_str t match_exact || eq_str t match_managed_exact

abbrev dot : ℕ
dot = b'.'

-- The wildcard case of `hostMatch`.
unfoldable pub wildcard_match : Str → Str → ℕ × ℕ × Bool
unfolding has_suffix trim_suffix contains count
wildcard_match suffix host =
    if eq_str host suffix || not (has_suffix host (dot ∷ suffix))
    then (0, 0, false)
    else (let prefix = trim_suffix host (dot ∷ suffix) in
        if eq_str prefix [] || contains prefix dot
        then (0, 0, false)
        else (2, count suffix dot + 1, true))

unfoldable pub host_match : RouteRule → Str → ℕ × ℕ × Bool
host_match rule host =
    if is_exact_match_type rule.match_type
    then (3, 0, eq_str host rule.hostname)
    else if eq_str rule.match_type match_one_label_wildcard
    then wildcard_match rule.wildcard_suffix host
    else if eq_str rule.match_type match_catch_all
    then (1, 0, true)
    else (0, 0, false)

unfoldable pub path_matches : Str → Str → Bool
unfolding has_prefix
path_matches prefix path =
    eq_str prefix (codes "/") || eq_str path prefix || has_prefix path (prefix ++ codes "/")

-- `lt` is -1, `eq` is 0 and `gt` is 1.
unfoldable pub compare_int : ℕ → ℕ → Ordering
compare_int left right =
    if ltb left right then Ordering.lt else if ltb right left then Ordering.gt else Ordering.eq

-- Lower priority numbers are preferred.
unfoldable pub compare_priority : RouteRule → RouteRule → Ordering
compare_priority left right =
    if ltbℤ left.priority right.priority
    then Ordering.gt
    else if ltbℤ right.priority left.priority
    then Ordering.lt
    else Ordering.eq

unfoldable pub compare_candidates : RouteCandidate → RouteCandidate → Ordering
unfolding compare_int compare_priority
compare_candidates left right =
    if not (left.host_class == right.host_class)
    then compare_int left.host_class right.host_class
    else if not (left.suffix_labels == right.suffix_labels)
    then compare_int left.suffix_labels right.suffix_labels
    else if not (length left.rule.path_prefix == length right.rule.path_prefix)
    then compare_int (length left.rule.path_prefix) (length right.rule.path_prefix)
    else compare_priority left.rule right.rule

unfoldable pub compare_host_candidates : RouteCandidate → RouteCandidate → Ordering
unfolding compare_int compare_priority
compare_host_candidates left right =
    if not (left.host_class == right.host_class)
    then compare_int left.host_class right.host_class
    else if not (left.suffix_labels == right.suffix_labels)
    then compare_int left.suffix_labels right.suffix_labels
    else compare_priority left.rule right.rule

-- The rules that both loops skip.
unfoldable pub is_withdrawn : RouteRule → Bool
is_withdrawn rule =
    eq_str rule.desired_state (codes "disabled")
    || eq_str rule.desired_state (codes "deleted")
    || eq_str rule.desired_state (codes "expired")
    || eq_str rule.desired_state (codes "removed")

-- The candidate that a round of `chooseRule` builds, if it does not `continue` before.
unfoldable pub candidate : Str → Str → RouteRule → Option RouteCandidate
unfolding is_withdrawn host_match path_matches
candidate host path rule =
    if is_withdrawn rule
    then none
    else (let (class, labels, matched) = host_match rule host in
        if not matched || not (path_matches rule.path_prefix path)
        then none
        else some (record { rule = rule; host_class = class; suffix_labels = labels }))

-- The rest of that round: the best candidate so far against the new one.
unfoldable pub contest : RouteCandidate → Option RouteCandidate → Result Error RouteCandidate
contest c none = ok c
contest c (some best) = elim (compare_candidates c best) [
  | Ordering.gt ↦ ok c
  | Ordering.eq ↦ err match_conflict
  | Ordering.lt ↦ ok best
]

unfoldable pub choose_round :
    Option RouteCandidate → Option RouteCandidate → Result Error (Option RouteCandidate)
choose_round none best = ok best
choose_round (some c) best = do winner ← contest c best; ok (some winner)

unfoldable pub choose_from :
    Str → Str → List RouteRule → Option RouteCandidate → Result Error RouteRule
choose_from host path [] none = err no_match
choose_from host path [] (some best) = ok best.rule
choose_from host path (rule ∷ rules) best = do
  next ← choose_round (candidate host path rule) best
  choose_from host path rules next

unfoldable pub choose_rule : List RouteRule → Str → Str → Result Error RouteRule
unfolding choose_from
choose_rule rules host path = choose_from host path rules none

-- The candidate of a round of `chooseHostRule`, which does not look at the path.
unfoldable pub host_candidate : Str → RouteRule → Option RouteCandidate
unfolding is_withdrawn host_match
host_candidate host rule =
    if is_withdrawn rule
    then none
    else (let (class, labels, matched) = host_match rule host in
        if not matched
        then none
        else some (record { rule = rule; host_class = class; suffix_labels = labels }))

unfoldable pub host_contest : RouteCandidate → Option RouteCandidate → RouteCandidate
host_contest c none = c
host_contest c (some best) = elim (compare_host_candidates c best) [
  | Ordering.gt ↦ c
  | Ordering.eq ↦ best
  | Ordering.lt ↦ best
]

unfoldable pub host_round : Option RouteCandidate → Option RouteCandidate → Option RouteCandidate
unfolding host_contest
host_round none best = best
host_round (some c) best = some (host_contest c best)

unfoldable pub choose_host_from : Str → List RouteRule → Option RouteCandidate → Option RouteRule
unfolding host_candidate host_round
choose_host_from host [] none = none
choose_host_from host [] (some best) = some best.rule
choose_host_from host (rule ∷ rules) best =
    choose_host_from host rules (host_round (host_candidate host rule) best)

unfoldable pub choose_host_rule : List RouteRule → Str → Option RouteRule
unfolding choose_host_from
choose_host_rule rules host = choose_host_from host rules none
