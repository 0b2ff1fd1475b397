-- ===== src/Route/Overlap.antt =====
-- internal/route/matcher.go: `normalizeRules`, which refuses two rules that could tie.
pub mod Unambiguous
pub mod Decided
use paperboat_tunnel.Base.{
  ℕ, Bool, true, false, not, ◌&&◌, ◌||◌, List, [], ◌∷◌, ◌++◌, Option, Ordering, ltb, if◌then◌else◌,
  length, Result, ok, ◌>>=◌, ◌>>◌, refuse_if,
}
use paperboat_tunnel.Base.Strings.{Str, codes, eq_str, has_suffix, trim_suffix, contains}
use paperboat_tunnel.Go.Text.{str_lt}
use paperboat_tunnel.Route.Rule.{
  RouteRule, Error, invalid, match_conflict, match_one_label_wildcard, match_catch_all,
}
use paperboat_tunnel.Route.Match.{
  RouteCandidate, is_exact_match_type, host_match, path_matches, compare_candidates,
}
use paperboat_tunnel.Route.Normalize.{normalize_rule}

unfoldable pub exact_falls_under_wildcard : Str → Str → Bool
unfolding has_suffix trim_suffix contains
exact_falls_under_wildcard host suffix =
    if eq_str host suffix || not (has_suffix host (b'.' ∷ suffix))
    then false
    else not (contains (trim_suffix host (b'.' ∷ suffix)) b'.')

abbrev is_wildcard : RouteRule → Bool
is_wildcard rule = eq_str rule.match_type match_one_label_wildcard

abbrev is_exact : RouteRule → Bool
is_exact rule = is_exact_match_type rule.match_type

unfoldable pub hosts_overlap : RouteRule → RouteRule → Bool
hosts_overlap left right =
    if eq_str left.match_type match_catch_all || eq_str right.match_type match_catch_all
    then true
    else if is_exact left && is_exact right
    then eq_str left.hostname right.hostname
    else if is_wildcard left && is_wildcard right
    then eq_str left.wildcard_suffix right.wildcard_suffix
    else if is_exact left && is_wildcard right
    then exact_falls_under_wildcard left.hostname right.wildcard_suffix
    else if is_exact right && is_wildcard left
    then exact_falls_under_wildcard right.hostname left.wildcard_suffix
    else false

unfoldable pub rules_overlap : RouteRule → RouteRule → Bool
rules_overlap left right =
    hosts_overlap left right
    && (path_matches left.path_prefix right.path_prefix
        || path_matches right.path_prefix left.path_prefix)

-- A host that the rule matches.
unfoldable pub overlap_host : RouteRule → Str
overlap_host rule =
    if is_exact rule
    then rule.hostname
    else if is_wildcard rule
    then codes "edge." ++ rule.wildcard_suffix
    else codes "edge.example.test"

-- The candidate that the loop compares.
unfoldable pub overlap_candidate : RouteRule → RouteCandidate
overlap_candidate rule =
    let (class, labels, matched) = host_match rule (overlap_host rule) in
    record { rule = rule; host_class = class; suffix_labels = labels }

is_eq : Ordering → Bool
is_eq Ordering.eq = true
is_eq Ordering.lt = false
is_eq Ordering.gt = false

-- The body of the double loop.
unfoldable pub ambiguous : RouteRule → RouteRule → Bool
unfolding is_eq
ambiguous left right =
    rules_overlap left right
    && is_eq (compare_candidates (overlap_candidate left) (overlap_candidate right))

unfoldable pub any_ambiguous : RouteRule → List RouteRule → Bool
any_ambiguous left [] = false
any_ambiguous left (right ∷ rules) = ambiguous left right || any_ambiguous left rules

-- The double loop, each rule against the later ones.
unfoldable pub has_conflict : List RouteRule → Bool
has_conflict [] = false
has_conflict (left ∷ rules) = any_ambiguous left rules || has_conflict rules

-- sort.Slice by ID
unfoldable pub insert_rule : RouteRule → List RouteRule → List RouteRule
unfolding str_lt
insert_rule r [] = r ∷ []
insert_rule r (x ∷ xs) =
    let rest = insert_rule r xs in if str_lt r.id x.id then r ∷ x ∷ xs else x ∷ rest

unfoldable pub sort_rules : List RouteRule → List RouteRule
unfolding insert_rule
sort_rules [] = []
sort_rules (x ∷ xs) = insert_rule x (sort_rules xs)

unfoldable pub has_id : Str → List Str → Bool
has_id id [] = false
has_id id (x ∷ seen) = eq_str x id || has_id id seen

module _ (to_ascii : Str → Option Str) where
  -- The first loop: each rule in its normal form, with distinct IDs.
  unfoldable pub normalize_each : ℕ → List Str → List RouteRule → Result Error (List RouteRule)
  unfolding normalize_rule has_id
  normalize_each generation seen [] = ok []
  normalize_each generation seen (rule ∷ rules) = do
    normal ← normalize_rule to_ascii generation rule
    refuse_if (has_id normal.id seen) match_conflict
    rest ← normalize_each generation (normal.id ∷ seen) rules
    ok (normal ∷ rest)

  unfoldable pub normalize_rules : ℕ → List RouteRule → ℕ → Result Error (List RouteRule)
  normalize_rules generation rules maximum = do
    refuse_if (ltb maximum (length rules)) invalid
    each ← normalize_each generation [] rules
    refuse_if (has_conflict (sort_rules each)) match_conflict
    ok (sort_rules each)
