-- ===== src/Route/Overlap/Decided.antt =====
-- internal/route/matcher.go: a normalized rule set routes every request in one way.

use paperboat_tunnel.Base.{
  ℕ, ◌≡◌, refl, ◌⊎◌, inl, inr, false, List, [], Option, arith, Result, ok, err,
}
use paperboat_tunnel.Base.Strings.{Str}
use paperboat_tunnel.Route.Rule.{RouteRule, Error, no_match}
use paperboat_tunnel.Route.Match.{RouteCandidate, choose_rule}
use paperboat_tunnel.Route.Match.Choice.{IsBest, HasTie, Reflects, candidates, choose_rule-Reflects}
use paperboat_tunnel.Route.Overlap.{normalize_rules, has_conflict}
use paperboat_tunnel.Route.Overlap.Unambiguous.{has_conflict-tied}

-- What a request gets: `ErrNoMatch` where no rule matches, or the rule of the best candidate.
abbrev pub Decided : List RouteRule → Str → Str → Type 0
Decided rules host path =
    ((candidates host path rules ≡ []) × (choose_rule rules host path ≡ err no_match))
    ⊎ ((c : RouteCandidate) × (choose_rule rules host path ≡ ok c.rule)
        × IsBest (candidates host path rules) c)

Decided-of_Reflects :
    (rules : List RouteRule) (host path : Str) (r : Result Error RouteRule)
    → ¬ HasTie (candidates host path rules)
    → choose_rule rules host path ≡ r
    → Reflects (candidates host path rules) r
    → Decided rules host path
Decided-of_Reflects rules host path (ok r) n e (c, p, best) = inr (c, cc, best)
Decided-of_Reflects rules host path (err x) n e (inl (p, q)) = inl (p, cc)
Decided-of_Reflects rules host path (err x) n e (inr (t, q)) = absurd (n t)

normalize_rules-conflict :
    (to_ascii : Str → Option Str) (generation : ℕ) (rules : List RouteRule) (maximum : ℕ)
    (normal : List RouteRule)
    → normalize_rules to_ascii generation rules maximum ≡ ok normal
    → has_conflict normal ≡ false
unfolding normalize_rules
normalize_rules-conflict to_ascii generation rules maximum normal h = ground arith

-- A rule set that `normalizeRules` accepts decides every request: `chooseRule` never returns
-- `ErrMatchConflict`, it returns `ErrNoMatch` only where no rule in force matches the host and the
-- path, and else it returns the rule of a candidate that is better than every other one.
pub normalize_rules-Decided :
    (to_ascii : Str → Option Str) (generation : ℕ) (rules : List RouteRule) (maximum : ℕ)
    (normal : List RouteRule)
    → normalize_rules to_ascii generation rules maximum ≡ ok normal
    → (host path : Str) → Decided normal host path
normalize_rules-Decided to_ascii generation rules maximum normal h host path =
    Decided-of_Reflects normal host path (choose_rule normal host path)
      (has_conflict-tied host path normal
        (normalize_rules-conflict to_ascii generation rules maximum normal h))
      refl (choose_rule-Reflects normal host path)
