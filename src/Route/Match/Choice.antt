-- ===== src/Route/Match/Choice.antt =====
-- internal/route/matcher.go: what `chooseRule` returns, on every list of rules.
use mathlib.Core.List.{Memᴰ}
use paperboat_tunnel.Base.{
  ◌≡◌, refl, ◌⊎◌, inl, inr, Ordering-cases, Option-cases, List, [], ◌∷◌, Option, none, some, All,
  Result, ok, err, ◌>>=◌,
}
use paperboat_tunnel.Base.Strings.{Str}
use paperboat_tunnel.Route.Rule.{RouteRule, Error, no_match, match_conflict}
use paperboat_tunnel.Route.Match.{
  RouteCandidate, compare_candidates, candidate, contest, choose_round, choose_from, choose_rule,
}
use paperboat_tunnel.Route.Match.Order.{
  Better, Tied, compare_gt, compare_lt, compare_eq, Better-trans, Tied-sym,
}

abbrev pub collect : Option RouteCandidate → List RouteCandidate → List RouteCandidate
collect none cs = cs
collect (some c) cs = c ∷ cs

-- The rules that are in force and match, in order.
unfoldable pub candidates : Str → Str → List RouteRule → List RouteCandidate
candidates host path [] = []
candidates host path (rule ∷ rules) =
    collect (candidate host path rule) (candidates host path rules)

-- `c` is one of the list, and each other one is worse.
pub record IsBest (cs : List RouteCandidate) (c : RouteCandidate) : Type 0 where
  pub member : Memᴰ c cs
  pub best : All (λ d. (d ≡ c) ⊎ Better c d) cs

-- Two entries of the list are tied.
abbrev pub HasTie : List RouteCandidate → Type 0
HasTie [] = ⊥
HasTie (c ∷ cs) = ((d : RouteCandidate) × Memᴰ d cs × Tied c d) ⊎ HasTie cs

abbrev pub Reflects : List RouteCandidate → Result Error RouteRule → Type 0
Reflects cs (ok r) = (c : RouteCandidate) × (c.rule ≡ r) × IsBest cs c
Reflects cs (err e) = ((cs ≡ []) × (e ≡ no_match)) ⊎ (HasTie cs × (e ≡ match_conflict))

module _ (b c : RouteCandidate) (cs : List RouteCandidate) where
  new_wins :
      Better c b → (r : Result Error RouteRule) → Reflects (c ∷ cs) r → Reflects (b ∷ c ∷ cs) r
  new_wins h (ok r) (w, e, v) = (
    w,
    e,
    record {
      member = Memᴰ.tail v.member;
      best = (inr (elim v.best.0 [ inl p ↦ rw p at h | inr q ↦ Better-trans w c b q h ]), v.best);
    },
  )
  new_wins h (err e) (inl p) = cc
  new_wins h (err e) (inr (t, p)) = inr (inr t, p)

  old_wins :
      Better b c → (r : Result Error RouteRule) → Reflects (b ∷ cs) r → Reflects (b ∷ c ∷ cs) r
  old_wins h (ok r) (w, e, v) = (
    w,
    e,
    record {
      member = insert_second v.member;
      best = (
        v.best.0,
        (inr (elim v.best.0 [ inl p ↦ rw p at h | inr q ↦ Better-trans w b c q h ]), v.best.1),
      );
    },
  )
    where
      insert_second : {x : RouteCandidate} → Memᴰ x (b ∷ cs) → Memᴰ x (b ∷ c ∷ cs)
      insert_second (Memᴰ.head q) = Memᴰ.head q
      insert_second (Memᴰ.tail m) = Memᴰ.tail (Memᴰ.tail m)
  old_wins h (err e) (inl p) = cc
  old_wins h (err e) (inr (inl (d, m, t), p)) = inr (inl (d, Memᴰ.tail m, t), p)
  old_wins h (err e) (inr (inr t, p)) = inr (inr (inr t), p)

-- A round against the best so far, where the rest of the loop is known.
round-Reflects :
    (c b : RouteCandidate) (cs : List RouteCandidate)
    (rest : Option RouteCandidate → Result Error RouteRule)
    → ((w : RouteCandidate) → Reflects (w ∷ cs) (rest (some w)))
    → Reflects (b ∷ c ∷ cs) (choose_round (some c) (some b) >>= rest)
unfolding choose_round contest
round-Reflects c b cs rest ih = elim (Ordering-cases (compare_candidates c b)) [
  | inl less ↦ rw (less, contest) (old_wins b c cs (compare_lt c b less) (rest (some b)) (ih b))
  | inr (inl tie) ↦
      rw (tie, contest) (inr (inl (c, Memᴰ.head refl, Tied-sym c b (compare_eq c b tie)), refl))
  | inr (inr more) ↦
      rw (more, contest) (new_wins b c cs (compare_gt c b more) (rest (some c)) (ih c))
]

choose_from-Reflects :
    (host path : Str) (rules : List RouteRule) (best : Option RouteCandidate)
    → Reflects (collect best (candidates host path rules)) (choose_from host path rules best)
unfolding candidates choose_from choose_round contest
choose_from-Reflects host path [] none = inl (refl, refl)
choose_from-Reflects host path [] (some b) =
    (b, refl, record { member = Memᴰ.head refl; best = (inl refl, tt) })
choose_from-Reflects host path (rule ∷ rules) none =
    elim (Option-cases (candidate host path rule)) [
      | inl e ↦ rw e (choose_from-Reflects host path rules none)
      | inr (c, e) ↦ rw e (choose_from-Reflects host path rules (some c))
    ]
choose_from-Reflects host path (rule ∷ rules) (some b) =
    elim (Option-cases (candidate host path rule)) [
      | inl e ↦ rw e (choose_from-Reflects host path rules (some b))
      | inr (c, e) ↦ rw e (
          round-Reflects c b (candidates host path rules) (choose_from host path rules)
            (λ w. choose_from-Reflects host path rules (some w)))
    ]

-- The choice is the one candidate that is better than each other one; with no candidate it fails
-- with `ErrNoMatch`, and it fails with `ErrMatchConflict` only if two candidates are tied.
pub choose_rule-Reflects :
    (rules : List RouteRule) (host path : Str)
    → Reflects (candidates host path rules) (choose_rule rules host path)
unfolding choose_rule
choose_rule-Reflects rules host path = choose_from-Reflects host path rules none
