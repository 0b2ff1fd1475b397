-- ===== src/Examples/Attachments.antt =====
-- internal/route/route.go: a preview route that is attached, renewed and replaced.
use paperboat_tunnel.Base.{ℕ, ◌≡◌, refl, false, [], ◌∷◌, some, ok, pos}
use paperboat_tunnel.Base.Maps.{get, put, delete}
use paperboat_tunnel.Base.Strings.{Str-discrete, codes, contains}
use paperboat_tunnel.Route.Rule.{preview_https_wss}
use paperboat_tunnel.Route.Attachments.{
  Attachment, Attachment-discrete, Registry, attach, attach_found, attach_new, set_attachment,
  forget_host, is_taken, is_stale, same_route, signal_changed, changed_of, is_incomplete,
  is_direct_child, expected_domain, attach_all, any_stale, signal_lost, signal_gained, keeps_owner,
  same_routes, new_attachments, replace_all,
}
use paperboat_tunnel.Route.Request.{normalize_host}
use paperboat_tunnel.Go.Text.{trim_space}
use paperboat_tunnel.Route.Attachments.Inverse.{Inverse}
use paperboat_tunnel.Route.Attachments.Runs.{
  Follows, attach-Follows, attaches, detaches, reached-Inverse, replace_all-Follows, replaces, run,
}

abbrev preview : ℕ → Attachment
preview revision = record {
  id = codes "p";
  revision = revision;
  environment = codes "v";
  node = codes "n";
  generation = 1;
  config_generation = 0;
  kind = preview_https_wss;
  host = codes "x.b.c";
  target = codes "t";
  match_type = [];
  wildcard_suffix = [];
  path_prefix = [];
  priority = pos 0;
  protocol = [];
  origin_scheme = [];
  preserve_host = false;
  host_override = [];
  desired_state = [];
  preview_state = [];
  preview_reason = [];
}

abbrev holding : ℕ → ℕ → Registry
holding revision signals = record {
  preview_base_domain = codes "b.c";
  runtime_base_domain = codes "r.c";
  by_id = (codes "p", preview revision) ∷ [];
  by_host = (codes "x.b.c", codes "p") ∷ [];
  changed = (codes "x.b.c", signals) ∷ [];
}

reached-Inverse_example : Inverse (
    run
      (attaches (preview 1) ∷ replaces (preview 2 ∷ []) ∷ detaches (codes "p") 2 ∷ [])
      (new_attachments (codes "b.c") (codes "r.c")))
reached-Inverse_example =
    reached-Inverse (codes "b.c") (codes "r.c")
      (attaches (preview 1) ∷ replaces (preview 2 ∷ []) ∷ detaches (codes "p") 2 ∷ [])

renewed : attach (preview 2) (holding 1 1) ≡ ok (holding 2 2, preview 2)
unfolding attach attach_found attach_new set_attachment forget_host is_taken is_stale same_route
    signal_changed changed_of is_incomplete is_direct_child expected_domain normalize_host
    trim_space get put delete Str-discrete Attachment-discrete contains
renewed = refl

held_before : get Str-discrete (holding 1 1).by_id (codes "p") ≡ some (preview 1)
unfolding get Str-discrete
held_before = refl

held_behind : get Str-discrete (holding 2 2).by_id (codes "p") ≡ some (preview 2)
unfolding get Str-discrete
held_behind = refl

attach-Follows_example : Follows (preview 1) (preview 2)
attach-Follows_example =
    attach-Follows (preview 2) (preview 1) (preview 2) (codes "p") (holding 1 1)
      (holding 2 2, preview 2) renewed held_before held_behind

exchanged : replace_all (preview 2 ∷ []) (holding 1 1) ≡ ok (holding 2 2)
unfolding replace_all attach_all any_stale signal_lost signal_gained keeps_owner same_routes
    new_attachments attach attach_found attach_new set_attachment forget_host is_taken is_stale
    same_route signal_changed changed_of is_incomplete is_direct_child expected_domain
    normalize_host trim_space get put delete Str-discrete Attachment-discrete contains
exchanged = refl

replace_all-Follows_example : Follows (preview 1) (preview 2)
replace_all-Follows_example =
    replace_all-Follows (preview 2 ∷ []) (preview 1) (preview 2) (codes "p") (holding 1 1)
      (holding 2 2) exchanged held_before held_behind
