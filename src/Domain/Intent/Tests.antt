-- ===== src/Domain/Intent/Tests.antt =====
-- The normal form at a concrete intent: sdk/crates/rx-domain/src/intent.rs.
use mathlib.Core.List.{Permᴰ}
use rx_solutions.Base.{◌≡◌, refl, [], ◌∷◌, ok, to_set, sort, sort_insert}
use rx_solutions.Domain.Intent.{Intent, mode_transition, mode, normalized}
use rx_solutions.Domain.Intent.Normal.{normalized-perm}

abbrev switch : Intent
switch = record {
  kind = mode_transition;
  target = 1;
  profile_digest = 2;
  site_config_digest = 3;
  calibration_digests = [];
  resource_set = 9 ∷ 4 ∷ [];
  execution_timeout_ms = 100;
  prepare_validity_ms = 50;
  completion_rule = 5;
  cancel_rule = 6;
  body = mode (record { mode_id = 7; transition_profile = 8 });
}

switch_normal : normalized switch ≡ ok (record switch { resource_set = 4 ∷ 9 ∷ [] })
unfolding normalized to_set sort sort_insert
switch_normal = refl

normalized-perm_example :
    normalized (record switch { resource_set = 4 ∷ 9 ∷ [] }) ≡ normalized switch
normalized-perm_example = normalized-perm switch (4 ∷ 9 ∷ []) (Permᴰ.swap refl refl)
