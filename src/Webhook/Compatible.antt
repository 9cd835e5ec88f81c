-- ===== src/Webhook/Compatible.antt =====
-- What the exceptions of a plan have in common once they are admitted.
use hibernator.Prelude.{ℕ, String, Bool, not, ◌&&◌, ◌||◌, List, Option, all}
use hibernator.Webhook.{is_allowed_type_pair}
use hibernator.Webhook.Admission.{concerns, collides, has_overrides}
use hibernator.Webhook.Changes.{ExceptionForm, same_type}

module _ (check : String → Option String → List String × List String) (is_duration : String → Bool)
    (parse : String → Option (ℕ × ℕ)) where
  -- Two exceptions whose windows collide have different types that may be combined.
  abbrev pub compatible : ExceptionForm → ExceptionForm → Bool
  compatible e other =
      not (collides parse e other)
      || (not (same_type e.type other.type) && is_allowed_type_pair e.type other.type)

  -- No other exception that concerns this one has overrides.
  abbrev pub sole : ExceptionForm → List ExceptionForm → Bool
  sole e others = all (λ other. not (concerns e other && has_overrides check other)) others
