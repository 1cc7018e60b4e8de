-- ===== src/Identity/Email.antt =====
-- `EmailAddress` of packages/domain/src/workflowforge_domain/identity/value_objects.py.
use workflow_forge.Base.{Bool}
use workflow_forge.Text.{Text, text_eq}

pub record EmailAddress : Type 0 where
  pub display : Text
  pub normalized : Text

-- `__eq__`
abbrev pub same_email : EmailAddress → EmailAddress → Bool
same_email a b = text_eq a.normalized b.normalized
