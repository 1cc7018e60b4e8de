-- ===== src/Identity/Roles/Hierarchy.antt =====
-- How the roles compare by their permissions.
use workflow_forge.Identity.Roles.{
  Role, contains, Permission, permissions_for_role, reviewer, organization_read, auditor,
  membership_read, audit_read, operator, document_read, admin, document_download, security_manage,
  document_version_read, artifact_read, artifact_download, owner, batch_read, case_read,
}
use workflow_forge.Base.{List, Bool, ◌∷◌, ◌≡◌, true, refl, not, [], arith}

-- `p in permissions_for_role(role)`
abbrev pub grants : Role → Permission → Bool
grants role p = contains p (permissions_for_role role)

-- An operator may do all that a reviewer may, an admin all that an operator or an auditor may, and
-- the owner everything; an admin lacks exactly the permission to manage security.
pub role_hierarchy :
    (p : Permission)
    → (grants reviewer p ≡ true → grants operator p ≡ true)
      × (grants operator p ≡ true → grants admin p ≡ true)
      × (grants auditor p ≡ true → grants admin p ≡ true)
      × (grants admin p ≡ not (contains p (security_manage ∷ [])))
      × (grants owner p ≡ true)
unfolding contains permissions_for_role
role_hierarchy organization_read = ground arith
role_hierarchy _ = ground arith

-- A permission whose name ends in `.read` or `.download`, or none but to look.
abbrev pub reads : List Permission
reads =
    organization_read ∷ membership_read ∷ audit_read ∷ document_read ∷ document_download
    ∷ document_version_read ∷ artifact_read ∷ artifact_download ∷ batch_read ∷ case_read ∷ []

-- An auditor has exactly the permissions to read and to download.
pub auditor_reads : (p : Permission) → grants auditor p ≡ contains p reads
unfolding contains permissions_for_role
auditor_reads organization_read = refl
auditor_reads _ = refl
