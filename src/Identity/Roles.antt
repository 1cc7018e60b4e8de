-- ===== src/Identity/Roles.antt =====
-- Roles and permissions: packages/domain/src/workflowforge_domain/identity/enums.py and
-- permissions.py.
pub mod Hierarchy
use workflow_forge.Base.{ℕ, Bool, true, false, List, [], ◌∷◌, any, ◌==◌}

pub data Role : Type 0 where
  owner admin operator reviewer auditor : Role

-- `role is other`
infix 50 ◌is_role◌
abbrev pub ◌is_role◌ : Role → Role → Bool
owner is_role owner = true
admin is_role admin = true
operator is_role operator = true
reviewer is_role reviewer = true
auditor is_role auditor = true
_ is_role _ = false

pub data Permission : Type 0 where
  organization_read : Permission
  organization_update : Permission
  membership_read : Permission
  membership_invite : Permission
  membership_update : Permission
  membership_remove : Permission
  audit_read : Permission
  security_manage : Permission
  api_keys_manage : Permission
  provider_credentials_manage : Permission
  document_read : Permission
  document_write : Permission
  document_archive : Permission
  document_download : Permission
  document_version_read : Permission
  document_version_create : Permission
  artifact_read : Permission
  artifact_download : Permission
  batch_read : Permission
  batch_write : Permission
  batch_archive : Permission
  batch_manage_documents : Permission
  case_read : Permission
  case_write : Permission
  case_archive : Permission
  case_manage_documents : Permission
  case_comment : Permission
  case_task : Permission
  case_decision : Permission

-- The place of a permission in the enum, by which permissions are compared.
unfoldable pub ordinal : Permission → ℕ
ordinal organization_read = 0
ordinal organization_update = 1
ordinal membership_read = 2
ordinal membership_invite = 3
ordinal membership_update = 4
ordinal membership_remove = 5
ordinal audit_read = 6
ordinal security_manage = 7
ordinal api_keys_manage = 8
ordinal provider_credentials_manage = 9
ordinal document_read = 10
ordinal document_write = 11
ordinal document_archive = 12
ordinal document_download = 13
ordinal document_version_read = 14
ordinal document_version_create = 15
ordinal artifact_read = 16
ordinal artifact_download = 17
ordinal batch_read = 18
ordinal batch_write = 19
ordinal batch_archive = 20
ordinal batch_manage_documents = 21
ordinal case_read = 22
ordinal case_write = 23
ordinal case_archive = 24
ordinal case_manage_documents = 25
ordinal case_comment = 26
ordinal case_task = 27
ordinal case_decision = 28

-- `permission in permissions`, for a frozenset given by the list of its members
unfoldable pub contains : Permission → List Permission → Bool
unfolding ordinal
contains p = any (λ q. ordinal p == ordinal q)

-- `frozenset(Permission)`
abbrev pub all_permissions : List Permission
all_permissions =
    organization_read ∷ organization_update ∷ membership_read ∷ membership_invite
    ∷ membership_update ∷ membership_remove ∷ audit_read ∷ security_manage ∷ api_keys_manage
    ∷ provider_credentials_manage ∷ document_read ∷ document_write ∷ document_archive
    ∷ document_download ∷ document_version_read ∷ document_version_create ∷ artifact_read
    ∷ artifact_download ∷ batch_read ∷ batch_write ∷ batch_archive ∷ batch_manage_documents
    ∷ case_read ∷ case_write ∷ case_archive ∷ case_manage_documents ∷ case_comment ∷ case_task
    ∷ case_decision ∷ []

abbrev pub admin_permissions : List Permission
admin_permissions =
    organization_read ∷ organization_update ∷ membership_read ∷ membership_invite
    ∷ membership_update ∷ membership_remove ∷ audit_read ∷ api_keys_manage
    ∷ provider_credentials_manage ∷ document_read ∷ document_write ∷ document_archive
    ∷ document_download ∷ document_version_read ∷ document_version_create ∷ artifact_read
    ∷ artifact_download ∷ batch_read ∷ batch_write ∷ batch_archive ∷ batch_manage_documents
    ∷ case_read ∷ case_write ∷ case_archive ∷ case_manage_documents ∷ case_comment ∷ case_task
    ∷ case_decision ∷ []

abbrev pub operator_permissions : List Permission
operator_permissions =
    organization_read ∷ document_read ∷ document_write ∷ document_download ∷ document_version_read
    ∷ document_version_create ∷ artifact_read ∷ artifact_download ∷ batch_read ∷ batch_write
    ∷ batch_manage_documents ∷ case_read ∷ case_write ∷ case_manage_documents ∷ case_comment
    ∷ case_task ∷ case_decision ∷ []

abbrev pub reviewer_permissions : List Permission
reviewer_permissions =
    organization_read ∷ document_read ∷ document_download ∷ document_version_read ∷ artifact_read
    ∷ artifact_download ∷ batch_read ∷ case_read ∷ case_comment ∷ case_task ∷ case_decision ∷ []

abbrev pub auditor_permissions : List Permission
auditor_permissions =
    organization_read ∷ membership_read ∷ audit_read ∷ document_read ∷ document_download
    ∷ document_version_read ∷ artifact_read ∷ artifact_download ∷ batch_read ∷ case_read ∷ []

-- `_ROLE_PERMISSIONS[role]`; the mapping has every role, so the lookup does not fail.
unfoldable pub permissions_for_role : Role → List Permission
permissions_for_role owner = all_permissions
permissions_for_role admin = admin_permissions
permissions_for_role operator = operator_permissions
permissions_for_role reviewer = reviewer_permissions
permissions_for_role auditor = auditor_permissions
