-- ===== src/Cases/Case.antt =====
-- `Case` and its documents, comments and decisions
-- (packages/domain/src/workflowforge_domain/cases.py).
pub mod Laws
pub mod History
use workflow_forge.Base.{
  Result, ℕ, Option, Bool, true, ok, some, ◌>>◌, ◌>>=◌, raise_if, if◌then◌else◌, false, ◌==◌, ◌+◌,
  none, case_error, is_empty, nil_uuid, Reason, not_aware, required, wrong_status, ltb,
  not_positive, length, too_long,
}
use workflow_forge.Time.{DateTime, normalize, normalize_optional}
use workflow_forge.Text.{Text, squeeze}

pub data CaseStatus : Type 0 where
  open_ closed archived : CaseStatus

pub data CasePriority : Type 0 where
  low normal high urgent : CasePriority

-- `status is CaseStatus.ARCHIVED`
abbrev pub is_archived : CaseStatus → Bool
is_archived archived = true
is_archived _ = false

pub record Case : Type 0 where
  pub id : ℕ
  pub organization_id : ℕ
  pub title : Text
  pub summary : Option Text
  pub status : CaseStatus
  pub priority : CasePriority
  pub external_reference : Option Text
  pub created_at : DateTime
  pub created_by_user_id : ℕ
  pub updated_at : DateTime
  pub updated_by_user_id : ℕ
  pub closed_at : Option DateTime
  pub closed_by_user_id : Option ℕ
  pub archived_at : Option DateTime
  pub archived_by_user_id : Option ℕ
  pub lock_version : ℕ

-- `_timestamp` and `_validate_uuid`
abbrev pub timestamp : DateTime → Result DateTime
timestamp = normalize (case_error not_aware)

abbrev pub validate_case_uuid : ℕ → Result (Unit {0})
validate_case_uuid value = raise_if (value == 0) (case_error nil_uuid)

-- `_bounded_text` of a required text, and of an optional one
unfoldable pub required_text : Text → (max_length : ℕ) → Result Text
required_text value max_length = do
  let normalized = squeeze value
  raise_if (is_empty normalized) (case_error required)
  raise_if (ltb max_length (length normalized)) (case_error too_long)
  ok normalized

unfoldable pub optional_text : Option Text → (max_length : ℕ) → Result (Option Text)
optional_text none max_length = ok none
optional_text (some value) max_length =
    let normalized = squeeze value in
    if is_empty normalized then ok none else do
      raise_if (ltb max_length (length normalized)) (case_error too_long)
      ok (some normalized)

-- `__post_init__`
unfoldable pub post_init : Case → Result Case
post_init x = do
  validate_case_uuid x.organization_id
  title ← required_text x.title 255
  summary ← optional_text x.summary 4000
  external_reference ← optional_text x.external_reference 255
  created_at ← timestamp x.created_at
  updated_at ← timestamp x.updated_at
  closed_at ← normalize_optional (case_error not_aware) x.closed_at
  archived_at ← normalize_optional (case_error not_aware) x.archived_at
  raise_if (x.lock_version == 0) (case_error not_positive)
  ok (record x {
    title = title;
    summary = summary;
    external_reference = external_reference;
    created_at = created_at;
    updated_at = updated_at;
    closed_at = closed_at;
    archived_at = archived_at;
  })

unfoldable pub create :
    (id organization_id : ℕ)
    → (title : Text) → (summary : Option Text) → CasePriority
    → (external_reference : Option Text) → (created_by_user_id : ℕ) → (now : DateTime) → Result Case
create id organization_id title summary priority external_reference created_by_user_id now = do
  at ← timestamp now
  post_init (record {
    id = id;
    organization_id = organization_id;
    title = title;
    summary = summary;
    status = open_;
    priority = priority;
    external_reference = external_reference;
    created_at = at;
    created_by_user_id = created_by_user_id;
    updated_at = at;
    updated_by_user_id = created_by_user_id;
    closed_at = none;
    closed_by_user_id = none;
    archived_at = none;
    archived_by_user_id = none;
    lock_version = 1;
  })

-- `_ensure_mutable`
unfoldable pub ensure_mutable : Case → Result (Unit {0})
ensure_mutable x = raise_if (is_archived x.status) (case_error Reason.archived)

-- `self.title if title is None else title`
abbrev pub given {ℓ} : {A : Type ℓ} → Option A → A → A
given none old = old
given (some new) old = new

unfoldable pub update :
    Case
    → (title summary : Option Text) → Option CasePriority
    → (external_reference : Option Text) → (actor_user_id : ℕ) → (now : DateTime) → Result Case
update x title summary priority external_reference actor_user_id now = do
  ensure_mutable x
  at ← timestamp now
  post_init (record x {
    title = given title x.title;
    summary = summary;
    priority = given priority x.priority;
    external_reference = external_reference;
    updated_at = at;
    updated_by_user_id = actor_user_id;
    lock_version = x.lock_version + 1;
  })

unfoldable pub close : Case → (actor_user_id : ℕ) → (now : DateTime) → Result Case
close x actor_user_id now = do
  ensure_mutable x
  at ← timestamp now
  post_init (record x {
    status = closed;
    closed_at = some at;
    closed_by_user_id = some actor_user_id;
    updated_at = at;
    updated_by_user_id = actor_user_id;
    lock_version = x.lock_version + 1;
  })

unfoldable pub reopen : Case → (actor_user_id : ℕ) → (now : DateTime) → Result Case
reopen x actor_user_id now = do
  raise_if (is_archived x.status) (case_error wrong_status)
  at ← timestamp now
  post_init (record x {
    status = open_;
    closed_at = none;
    closed_by_user_id = none;
    updated_at = at;
    updated_by_user_id = actor_user_id;
    lock_version = x.lock_version + 1;
  })

-- An archived case is archived again: the method has no guard.
unfoldable pub archive : Case → (actor_user_id : ℕ) → (now : DateTime) → Result Case
archive x actor_user_id now = do
  at ← timestamp now
  post_init (record x {
    status = archived;
    archived_at = some at;
    archived_by_user_id = some actor_user_id;
    updated_at = at;
    updated_by_user_id = actor_user_id;
    lock_version = x.lock_version + 1;
  })

pub record CaseDocument : Type 0 where
  pub id : ℕ
  pub organization_id : ℕ
  pub case_id : ℕ
  pub document_id : ℕ
  pub added_at : DateTime
  pub added_by_user_id : ℕ

pub record CaseComment : Type 0 where
  pub id : ℕ
  pub organization_id : ℕ
  pub case_id : ℕ
  pub body : Text
  pub created_at : DateTime
  pub created_by_user_id : ℕ
  pub updated_at : Option DateTime
  pub updated_by_user_id : Option ℕ

pub record CaseDecision : Type 0 where
  pub id : ℕ
  pub organization_id : ℕ
  pub case_id : ℕ
  pub decision_type : Text
  pub rationale : Text
  pub created_at : DateTime
  pub created_by_user_id : ℕ
