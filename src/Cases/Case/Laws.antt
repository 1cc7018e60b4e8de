-- ===== src/Cases/Case/Laws.antt =====
-- What the constructor of `Case` accepts, and the life cycle that its methods allow.
use workflow_forge.Batches.Batch.Laws.{IsBounded, IsBoundedOption}
use workflow_forge.Cases.Case.{
  Case, CaseStatus, CasePriority, open_, closed, archived, is_archived, required_text,
  optional_text, post_init, update, close, reopen, archive, ensure_mutable, validate_case_uuid,
  timestamp, create,
}
use workflow_forge.Base.{
  Result, ◌≢◌, ℕ, ◌≡◌, Option, Bool, is_some, true, ok, Error, not, ◌+◌, arith, >>=-eq-ok, raise_if,
  some, ap, ◌≤◌, ◌==◌, refl, none, raise_if-eq-ok, ok-transport, ◌∙◌, case_error, not_aware,
  not_positive,
}
use workflow_forge.Text.{Text}
use workflow_forge.Time.{
  normalize_optional, IsUtc, DateTime, normalize, IsUtcOption, normalize-eq-ok,
  normalize_optional-eq-ok, normalize-IsUtc, normalize_optional-IsUtcOption,
}
use workflow_forge.Text.Split.{squeeze_idem}

-- A case that the constructor has validated.
pub record WellFormed (x : Case) : Type 0 where
  pub organization_set : x.organization_id ≢ 0
  pub title_bounded : IsBounded 255 x.title
  pub summary_bounded : IsBoundedOption 4000 x.summary
  pub reference_bounded : IsBoundedOption 255 x.external_reference
  pub created_utc : IsUtc x.created_at
  pub updated_utc : IsUtc x.updated_at
  pub closed_utc : IsUtcOption x.closed_at
  pub archived_utc : IsUtcOption x.archived_at
  pub versioned : 1 ≤ x.lock_version

required_text-eq-ok : (t : Text) (n : ℕ) (t' : Text) → required_text t n ≡ ok t' → IsBounded n t'
unfolding required_text
required_text-eq-ok t n t' h = ground (arith, squeeze_idem t)

optional_text-eq-ok :
    (t : Option Text) (n : ℕ) (t' : Option Text) → optional_text t n ≡ ok t' → IsBoundedOption n t'
unfolding optional_text
optional_text-eq-ok none n t' h = ground arith
optional_text-eq-ok (some t) n t' h = ground (arith, squeeze_idem t)

pub required_text-IsBounded : (t : Text) (n : ℕ) → IsBounded n t → required_text t n ≡ ok t
unfolding required_text
required_text-IsBounded t n h = rw (h.0, h.1) (ground arith)

pub optional_text-IsBoundedOption :
    (t : Option Text) (n : ℕ) → IsBoundedOption n t → optional_text t n ≡ ok t
unfolding optional_text
optional_text-IsBoundedOption none n h = refl
optional_text-IsBoundedOption (some t) n h = rw (h.0, h.1) (ground arith)

set : (n : ℕ) → n ≢ 0 → validate_case_uuid n ≡ ok tt
set n h = ground arith

counted : (n : ℕ) (e : Error) → 1 ≤ n → raise_if (n == 0) e ≡ ok tt
counted n e h = ground arith

not_nil : (n : ℕ) {u : Unit {0}} → validate_case_uuid n ≡ ok u → n ≢ 0
not_nil n h = ground arith

positive : (n : ℕ) (e : Error) {u : Unit {0}} → raise_if (n == 0) e ≡ ok u → 1 ≤ n
positive n e h = ground arith

-- The case that the constructor makes of its arguments, up to the form of texts and times.
pub record Made (x y : Case) : Type 0 where
  pub formed : WellFormed y
  pub same_id : y.id ≡ x.id
  pub same_organization : y.organization_id ≡ x.organization_id
  pub same_status : y.status ≡ x.status
  pub same_priority : y.priority ≡ x.priority
  pub same_version : y.lock_version ≡ x.lock_version
  pub same_closed : is_some y.closed_at ≡ is_some x.closed_at
  pub same_archived : is_some y.archived_at ≡ is_some x.archived_at

is_some-normalize_optional :
    (e : Error) (d d' : Option DateTime) → normalize_optional e d ≡ ok d' → is_some d' ≡ is_some d
unfolding normalize_optional normalize
is_some-normalize_optional e none d' h = ground arith
is_some-normalize_optional e (some d) d' h = ground arith

pub case-post_init-Made : (x y : Case) → post_init x ≡ ok y → Made x y
unfolding post_init
case-post_init-Made x y h =
    let (_, organization, h) = >>=-eq-ok (validate_case_uuid x.organization_id) _ h in
    let (title, title_ok, h) = >>=-eq-ok (required_text x.title 255) _ h in
    let (summary, summary_ok, h) = >>=-eq-ok (optional_text x.summary 4000) _ h in
    let (reference, reference_ok, h) = >>=-eq-ok (optional_text x.external_reference 255) _ h in
    let (created, created_ok, h) = >>=-eq-ok (timestamp x.created_at) _ h in
    let (updated, updated_ok, h) = >>=-eq-ok (timestamp x.updated_at) _ h in
    let (closed_at, closed_ok, h) = >>=-eq-ok (normalize_optional _ x.closed_at) _ h in
    let (archived_at, archived_ok, h) = >>=-eq-ok (normalize_optional _ x.archived_at) _ h in
    let (_, version, h) = >>=-eq-ok (raise_if (x.lock_version == 0) _) _ h in
    ok-transport (Made x) h (record {
      formed = record {
        organization_set = not_nil x.organization_id organization;
        title_bounded = required_text-eq-ok x.title 255 title title_ok;
        summary_bounded = optional_text-eq-ok x.summary 4000 summary summary_ok;
        reference_bounded = optional_text-eq-ok x.external_reference 255 reference reference_ok;
        created_utc = (normalize-eq-ok _ x.created_at created_ok).0;
        updated_utc = (normalize-eq-ok _ x.updated_at updated_ok).0;
        closed_utc = normalize_optional-eq-ok _ x.closed_at closed_ok;
        archived_utc = normalize_optional-eq-ok _ x.archived_at archived_ok;
        versioned = positive x.lock_version _ version;
      };
      same_id = refl;
      same_organization = refl;
      same_status = refl;
      same_priority = refl;
      same_version = refl;
      same_closed = is_some-normalize_optional _ x.closed_at closed_at closed_ok;
      same_archived = is_some-normalize_optional _ x.archived_at archived_at archived_ok;
    })

-- A call of a method of a case.
pub data Change : Type 0 where
  updating :
      (title summary : Option Text)
      → Option CasePriority
      → (external_reference : Option Text) → (actor : ℕ) → DateTime
      → Change
  closing reopening archiving : (actor : ℕ) → DateTime → Change

abbrev pub apply : Change → Case → Result Case
apply (updating title summary priority reference actor now) x =
    update x title summary priority reference actor now
apply (closing actor now) x = close x actor now
apply (reopening actor now) x = reopen x actor now
apply (archiving actor now) x = archive x actor now

-- The status that a case has after a change, and whether the change may be made.
abbrev pub next_status : Change → CaseStatus → CaseStatus
next_status (updating _ _ _ _ _ _) s = s
next_status (closing _ _) s = closed
next_status (reopening _ _) s = open_
next_status (archiving _ _) s = archived

abbrev pub is_allowed : Change → CaseStatus → Bool
is_allowed (archiving _ _) s = true
is_allowed _ s = not (is_archived s)

-- What a change of a case that returns has done.
pub record Changed (c : Change) (x y : Case) : Type 0 where
  pub formed : WellFormed y
  pub allowed : is_allowed c x.status ≡ true
  pub same_id : y.id ≡ x.id
  pub same_organization : y.organization_id ≡ x.organization_id
  pub status : y.status ≡ next_status c x.status
  pub version : y.lock_version ≡ x.lock_version + 1

mutable : (b : Bool) (e : Error) {u : Unit {0}} → raise_if b e ≡ ok u → not b ≡ true
mutable b e h = ap not (raise_if-eq-ok b e h)

Made-Changed :
    (c : Change) (x x' y : Case)
    → is_allowed c x.status ≡ true
    → x'.id ≡ x.id
    → x'.organization_id ≡ x.organization_id
    → x'.status ≡ next_status c x.status
    → x'.lock_version ≡ x.lock_version + 1
    → Made x' y
    → Changed c x y
Made-Changed c x x' y allowed id organization status version m = record {
  formed = m.formed;
  allowed = allowed;
  same_id = m.same_id ∙ id;
  same_organization = m.same_organization ∙ organization;
  status = m.same_status ∙ status;
  version = m.same_version ∙ version;
}

pub apply-Changed : (c : Change) (x y : Case) → apply c x ≡ ok y → Changed c x y
unfolding update close reopen archive ensure_mutable
apply-Changed (updating t s p r actor now) x y h =
    let (_, free, h) = >>=-eq-ok (raise_if (is_archived x.status) _) _ h in
    let (at, _, h) = >>=-eq-ok (timestamp now) _ h in
    Made-Changed _ x _ y (mutable (is_archived x.status) _ free) refl refl refl refl
      (case-post_init-Made _ y h)
apply-Changed (closing actor now) x y h =
    let (_, free, h) = >>=-eq-ok (raise_if (is_archived x.status) _) _ h in
    let (at, _, h) = >>=-eq-ok (timestamp now) _ h in
    Made-Changed _ x _ y (mutable (is_archived x.status) _ free) refl refl refl refl
      (case-post_init-Made _ y h)
apply-Changed (reopening actor now) x y h =
    let (_, free, h) = >>=-eq-ok (raise_if (is_archived x.status) _) _ h in
    let (at, _, h) = >>=-eq-ok (timestamp now) _ h in
    Made-Changed _ x _ y (mutable (is_archived x.status) _ free) refl refl refl refl
      (case-post_init-Made _ y h)
apply-Changed (archiving actor now) x y h =
    let (at, _, h) = >>=-eq-ok (timestamp now) _ h in
    Made-Changed _ x _ y refl refl refl refl refl (case-post_init-Made _ y h)

-- The constructor leaves a validated case as it is.
pub case-post_init_idem : (x : Case) → WellFormed x → post_init x ≡ ok x
unfolding post_init
case-post_init_idem x w = rw (set x.organization_id w.organization_set) (
    rw (required_text-IsBounded x.title 255 w.title_bounded) (
      rw (optional_text-IsBoundedOption x.summary 4000 w.summary_bounded) (
        rw (optional_text-IsBoundedOption x.external_reference 255 w.reference_bounded) (
          rw (normalize-IsUtc (case_error not_aware) w.created_utc) (
            rw (normalize-IsUtc (case_error not_aware) w.updated_utc) (
              rw (normalize_optional-IsUtcOption (case_error not_aware) x.closed_at w.closed_utc) (
                rw
                  (normalize_optional-IsUtcOption (case_error not_aware) x.archived_at
                    w.archived_utc)
                  (rw (counted x.lock_version (case_error not_positive) w.versioned) refl))))))))

pub create-organization :
    (id organization_id : ℕ) (title : Text) (summary : Option Text) (priority : CasePriority)
    (reference : Option Text) (user : ℕ) (now : DateTime) (x : Case)
    → create id organization_id title summary priority reference user now ≡ ok x
    → x.organization_id ≡ organization_id
unfolding create
create-organization id organization_id title summary priority reference user now x h =
    let (at, _, h) = >>=-eq-ok (timestamp now) _ h in (case-post_init-Made _ x h).same_organization
