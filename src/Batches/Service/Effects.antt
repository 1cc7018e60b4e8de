-- ===== src/Batches/Service/Effects.antt =====
-- What holds of every statement of the batch repository on the rows of one organization holds of
-- every use case of a tenant of that organization.
use workflow_forge.Batches.Batch
use workflow_forge.Batches.Service
use workflow_forge.Batches.Service.Locking.{locked-organization}
use workflow_forge.Batches.Batch.Laws.{
  change_effect, batch-post_init-WellFormed, updating, archiving,
}
use workflow_forge.Batches.Batch.{
  batch_document, BatchDocument, Batch, timestamp, validate_batch_uuid,
}
use workflow_forge.Batches.Store.{
  BatchStore, insert_batch, set_batch, insert_membership, delete_membership, append_batch_event,
  find_membership, membership_from_record,
}
use workflow_forge.Base.{
  ℕ, ◌≡◌, Option, Bool, Result, ok, >>=-eq-ok, if◌then◌else◌, ap, err, sym, true,
  document_not_found, ok-injective, ◌∙◌, false, or_raise,
}
use workflow_forge.Transaction.Growth.{
  IsPreorder, Grows, Grows-bind, Above, Grows-lift, Grows-gets, Grows-bind-returns, Grows-commit,
  Grows-change, Grows-pure, Grows-lift-bind, Grows-or_rollback, Above-after_failure, Grows-rollback,
}
use workflow_forge.Batches.Service.{
  BatchDraw, locked, record_if, create_batch, get, remove_document, add_document,
  or_rollback_if_missing, missing_document,
}
use workflow_forge.Text.{Text}
use workflow_forge.Authorization.Context.{TenantContext}
use workflow_forge.Batches.Repository.{
  get_batch, update_batch, add_batch, add_membership, remove_membership,
}
use workflow_forge.Transaction.{Tx, Action, ◌>>=◌, ◌>>◌, commit, pure, rollback, gets, lift, change}
use workflow_forge.Time.{DateTime, utc}
use workflow_forge.Audit.{AuditEvent}

pub record Statements (R : BatchStore → BatchStore → Type 0) (o : ℕ) : Type 0 where
  pub preorder : IsPreorder R
  pub inserts_batch :
      (x : Batch) → x.organization_id ≡ o → (s s' : BatchStore) → insert_batch x s ≡ ok s' → R s s'
  pub sets_batch :
      (x : Batch) → x.organization_id ≡ o → (s s' : BatchStore) → set_batch x s ≡ ok s' → R s s'
  pub inserts_membership :
      (x : BatchDocument)
      → x.organization_id ≡ o
      → (s s' : BatchStore) → insert_membership x s ≡ ok s'
      → R s s'
  pub deletes_membership :
      (b d : ℕ) (s s' : BatchStore) → delete_membership o b d s ≡ ok s' → R s s'
  pub appends_event : (e : AuditEvent) (s s' : BatchStore) → append_batch_event e s ≡ ok s' → R s s'

batch_document-organization :
    (x y : BatchDocument) → batch_document x ≡ ok y → y.organization_id ≡ x.organization_id
unfolding batch_document
batch_document-organization x y h =
    let (_, _, h) = >>=-eq-ok (validate_batch_uuid x.organization_id) _ h in
    let (_, _, h) = >>=-eq-ok (validate_batch_uuid x.added_by_user_id) _ h in
    let (at, _, h) = >>=-eq-ok (timestamp x.added_at) _ h in
    ap (λ z. z.organization_id) (sym (ok-injective h))

create-organization :
    (i o : ℕ) (name : Text) (d r : Option Text) (user : ℕ) (now : DateTime) (y : Batch)
    → Batch.create i o name d r user now ≡ ok y
    → y.organization_id ≡ o
unfolding Batch.create
create-organization i o name d r user now y h =
    let (at, _, made) = >>=-eq-ok (timestamp now) _ h in
    let (_, _, own, _, _) = batch-post_init-WellFormed _ y made in own

module _ (R : BatchStore → BatchStore → Type 0) (draw : BatchDraw) (tenant : TenantContext)
    (S : Statements R tenant.organization_id) where
  abbrev P : IsPreorder R
  P = S.preorder

  Grows-record_if : (b : Bool) (e : Result AuditEvent) → Grows R (record_if b e)
  unfolding record_if
  Grows-record_if true e =
      Grows-bind P _ _ (Grows-lift P e) λ x. Grows-change P _ (S.appends_event x)
  Grows-record_if false e = Grows-pure P tt

  -- What every use case ends with
  Grows-recorded :
      {A : Type 0} (e : Result AuditEvent) (a : A)
      → Grows R (record_if draw.audited e >>= λ _. commit >>= λ _. pure a)
  Grows-recorded e a =
      Grows-bind P _ _ (Grows-record_if draw.audited e)
        λ _. Grows-bind P _ _ (Grows-commit P) λ _. Grows-pure P a

  Grows-saving :
      (y : Batch) (e : Batch → Result AuditEvent)
      → y.organization_id ≡ tenant.organization_id
      → Grows R (
          update_batch y >>= λ saved.
          record_if draw.audited (e saved) >>= λ _. commit >>= λ _. pure saved)
  unfolding update_batch
  Grows-saving y e own =
      Grows-bind P _ _
        (Grows-bind P _ _ (Grows-change P _ (S.sets_batch y own)) λ _. Grows-pure P y)
        λ saved. Grows-recorded (e saved) saved

  Grows-get_batch : (i : ℕ) → Grows R (get_batch tenant.organization_id i)
  unfolding get_batch
  Grows-get_batch i = Grows-bind P _ _ (Grows-gets P _) λ row. Grows-lift P _

  Grows-seen : (i : ℕ) → Grows R (get tenant i >>= λ _. pure tt)
  unfolding get
  Grows-seen i =
      Grows-bind P _ _
        (Grows-bind P _ _ (Grows-lift P _)
          λ _. Grows-bind P _ _ (Grows-get_batch i) λ found. Grows-lift P _)
        λ _. Grows-pure P tt

  Grows-locked : (i v : ℕ) → Grows R (locked tenant i v)
  unfolding locked
  Grows-locked i v = Grows-bind P _ _ (Grows-get_batch i) λ found.
      Grows-bind P _ _ (Grows-lift P _) λ x. Grows-bind P _ _ (Grows-lift P _) λ _. Grows-pure P x

  pub Grows-update :
      (i v : ℕ) (n d r : Option Text) → Grows R (Service.update draw tenant i v n d r)
  unfolding Service.update
  Grows-update i v n d r = Grows-bind P _ _ (Grows-lift P _) λ _.
      Grows-bind-returns P (locked tenant i v) _ (Grows-locked i v) λ x tx tx' found.
        Grows-lift-bind P (Batch.update x n d r tenant.user_id (utc draw.now)) _ λ y e.
          Grows-or_rollback P (
            Grows-saving y _ (
              ((change_effect (updating n d r tenant.user_id (utc draw.now)) x).0 y e).3
              ∙ locked-organization tenant i v tx tx' x found))

  pub Grows-archive : (i v : ℕ) → Grows R (Service.archive draw tenant i v)
  unfolding Service.archive
  Grows-archive i v = Grows-bind P _ _ (Grows-lift P _) λ _.
      Grows-bind-returns P (locked tenant i v) _ (Grows-locked i v) λ x tx tx' found.
        Grows-lift-bind P (Batch.archive x tenant.user_id (utc draw.now)) _ λ y e.
          Grows-saving y _ (
            ((change_effect (archiving tenant.user_id (utc draw.now)) x).0 y e).3
            ∙ locked-organization tenant i v tx tx' x found)

  pub Grows-create_batch :
      (name : Text) (d r : Option Text) → Grows R (create_batch draw tenant name d r)
  unfolding create_batch add_batch
  Grows-create_batch name d r = Grows-bind P _ _ (Grows-lift P _) λ _.
      Grows-bind P _ _ (Grows-lift P _) λ _.
        Grows-lift-bind P (Batch.create _ _ name d r _ _) _ λ y e. Grows-or_rollback P (
          Grows-bind P _ _
            (Grows-bind P _ _
              (Grows-change P _ (S.inserts_batch y (create-organization _ _ name d r _ _ y e)))
              λ _. Grows-lift P _)
            λ saved. Grows-recorded _ saved)

  pub Grows-remove_document : (i d : ℕ) → Grows R (remove_document draw tenant i d)
  unfolding remove_document remove_membership
  Grows-remove_document i d = Grows-bind P _ _ (Grows-lift P _) λ _.
      Grows-bind P _ _ (Grows-seen i) λ _.
        Grows-bind P _ _
          (Grows-bind P _ _ (Grows-gets P _) λ found.
            Grows-bind P _ _ (Grows-change P _ (S.deletes_membership i d)) λ _. Grows-pure P found)
          λ removed. Grows-recorded _ removed

  Above-missing_document :
      {A : Type 0} {tx : Tx BatchStore} (r : Result A) (tx' : Tx BatchStore)
      → Above R tx tx'
      → Above R tx (missing_document r tx')
  Above-missing_document (ok a) tx' h = h
  Above-missing_document {A = A} (err document_not_found) tx' h =
      Above-after_failure P {A = A} (err document_not_found) tx' h
  Above-missing_document (err _) tx' h = h

  Grows-or_rollback_if_missing :
      {A : Type 0} (m : Action BatchStore A) → Grows R m → Grows R (or_rollback_if_missing m)
  unfolding or_rollback_if_missing
  Grows-or_rollback_if_missing m g = record {
    at = λ tx h. Above-missing_document (m tx).0 (m tx).1 (g.at tx h);
  }

  adding :
      (x : BatchDocument) (b : Bool)
      → x.organization_id ≡ tenant.organization_id
      → Grows R (
          if b
          then (do
            rollback
            existing ←
                gets (λ s. find_membership x.organization_id x.batch_id x.document_id s.memberships)
            row ← lift (or_raise existing document_not_found)
            lift (membership_from_record row))
          else (do change (insert_membership x); lift (membership_from_record x)))
  adding x true own = Grows-bind P _ _ (Grows-rollback P) λ _.
      Grows-bind P _ _ (Grows-gets P _)
        λ existing. Grows-bind P _ _ (Grows-lift P _) λ row. Grows-lift P _
  adding x false own =
      Grows-bind P _ _ (Grows-change P _ (S.inserts_membership x own)) λ _. Grows-lift P _

  pub Grows-add_document : (i d : ℕ) → Grows R (add_document draw tenant i d)
  unfolding add_document add_membership
  Grows-add_document i d = Grows-bind P _ _ (Grows-lift P _) λ _.
      Grows-bind P _ _ (Grows-seen i) λ _. Grows-bind P _ _ (Grows-lift P _) λ _.
        Grows-lift-bind P (batch_document _) _ λ y e. Grows-or_rollback_if_missing _ (
          Grows-bind P _ _
            (Grows-bind P _ _ (Grows-gets P _) λ b. adding y b (batch_document-organization _ y e))
            λ saved. Grows-recorded _ saved)
