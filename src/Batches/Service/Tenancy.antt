-- ===== src/Batches/Service/Tenancy.antt =====
-- A tenant's calls leave the batches and the memberships of every other organization as they are.
use workflow_forge.Batches.Service.Effects.{
  Statements, Grows-update, Grows-archive, Grows-create_batch, Grows-add_document,
  Grows-remove_document,
}
use workflow_forge.Batches.Batch.{Batch, BatchDocument}
use workflow_forge.Batches.Service.{
  BatchDraw, create_batch, update, archive, add_document, remove_document,
}
use workflow_forge.Base.{
  ℕ, ◌≡◌, ◌∙◌, Option, refl, ok, ok-transport, >>=-eq-ok, true, raise_if, arith, any, ◌==◌,
}
use workflow_forge.Batches.Store.{
  insert_membership, set_batch, insert_batch, BatchStore, append_batch_event, delete_membership,
  is_target, is_membership, written,
}
use workflow_forge.Transaction.Growth.{IsPreorder, run-Grows}
use workflow_forge.Authorization.Context.{TenantContext}
use workflow_forge.Rows.Owned.{SameRows, SameRows-cons, SameRows-replace_where, SameRows-drop_where}
use workflow_forge.Audit.{AuditEvent, append}
use workflow_forge.Text.{Text}
use workflow_forge.Transaction.{run}

-- Both states agree on the rows of the organizations other than `o`.
pub record SameElsewhere (o : ℕ) (s s' : BatchStore) : Type 0 where
  pub batches : SameRows (λ (x : Batch). x.organization_id) o s.batches s'.batches
  pub memberships :
      SameRows (λ (x : BatchDocument). x.organization_id) o s.memberships s'.memberships

SameElsewhere-IsPreorder : (o : ℕ) → IsPreorder (SameElsewhere o)
SameElsewhere-IsPreorder o = record {
  reflexive = λ s. record { batches = λ p n. refl; memberships = λ p n. refl };
  transitive = λ h k. record {
    batches = λ p n. k.batches p n ∙ h.batches p n;
    memberships = λ p n. k.memberships p n ∙ h.memberships p n;
  };
}

module _ (o : ℕ) where
  insert_batch-SameElsewhere :
      (x : Batch)
      → x.organization_id ≡ o
      → (s s' : BatchStore) → insert_batch x s ≡ ok s'
      → SameElsewhere o s s'
  unfolding insert_batch
  insert_batch-SameElsewhere x own s s' h =
      let (_, _, h) = >>=-eq-ok (raise_if (any (λ y. y.id == x.id) s.batches) _) _ h in
      ok-transport (SameElsewhere o s) h (record {
        batches = SameRows-cons (λ y. y.organization_id) o x s.batches own;
        memberships = λ p n. refl;
      })

  set_batch-SameElsewhere :
      (x : Batch)
      → x.organization_id ≡ o
      → (s s' : BatchStore) → set_batch x s ≡ ok s'
      → SameElsewhere o s s'
  unfolding set_batch
  set_batch-SameElsewhere x own s s' h = ok-transport (SameElsewhere o s) h (record {
    batches =
        SameRows-replace_where (λ y. y.organization_id) o (is_target x) (written x) (λ y. refl)
          (λ y hit. target_own y hit) s.batches;
    memberships = λ p n. refl;
  })
    where
      target_own : (y : Batch) → is_target x y ≡ true → y.organization_id ≡ o
      target_own y hit = ground arith

  insert_membership-SameElsewhere :
      (x : BatchDocument)
      → x.organization_id ≡ o
      → (s s' : BatchStore) → insert_membership x s ≡ ok s'
      → SameElsewhere o s s'
  unfolding insert_membership
  insert_membership-SameElsewhere x own s s' h = ok-transport (SameElsewhere o s) h (record {
    batches = λ p n. refl;
    memberships = SameRows-cons (λ y. y.organization_id) o x s.memberships own;
  })

  delete_membership-SameElsewhere :
      (b d : ℕ) (s s' : BatchStore) → delete_membership o b d s ≡ ok s' → SameElsewhere o s s'
  unfolding delete_membership
  delete_membership-SameElsewhere b d s s' h = ok-transport (SameElsewhere o s) h (record {
    batches = λ p n. refl;
    memberships =
        SameRows-drop_where (λ y. y.organization_id) o (is_membership o b d)
          (λ y hit. member_own y hit) s.memberships;
  })
    where
      member_own : (y : BatchDocument) → is_membership o b d y ≡ true → y.organization_id ≡ o
      member_own y hit = ground arith

  append_batch_event-SameElsewhere :
      (e : AuditEvent) (s s' : BatchStore) → append_batch_event e s ≡ ok s' → SameElsewhere o s s'
  unfolding append_batch_event
  append_batch_event-SameElsewhere e s s' h =
      let (_, _, h) = >>=-eq-ok (append e s.events) _ h in
      ok-transport (SameElsewhere o s) h
        (record { batches = λ p n. refl; memberships = λ p n. refl })

  Statements-SameElsewhere : Statements (SameElsewhere o) o
  Statements-SameElsewhere = record {
    preorder = SameElsewhere-IsPreorder o;
    inserts_batch = insert_batch-SameElsewhere;
    sets_batch = set_batch-SameElsewhere;
    inserts_membership = insert_membership-SameElsewhere;
    deletes_membership = delete_membership-SameElsewhere;
    appends_event = append_batch_event-SameElsewhere;
  }

-- Whether a call returns or raises, the rows of every organization other than the tenant's stay as
-- they were in the tables of batches and of their documents: for the creation, the update and the
-- archiving of a batch, and for the adding and the removal of a document.
pub batch_isolation :
    (draw : BatchDraw) (tenant : TenantContext) (i v document : ℕ) (name : Text)
    (n d r : Option Text) (s : BatchStore)
    → SameElsewhere tenant.organization_id s (run (create_batch draw tenant name d r) s).1
      × SameElsewhere tenant.organization_id s (run (update draw tenant i v n d r) s).1
      × SameElsewhere tenant.organization_id s (run (archive draw tenant i v) s).1
      × SameElsewhere tenant.organization_id s (run (add_document draw tenant i document) s).1
      × SameElsewhere tenant.organization_id s (run (remove_document draw tenant i document) s).1
batch_isolation draw tenant i v document name n d r s =
    let R = SameElsewhere tenant.organization_id in
    let P = SameElsewhere-IsPreorder tenant.organization_id in
    let S = Statements-SameElsewhere tenant.organization_id in
    (
      run-Grows P _ s (Grows-create_batch R draw tenant S name d r),
      run-Grows P _ s (Grows-update R draw tenant S i v n d r),
      run-Grows P _ s (Grows-archive R draw tenant S i v),
      run-Grows P _ s (Grows-add_document R draw tenant S i document),
      run-Grows P _ s (Grows-remove_document R draw tenant S i document),
    )
