-- ===== src/Batches/Service/NoLostUpdate.antt =====
-- Optimistic locking of batches over sequences of calls by all users.
use workflow_forge.Batches.Service
use workflow_forge.Batches.Batch.{Batch}
use workflow_forge.Batches.Service.Versions.{Versioned, batch_versions, refused_run}
use workflow_forge.Batches.Service.Effects.{
  Statements, Grows-update, Grows-archive, Grows-create_batch, Grows-add_document,
  Grows-remove_document,
}
use workflow_forge.Rows.Versions.{
  Advanced, Advanced-refl, Advanced-transitive, Advanced-cons, Advanced-replace_where, first-fails,
}
use workflow_forge.Base.{
  List, Option, ℕ, ◌≡◌, ◌∷◌, ok, true, ok-transport, [], is_ok, >>=-eq-ok, ◌≤◌, false, ◌==◌, arith,
  some-injective, raise_if, sym, ◌∙◌, refl, any, ap, raise_if-eq-ok,
}
use workflow_forge.Batches.Store.{
  insert_membership, set_batch, insert_batch, BatchStore, is_batch, delete_membership,
  append_batch_event, is_target, written, find_batch,
}
use workflow_forge.Transaction.Growth.{IsPreorder, run-Grows}
use workflow_forge.Batches.Service.{BatchDraw, create_batch, add_document, remove_document}
use workflow_forge.Authorization.Context.{TenantContext}
use workflow_forge.Text.{Text}
use workflow_forge.Transaction.{run, Action}
use workflow_forge.Audit.{append}

-- A call of the service that changes a batch
pub data BatchCall : Type 0 where
  update_call : (name description external_reference : Option Text) → BatchCall
  archive_call : BatchCall

abbrev pub perform : BatchCall → BatchDraw → TenantContext → (i v : ℕ) → Action BatchStore Batch
perform (update_call n d r) draw tenant i v = Service.update draw tenant i v n d r
perform archive_call draw tenant i v = Service.archive draw tenant i v

-- A call of the service that may change the tables
pub data BatchRequest : Type 0 where
  change_batch : BatchCall → (batch_id lock_version : ℕ) → BatchRequest
  create_batch_request : Text → Option Text → Option Text → BatchRequest
  add_document_request remove_document_request : (batch_id document_id : ℕ) → BatchRequest

-- The tables after a request by a tenant
unfoldable pub perform_request : BatchDraw → TenantContext → BatchRequest → BatchStore → BatchStore
perform_request draw tenant (change_batch c i v) s = (run (perform c draw tenant i v) s).1
perform_request draw tenant (create_batch_request n d r) s =
    (run (create_batch draw tenant n d r) s).1
perform_request draw tenant (add_document_request i d) s = (run (add_document draw tenant i d) s).1
perform_request draw tenant (remove_document_request i d) s =
    (run (remove_document draw tenant i d) s).1

-- Requests one after the other, each with its tenant and what it draws
unfoldable pub perform_requests :
    List (BatchDraw × TenantContext × BatchRequest) → BatchStore → BatchStore
perform_requests [] s = s
perform_requests (r ∷ rs) s =
    let (draw, tenant, request) = r in perform_requests rs (perform_request draw tenant request s)

abbrev version_of : Batch → ℕ
version_of x = x.lock_version

-- Whatever batch was found is found at the same version or a later one.
abbrev IsLater : BatchStore → BatchStore → Type 0
IsLater s s' = (o i : ℕ) → Advanced (is_batch o i) version_of s.batches s'.batches

IsLater-IsPreorder : IsPreorder IsLater
IsLater-IsPreorder = record {
  reflexive = λ s o i. Advanced-refl (is_batch o i) version_of s.batches;
  transitive = λ {a} {b} {c} h k o i.
      Advanced-transitive (is_batch o i) version_of a.batches b.batches c.batches (h o i) (k o i);
}

insert_batch-IsLater : (x : Batch) (s s' : BatchStore) → insert_batch x s ≡ ok s' → IsLater s s'
unfolding insert_batch
insert_batch-IsLater x s s' h =
    let (_, fresh, h) = >>=-eq-ok (raise_if (any (λ y. y.id == x.id) s.batches) _) _ h in
    let unused = raise_if-eq-ok (any (λ y. y.id == x.id) s.batches) _ fresh in
    ok-transport (IsLater s) h λ o i. Advanced-cons (is_batch o i) version_of x s.batches λ y found.
      let (hit, other) = first-fails (is_batch o i) (λ y. y.id == x.id) s.batches y found unused in
      apart o i y hit other
  where
    apart :
        (o i : ℕ) (y : Batch)
        → is_batch o i y ≡ true
        → (y.id == x.id) ≡ false
        → is_batch o i x ≡ false
    apart o i y hit other = ground arith

set_batch-IsLater : (x : Batch) (s s' : BatchStore) → set_batch x s ≡ ok s' → IsLater s s'
unfolding set_batch
set_batch-IsLater x s s' h = ok-transport (IsLater s) h λ o i.
    Advanced-replace_where (is_batch o i) version_of (is_target x) (written x) (λ y. refl)
      (λ y hit. up y hit) s.batches
  where
    up : (y : Batch) → is_target x y ≡ true → y.lock_version ≤ x.lock_version
    up y hit = ground arith

Statements-IsLater : (o : ℕ) → Statements IsLater o
unfolding insert_membership delete_membership append_batch_event
Statements-IsLater o = record {
  preorder = IsLater-IsPreorder;
  inserts_batch = λ x own. insert_batch-IsLater x;
  sets_batch = λ x own. set_batch-IsLater x;
  inserts_membership = λ x own s s' h. ok-transport (IsLater s) h (IsLater-IsPreorder.reflexive s);
  deletes_membership = λ b d s s' h. ok-transport (IsLater s) h (IsLater-IsPreorder.reflexive s);
  appends_event = λ e s s' h.
      let (_, _, h) = >>=-eq-ok (append e s.events) _ h in
      ok-transport (IsLater s) h (IsLater-IsPreorder.reflexive s);
}

perform_request-IsLater :
    (draw : BatchDraw) (tenant : TenantContext) (r : BatchRequest) (s : BatchStore)
    → IsLater s (perform_request draw tenant r s)
unfolding perform_request
perform_request-IsLater draw tenant (change_batch (update_call n d r) i v) s =
    run-Grows IsLater-IsPreorder _ s
      (Grows-update IsLater draw tenant (Statements-IsLater tenant.organization_id) i v n d r)
perform_request-IsLater draw tenant (change_batch archive_call i v) s =
    run-Grows IsLater-IsPreorder _ s
      (Grows-archive IsLater draw tenant (Statements-IsLater tenant.organization_id) i v)
perform_request-IsLater draw tenant (create_batch_request n d r) s =
    run-Grows IsLater-IsPreorder _ s
      (Grows-create_batch IsLater draw tenant (Statements-IsLater tenant.organization_id) n d r)
perform_request-IsLater draw tenant (add_document_request i d) s =
    run-Grows IsLater-IsPreorder _ s
      (Grows-add_document IsLater draw tenant (Statements-IsLater tenant.organization_id) i d)
perform_request-IsLater draw tenant (remove_document_request i d) s =
    run-Grows IsLater-IsPreorder _ s
      (Grows-remove_document IsLater draw tenant (Statements-IsLater tenant.organization_id) i d)

perform_requests-IsLater :
    (rs : List (BatchDraw × TenantContext × BatchRequest)) (s : BatchStore)
    → IsLater s (perform_requests rs s)
unfolding perform_requests
perform_requests-IsLater [] s = IsLater-IsPreorder.reflexive s
perform_requests-IsLater (r ∷ rs) s =
    let s' = perform_request r.0 r.1 r.2 s in
    IsLater-IsPreorder.transitive {a = s} {b = s'} {c = perform_requests rs s'}
      (perform_request-IsLater r.0 r.1 r.2 s) (perform_requests-IsLater rs s')

versions :
    (c : BatchCall) (draw : BatchDraw) (tenant : TenantContext) (i v : ℕ) (s : BatchStore)
    (y : Batch)
    → (run (perform c draw tenant i v) s).0 ≡ ok y
    → Versioned tenant i v s (run (perform c draw tenant i v) s).1 y
versions (update_call n d r) draw tenant i v s y h = (batch_versions draw tenant i v s y).0 n d r h
versions archive_call draw tenant i v s y h = (batch_versions draw tenant i v s y).1 h

-- No change of a batch is lost: an update or an archiving that returns has found the tenant's batch
-- at the version that it was called with, and not archived, and it stores what it returns, a
-- validated batch of the next version; and after it and any further requests, of whatever tenants
-- and whether they return or raise, every update or archiving of the same batch that names the same
-- version raises, whoever of the organization calls.
pub no_lost_update :
    (c c' : BatchCall) (draw again : BatchDraw) (tenant other : TenantContext) (i v : ℕ)
    (rs : List (BatchDraw × TenantContext × BatchRequest)) (s : BatchStore) (y : Batch)
    → (run (perform c draw tenant i v) s).0 ≡ ok y
    → other.organization_id ≡ tenant.organization_id
    → Versioned tenant i v s (run (perform c draw tenant i v) s).1 y
      × (is_ok
            (run
              (perform c' again other i v)
              (perform_requests rs (run (perform c draw tenant i v) s).1)).0
          ≡ false)
no_lost_update c c' draw again tenant other i v rs s y h same =
    let s' = (run (perform c draw tenant i v) s).1 in
    let s'' = perform_requests rs s' in
    let one = versions c draw tenant i v s y h in
    let (x, x_found, up) = perform_requests-IsLater rs s' tenant.organization_id i _ one.stored in
    (
      one,
      refused_run (run (perform c' again other i v) s'').0 λ z k.
          let two = versions c' again other i v s'' z k in
          let row =
            some-injective
              (sym x_found ∙ ap (λ o. find_batch o i s''.batches) (sym same) ∙ two.found) in
          let version = ap (λ w. w.lock_version) row ∙ two.current in
          let next = one.next in absurd (omega (arith, version, next, up)),
    )
