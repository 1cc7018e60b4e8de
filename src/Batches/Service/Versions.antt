-- ===== src/Batches/Service/Versions.antt =====
-- What a change of a batch finds and stores.
use workflow_forge.Batches.Batch
use workflow_forge.Batches.Store.{
  find_batch, set_batch, append_batch_event, BatchStore, written, is_target, is_batch,
}
use workflow_forge.Batches.Service.{archive, update, BatchDraw, record_if, locked}
use workflow_forge.Base.{
  Result, ◌≡◌, ℕ, Bool, Option, ok, List, some, true, ◌+◌, is_ok, false, >>=-eq-ok, err, refl, sym,
  ◌∙◌, ap, subst, arith, ok-injective,
}
use workflow_forge.Authorization.Context.{TenantContext}
use workflow_forge.Batches.Repository.{update_batch}
use workflow_forge.Transaction.{run, Tx, ◌>>=◌, commit, pure, change}
use workflow_forge.Batches.Batch.Laws.{
  Change, apply, WellFormed, archiving, updating, change_effect,
}
use workflow_forge.Batches.Batch.{Batch, is_archived}
use workflow_forge.Audit.{AuditEvent, append}
use workflow_forge.Transaction.Returns.{
  lift-then, returned, change-returns, pure-returns, or_rollback-returns, commit-returns,
}
use workflow_forge.Text.{Text}
use workflow_forge.Authorization.Policy.{require}
use workflow_forge.Identity.Roles.{batch_write, batch_archive}
use workflow_forge.Transaction.Rules.{>>=-returns}
use workflow_forge.Time.{utc}
use workflow_forge.Batches.Service.Locking.{
  locked-returns, batch_from_record-eq-ok, find_batch-keys,
}
use workflow_forge.Rows.{replace_where}
use workflow_forge.Rows.Laws.{first-replace_where, first-satisfies}

record_if-returns :
    (b : Bool) (e : Result AuditEvent) (tx tx' : Tx BatchStore) {u : Unit {0}}
    → record_if b e tx ≡ (ok u, tx')
    → tx'.working.batches ≡ tx.working.batches
unfolding record_if append_batch_event
record_if-returns true e tx tx' h =
    let (event, _, h) = lift-then e _ h in
    let (s, s_eq, end) = change-returns (append_batch_event event) h in
    let (_, _, done) = >>=-eq-ok (append event tx.working.events) _ s_eq in cc
record_if-returns false e tx tx' h = let (_, same) = pure-returns tt h in cc

-- The tail that `update` and `archive` share.
saving-returns :
    (y z : Batch) (b : Bool) (e : Batch → Result AuditEvent) (tx tx' : Tx BatchStore)
    → (update_batch y >>= λ saved. record_if b (e saved) >>= λ _. commit >>= λ _. pure saved) tx
      ≡ (ok z, tx')
    → (z ≡ y) × (tx'.committed.batches ≡ replace_where (is_target y) (written y) tx.working.batches)
unfolding update_batch set_batch
saving-returns y z b e tx tx' h =
    let (saved, a, stored, h) = >>=-returns (update_batch y) _ tx h in
    let (_, c, wrote, kept) = >>=-returns (change (set_batch y)) (λ _. pure y) tx stored in
    let (s, s_ok, c_eq) = change-returns (set_batch y) wrote in
    let (saved_eq, a_eq) = pure-returns y kept in
    let (_, d, recorded, h) = >>=-returns (record_if b (e saved)) _ a h in
    let same = record_if-returns b (e saved) a d recorded in
    let (_, f, committed, h) = >>=-returns commit _ d h in
    let (z_eq, end) = pure-returns saved h in
    (
      z_eq ∙ saved_eq,
      ap (λ t. t.committed.batches) (end ∙ commit-returns d committed)
          ∙ same
          ∙ ap (λ t. t.working.batches) (a_eq ∙ c_eq)
          ∙ ap (λ s. s.batches) (sym (ok-injective s_ok)),
    )

find_batch-update :
    (o i : ℕ) (xs : List Batch) (row y : Batch)
    → find_batch o i xs ≡ some row
    → y.organization_id ≡ o
    → y.id ≡ i
    → y.lock_version ≡ row.lock_version + 1
    → find_batch o i (replace_where (is_target y) (written y) xs) ≡ some (written y row)
find_batch-update o i xs row y found a b c =
    first-replace_where (is_batch o i) (is_target y) (written y) (λ x. refl) xs row found
      (hit (first-satisfies (is_batch o i) xs row found))
  where
    hit : is_batch o i row ≡ true → is_target y row ≡ true
    hit e = ground arith

-- What a change of a batch that returns has found and stored.
pub record Versioned (tenant : TenantContext) (i v : ℕ) (s s' : BatchStore) (y : Batch)
    : Type 0 where
  pub row : Batch
  pub found : find_batch tenant.organization_id i s.batches ≡ some row
  pub current : row.lock_version ≡ v
  pub open_before : is_archived row.status ≡ false
  pub stored : find_batch tenant.organization_id i s'.batches ≡ some (written y row)
  pub next : y.lock_version ≡ v + 1
  pub formed : WellFormed y

versioned :
    (c : Change) (tenant : TenantContext) (i v : ℕ) (tx tx' : Tx BatchStore) (x y : Batch)
    (s' : BatchStore)
    → locked tenant i v tx ≡ (ok x, tx')
    → apply c x ≡ ok y
    → s'.batches ≡ replace_where (is_target y) (written y) tx'.working.batches
    → Versioned tenant i v tx.working s' y
versioned c tenant i v tx tx' x y s' lock made stored =
    let l = locked-returns tenant i v tx tx' x lock in
    let (id, org, status, version) = batch_from_record-eq-ok l.row x l.read in
    let (formed, mutable, y_id, y_org, _, y_version) = (change_effect c x).0 y made in
    let (row_org, row_id) =
      find_batch-keys tenant.organization_id i tx.working.batches l.row l.found in
    record {
      row = l.row;
      found = l.found;
      current = l.version;
      open_before = ap is_archived (sym status) ∙ mutable;
      stored =
          ap (find_batch tenant.organization_id i)
            (stored ∙ ap (λ t. replace_where (is_target y) (written y) t.working.batches) l.kept)
          ∙ find_batch-update tenant.organization_id i tx.working.batches l.row y l.found
              (y_org ∙ org ∙ row_org) (y_id ∙ id ∙ row_id) (y_version ∙ ap (λ n. n + 1) version);
      next = y_version ∙ ap (λ n. n + 1) (version ∙ l.version);
      formed = formed;
    }

update-Versioned :
    (draw : BatchDraw) (tenant : TenantContext) (i v : ℕ) (n d r : Option Text)
    (tx tx' : Tx BatchStore) (y : Batch)
    → update draw tenant i v n d r tx ≡ (ok y, tx')
    → Versioned tenant i v tx.working tx'.committed y
unfolding update
update-Versioned draw tenant i v n d r tx tx' y h =
    let (_, _, h) = lift-then (require tenant batch_write) _ h in
    let (x, a, lock, h) = >>=-returns (locked tenant i v) _ tx h in
    let (z, made, h) = lift-then (Batch.update x n d r tenant.user_id (utc draw.now)) _ h in
    let (y_eq, stored) = saving-returns z y draw.audited _ a tx' (or_rollback-returns _ h) in
    versioned (updating n d r tenant.user_id (utc draw.now)) tenant i v tx a x y tx'.committed lock
      (made ∙ ap ok (sym y_eq))
      (subst
        (λ w. tx'.committed.batches ≡ replace_where (is_target w) (written w) a.working.batches)
        (sym y_eq) stored)

archive-Versioned :
    (draw : BatchDraw) (tenant : TenantContext) (i v : ℕ) (tx tx' : Tx BatchStore) (y : Batch)
    → archive draw tenant i v tx ≡ (ok y, tx')
    → Versioned tenant i v tx.working tx'.committed y
unfolding archive
archive-Versioned draw tenant i v tx tx' y h =
    let (_, _, h) = lift-then (require tenant batch_archive) _ h in
    let (x, a, lock, h) = >>=-returns (locked tenant i v) _ tx h in
    let (z, made, h) = lift-then (Batch.archive x tenant.user_id (utc draw.now)) _ h in
    let (y_eq, stored) = saving-returns z y draw.audited _ a tx' h in
    versioned (archiving tenant.user_id (utc draw.now)) tenant i v tx a x y tx'.committed lock
      (made ∙ ap ok (sym y_eq))
      (subst
        (λ w. tx'.committed.batches ≡ replace_where (is_target w) (written w) a.working.batches)
        (sym y_eq) stored)

-- An update or an archiving that returns has found the tenant's batch at the version that it was
-- called with, and not archived; it stores what it returns, a validated batch of the next version.
pub batch_versions :
    (draw : BatchDraw) (tenant : TenantContext) (i v : ℕ) (s : BatchStore) (y : Batch)
    → ((n d r : Option Text)
        → (run (update draw tenant i v n d r) s).0 ≡ ok y
        → Versioned tenant i v s (run (update draw tenant i v n d r) s).1 y)
      × ((run (archive draw tenant i v) s).0 ≡ ok y
          → Versioned tenant i v s (run (archive draw tenant i v) s).1 y)
unfolding run
batch_versions draw tenant i v s y =
    let tx : Tx BatchStore = record { committed = s; working = s } in
    (
      λ n d r h.
          update-Versioned draw tenant i v n d r tx (update draw tenant i v n d r tx).1 y
            (returned _ h),
      λ h. archive-Versioned draw tenant i v tx (archive draw tenant i v tx).1 y (returned _ h),
    )

pub refused_run :
    {A : Type 0} (r : Result A) → ((a : A) → r ≡ ok a → true ≡ false) → is_ok r ≡ false
refused_run (ok a) k = k a refl
refused_run (err e) k = refl
