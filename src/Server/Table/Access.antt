-- ===== src/Server/Table/Access.antt =====
-- Who may read and write what.
use typescript_tetherdb.Base.{
  ℕ, ◌≡◌, refl, ◌↔◌, Text, true, false, Option, none, some, arith, inl, inr, Bool-cases,
  if◌then◌else◌,
}
use typescript_tetherdb.Shared.Types.{
  OperationType, put, delete, Permission, everybody, authenticated, owner,
}
use typescript_tetherdb.Server.Errors.{ok, throw, forbidden}
use typescript_tetherdb.Server.User.{
  User, anonymous, admin, account, user_id, is_authenticated, is_admin,
}
use typescript_tetherdb.Server.Security.{InternalStoredRecord, rule_permits, is_permission_allowed}
use typescript_tetherdb.Server.Table.{
  Table, is_private, can_access, can_apply, can_create, can_read, can_update, can_delete,
  change_permitted, assert_can_apply_change,
}

-- Whom a rule admits: to a record with its owner, or (`none`) to the table as a whole, where the
-- owner's rule admits every account.
pub data Admits (rule : Permission) (user : User) (subject : Option (Option Text)) : Type 0 where
  administrator : user ≡ admin → Admits rule user subject
  everyone : rule ≡ everybody → Admits rule user subject
  any_account : rule ≡ authenticated → is_authenticated user ≡ true → Admits rule user subject
  table_account :
      rule ≡ owner → is_authenticated user ≡ true → subject ≡ none → Admits rule user subject
  record_owner :
      (id name : Text) (created_at : ℕ)
      → rule ≡ owner
      → user ≡ account id name created_at
      → subject ≡ some (some id)
      → Admits rule user subject

abbrev pub subject_of : {V : Type 0} → Option (InternalStoredRecord V) → Option (Option Text)
subject_of none = none
subject_of (some r) = some r.user_id

module _ {V : Type 0} where
  can_apply→Admits :
      (rule : Permission) (user : User) (r : Option (InternalStoredRecord V))
      → can_apply rule user r ≡ true
      → Admits rule user (subject_of r)
  unfolding can_apply can_access is_permission_allowed rule_permits
  can_apply→Admits rule admin r h = Admits.administrator refl
  can_apply→Admits everybody user r h = Admits.everyone refl
  can_apply→Admits authenticated (account i n c) r h = Admits.any_account refl refl
  can_apply→Admits owner (account i n c) none h = Admits.table_account refl refl refl
  can_apply→Admits owner (account i n c) (some r) h =
      Admits.record_owner i n c refl refl (ground arith)
  can_apply→Admits rule user none h = ground arith
  can_apply→Admits rule user (some r) h = ground arith

  Admits→can_apply :
      (rule : Permission) (user : User) (r : Option (InternalStoredRecord V))
      → Admits rule user (subject_of r)
      → can_apply rule user r ≡ true
  unfolding can_apply can_access is_permission_allowed rule_permits
  Admits→can_apply rule user none (Admits.administrator e) = ground arith
  Admits→can_apply rule user (some r) (Admits.administrator e) = ground arith
  Admits→can_apply rule user none (Admits.everyone e) = ground arith
  Admits→can_apply rule user (some r) (Admits.everyone e) = ground arith
  Admits→can_apply rule user none (Admits.any_account e a) = ground arith
  Admits→can_apply rule user (some r) (Admits.any_account e a) = ground arith
  Admits→can_apply rule user none (Admits.table_account e a n) = ground arith
  Admits→can_apply rule user (some r) (Admits.table_account e a n) = ground arith
  Admits→can_apply rule user none (Admits.record_owner i n c e u s) = ground arith
  Admits→can_apply rule user (some r) (Admits.record_owner i n c e u s) = ground arith

  -- Access to a record, or to a table as a whole, is given exactly to those whom the rule admits.
  pub can_apply_iff :
      (rule : Permission) (user : User) (r : Option (InternalStoredRecord V))
      → (can_apply rule user r ≡ true) ↔ Admits rule user (subject_of r)
  can_apply_iff rule user r = (can_apply→Admits rule user r, Admits→can_apply rule user r)

-- The rule that a change falls under: a delete under the delete rule, a put over a live record
-- under the update rule, and a put over nothing or over a tombstone under the create rule.
abbrev pub rule_for :
    {V : Type 0} → Table V → OperationType → Option (InternalStoredRecord V) → Permission
rule_for t delete existing = t.settings.permissions.delete
rule_for t put none = t.settings.permissions.create
rule_for t put (some r) =
    if r.deleted then t.settings.permissions.create else t.settings.permissions.update

-- What the rule is asked about: the record, or the table where a put creates.
abbrev pub target_for :
    {V : Type 0} → OperationType → Option (InternalStoredRecord V) → Option (InternalStoredRecord V)
target_for delete existing = existing
target_for put none = none
target_for put (some r) = if r.deleted then none else some r

module _ {V : Type 0} (t : Table V) (user : User) where
  assert_by_rule :
      (op : OperationType) (r : Option (InternalStoredRecord V))
      → assert_can_apply_change t user op r
        ≡ (if can_apply (rule_for t op r) user (target_for op r) then ok tt else throw forbidden)
  unfolding assert_can_apply_change change_permitted can_create can_update can_delete can_apply
      can_access is_permission_allowed
  assert_by_rule delete none = ground arith
  assert_by_rule delete (some r) = ground arith
  assert_by_rule put none = ground arith
  assert_by_rule put (some r) = elim (Bool-cases r.deleted) [
    | inl gone ↦ rw gone (ground arith)
    | inr live ↦ rw live (ground arith)
  ]

  -- A change is let through exactly if its rule admits the user, and is refused as forbidden
  -- otherwise.
  pub assert_can_apply_change_iff :
      (op : OperationType) (r : Option (InternalStoredRecord V))
      → ((assert_can_apply_change t user op r ≡ ok tt)
          ↔ Admits (rule_for t op r) user (subject_of (target_for op r)))
        × ((assert_can_apply_change t user op r ≡ throw forbidden)
            ↔ (¬ Admits (rule_for t op r) user (subject_of (target_for op r))))
  assert_can_apply_change_iff op r = rw assert_by_rule (
    (λ h. iff.0 (ground arith), λ h. ground (arith, iff.1 h)),
    (
      λ h k. ground (arith, iff.1 k),
      λ h. ground (arith, λ (e : can_apply rule user target ≡ true). h (iff.0 e)),
    ),
  )
    where
      rule : Permission
      rule = rule_for t op r

      target : Option (InternalStoredRecord V)
      target = target_for op r

      iff : (can_apply rule user target ≡ true) ↔ Admits rule user (subject_of target)
      iff = can_apply_iff rule user target

  -- Whoever may read one record of a table may read the table, so that no test on the table hides
  -- a record that the user may see.
  pub can_read-table :
      (r : InternalStoredRecord V) → can_read t user (some r) ≡ true → can_read t user none ≡ true
  unfolding can_read can_apply can_access is_permission_allowed rule_permits
  can_read-table r h = ground arith

  -- In a private table a user other than the administrator reads only what is stored under the
  -- user's own id.
  pub can_read_private :
      (r : InternalStoredRecord V)
      → is_private t ≡ true
      → is_admin user ≡ false
      → can_read t user (some r) ≡ true
      → (is_authenticated user ≡ true) × (r.user_id ≡ some (user_id user))
  unfolding is_private can_read can_apply is_permission_allowed rule_permits
  can_read_private r p a h = ground arith

module _ {V : Type 0} where
  can_apply_guest :
      (rule : Permission) (user : User) (r : Option (InternalStoredRecord V))
      → can_apply rule anonymous r ≡ true
      → can_apply rule user r ≡ true
  unfolding can_apply can_access is_permission_allowed rule_permits
  can_apply_guest rule user none h = ground arith
  can_apply_guest rule user (some r) h = ground arith

  -- A change that a guest may make, every user may make.
  pub assert_can_apply_change_guest :
      (t : Table V) (user : User) (op : OperationType) (r : Option (InternalStoredRecord V))
      → assert_can_apply_change t anonymous op r ≡ ok tt
      → assert_can_apply_change t user op r ≡ ok tt
  assert_can_apply_change_guest t user op r h = ground (
    arith,
    assert_by_rule t anonymous op r,
    assert_by_rule t user op r,
    can_apply_guest (rule_for t op r) user (target_for op r),
  )
