-- ===== src/Server/Memory/History/Deletion.antt =====
-- What deleting a table does to the changelogs.
use typescript_tetherdb.Base.{
  ℕ, refl, ◌≡◌, sym, ◌∙◌, ap, subst, Text, text_key, same_self, same, eq_of_same, true, false,
  if◌then◌else◌, Bool, none, List, [], ◌∷◌, arith, get_or, filter, filter-append, inl, inr,
  Bool-cases,
}
use typescript_tetherdb.Base.Dict
use typescript_tetherdb.Base.Dict.{Dict, get-map_values, get-delete}
use typescript_tetherdb.Server.Errors.{ok}
use typescript_tetherdb.Server.Memory.{MemoryStorage, StatePartition, user_state, empty_partition}
use typescript_tetherdb.Server.Memory.Apply.Log.{Ascending-filter}
use typescript_tetherdb.Server.Memory.History.CatchUp.{Histories, IsRecorded}
use typescript_tetherdb.Server.Memory.History.Retention.{Retains, AllBelow}
use typescript_tetherdb.Server.Memory.Tables.{without_table, drop_table, delete_table}
use typescript_tetherdb.Server.Security.{InternalChangeRecord}
use typescript_tetherdb.Server.Validate.{validate_table_name}

not_both :
    (table other name : Text)
    → same table name ≡ true
    → same other name ≡ false
    → same table other ≡ false
not_both table other name hit e = elim (Bool-cases (same table other)) [
  | inr n ↦ n
  | inl both ↦
      let agree : other ≡ name = sym (eq_of_same table other both) ∙ eq_of_same table name hit in
      let own : same other name ≡ true = ap (same other) (sym agree) ∙ same_self other in
      absurd (ground (arith, own, e))
]

module _ {V : Type 0} where
  AllBelow-filter :
      (p : InternalChangeRecord V → Bool) (n : ℕ) (cs : List (InternalChangeRecord V))
      → AllBelow n cs
      → AllBelow n (filter p cs)
  unfolding filter
  AllBelow-filter p n [] a = tt
  AllBelow-filter p n (c ∷ cs) a = elim (Bool-cases (p c)) [
    | inl keep ↦ rw keep (a.0, AllBelow-filter p n cs a.1)
    | inr skip ↦ rw skip (AllBelow-filter p n cs a.1)
  ]

  drop_table-Retains :
      (name : Text) (full : List (InternalChangeRecord V)) (p : StatePartition V)
      → Retains full p
      → Retains (without_table name full) (drop_table name p)
  unfolding drop_table
  drop_table-Retains name full p r = record {
    dropped = without_table name r.dropped;
    split = ap (without_table name) r.split ∙ filter-append _ r.dropped p.changelog;
    announced = AllBelow-filter _ p.min_seq r.dropped r.announced;
  }

  abbrev pub is_of : Text → InternalChangeRecord V → Bool
  is_of name c = same c.table name

  -- A log without the entries of a table.
  abbrev pub purge : Text → List (InternalChangeRecord V) → List (InternalChangeRecord V)
  purge name [] = []
  purge name (c ∷ cs) = if is_of name c then purge name cs else c ∷ purge name cs

  without_table-purge :
      (name : Text) (cs : List (InternalChangeRecord V)) → without_table name cs ≡ purge name cs
  unfolding filter
  without_table-purge name [] = refl
  without_table-purge name (c ∷ cs) = ground (arith, without_table-purge name cs)

  -- The histories without the entries of a table.
  abbrev pub forget_table : Text → Histories V → Histories V
  forget_table name h = record { shared = purge name h.shared; user = λ id. purge name (h.user id) }

  -- A log has nothing more of a table, and of every other table what it had, in its order.
  abbrev pub IsPurged :
      Text → List (InternalChangeRecord V) → List (InternalChangeRecord V) → Type 0
  IsPurged name before after =
      (other : Text)
      → filter (is_of other) after ≡ (if same other name then [] else filter (is_of other) before)

  purge_own :
      (name : Text) (cs : List (InternalChangeRecord V)) → filter (is_of name) (purge name cs) ≡ []
  unfolding filter
  purge_own name [] = refl
  purge_own name (c ∷ cs) = ground (arith, purge_own name cs)

  purge_other :
      (name other : Text) (cs : List (InternalChangeRecord V))
      → same other name ≡ false
      → filter (is_of other) (purge name cs) ≡ filter (is_of other) cs
  unfolding filter
  purge_other name other [] e = refl
  purge_other name other (c ∷ cs) e = elim (Bool-cases (same c.table name)) [
    | inl hit ↦ rw (hit, not_both c.table other name hit e) (purge_other name other cs e)
    | inr miss ↦ ground (arith, purge_other name other cs e)
  ]

  without_table-IsPurged :
      (name : Text) (cs : List (InternalChangeRecord V)) → IsPurged name cs (without_table name cs)
  without_table-IsPurged name cs other = elim (Bool-cases (same other name)) [
    | inl own ↦ rw (own, without_table-purge name cs, eq_of_same other name own) (purge_own name cs)
    | inr e ↦ rw (e, without_table-purge name cs) (purge_other name other cs e)
  ]

  forget_by_filter : Text → Histories V → Histories V
  forget_by_filter name h = record {
    shared = without_table name h.shared;
    user = λ id. without_table name (h.user id);
  }

  forget_by_filter_lem :
      (name : Text) (h : Histories V) → forget_by_filter name h ≡ forget_table name h
  unfolding forget_by_filter
  forget_by_filter_lem name h = λ i. record {
    shared = without_table-purge name h.shared i;
    user = λ id. without_table-purge name (h.user id) i;
  }

  user_state-drop :
      (name id : Text) (states : Dict Text (StatePartition V))
      → get_or (Dict.get id (Dict.map_values (drop_table name) states)) empty_partition
        ≡ drop_table name (get_or (Dict.get id states) empty_partition)
  unfolding drop_table filter Dict.delete
  user_state-drop name id states = ground (arith, get-map_values (drop_table name) id states)

  dropped : Text → MemoryStorage V → MemoryStorage V
  dropped name s = record s {
    tables = Dict.delete name s.tables;
    shared_state = drop_table name s.shared_state;
    user_states = Dict.map_values (drop_table name) s.user_states;
  }

  dropped-IsRecorded :
      (name : Text) (h : Histories V) (s : MemoryStorage V)
      → IsRecorded h s
      → IsRecorded (forget_by_filter name h) (dropped name s)
  unfolding dropped forget_by_filter
  dropped-IsRecorded name h s r = record {
    shared_ascending = Ascending-filter _ 0 s.global_seq h.shared r.shared_ascending;
    shared_retained = drop_table-Retains name h.shared s.shared_state r.shared_retained;
    user_ascending = λ id. Ascending-filter _ 0 s.global_seq (h.user id) (r.user_ascending id);
    user_retained = λ id.
        subst (Retains (without_table name (h.user id)))
          (sym (user_state-drop name id s.user_states))
          (drop_table-Retains name (h.user id) (user_state id s) (r.user_retained id));
  }

  -- What a state is once a table is deleted.
  abbrev pub IsDeleted : Text → Histories V → MemoryStorage V → MemoryStorage V → Type 0
  IsDeleted name h s s' =
      (Dict.get name s'.tables ≡ none)
      × IsRecorded (forget_table name h) s'
      × IsPurged name s.shared_state.changelog s'.shared_state.changelog
      × ((id : Text) → IsPurged name (user_state id s).changelog (user_state id s').changelog)

  dropped-IsDeleted :
      (name : Text) (h : Histories V) (s : MemoryStorage V)
      → IsRecorded h s
      → IsDeleted name h s (dropped name s)
  unfolding dropped drop_table
  dropped-IsDeleted name h s r = (
    ground (arith, get-delete name name s.tables, same_self name),
    subst (λ k. IsRecorded k (dropped name s)) (forget_by_filter_lem name h)
        (dropped-IsRecorded name h s r),
    without_table-IsPurged name s.shared_state.changelog,
    λ id.
        subst (λ p. IsPurged name (user_state id s).changelog p.changelog)
          (sym (user_state-drop name id s.user_states))
          (without_table-IsPurged name (user_state id s).changelog),
  )

  -- Deleting a table removes it. Every changelog loses the table's entries and no other, the rest staying
  -- in order, and the changelogs become what is left of the histories without the table's entries.
  pub delete_table-IsRecorded :
      (h : Histories V) (name : Text) (existed : Bool) (s s' : MemoryStorage V)
      → delete_table name s ≡ ok (existed, s')
      → IsRecorded h s
      → IsDeleted name h s s'
  unfolding delete_table validate_table_name dropped
  delete_table-IsRecorded h name existed s s' e r =
      let done : dropped name s ≡ s' = ground arith in
      subst (IsDeleted name h s) done (dropped-IsDeleted name h s r)
