-- ===== src/Server/Memory/History/Retention.antt =====
-- Cutting a changelog from the front loses only entries that `min_seq` announces as lost.
use mathlib.Core.List.{append_assoc}
use typescript_tetherdb.Base.{
  ℕ, zero, suc, ◌≤◌, ◌<◌, ◌≡◌, refl, sym, ◌∙◌, ap, subst, List, [], ◌∷◌, ◌++◌, arith, filter,
  filter-append, take, take-append-drop, length, drop,
}
use typescript_tetherdb.Server.Memory.{StatePartition, first_seq}
use typescript_tetherdb.Server.Memory.Apply.Log.{Ascending}
use typescript_tetherdb.Server.Memory.History.{later_than}
use typescript_tetherdb.Server.Security.{InternalChangeRecord}

module _ {V : Type 0} where
  abbrev pub AllBelow : ℕ → List (InternalChangeRecord V) → Type 0
  AllBelow n [] = Unit
  AllBelow n (c ∷ cs) = (c.seq < n) × AllBelow n cs

  AllBelow-mono :
      (m n : ℕ) (cs : List (InternalChangeRecord V)) → m ≤ n → AllBelow m cs → AllBelow n cs
  AllBelow-mono m n [] h a = tt
  AllBelow-mono m n (c ∷ cs) h a = (omega arith, AllBelow-mono m n cs h a.1)

  -- What stands before an entry has smaller numbers.
  pub AllBelow-of_Ascending :
      (lo hi : ℕ) (xs : List (InternalChangeRecord V)) (c : InternalChangeRecord V)
      (ys : List (InternalChangeRecord V))
      → Ascending lo hi (xs ++ c ∷ ys)
      → (lo < c.seq) × AllBelow c.seq xs
  AllBelow-of_Ascending lo hi [] c ys a = (a.0, tt)
  AllBelow-of_Ascending lo hi (x ∷ xs) c ys a =
      let (above, below) = AllBelow-of_Ascending x.seq hi xs c ys a.1 in
      (omega (arith, a.0), (above, below))

  -- `full` is the whole history of a partition, `p` what is left of it.
  pub record Retains (full : List (InternalChangeRecord V)) (p : StatePartition V) : Type 0 where
    pub dropped : List (InternalChangeRecord V)
    pub split : full ≡ dropped ++ p.changelog
    pub announced : AllBelow p.min_seq dropped

  later_dropped :
      (from_seq n : ℕ) (cs : List (InternalChangeRecord V))
      → AllBelow n cs
      → n ≤ suc from_seq
      → filter (later_than from_seq) cs ≡ []
  unfolding filter
  later_dropped from_seq n [] a h = refl
  later_dropped from_seq n (c ∷ cs) a h = ground (arith, later_dropped from_seq n cs a.1 h)

  -- Whoever has seen everything below `min_seq` misses nothing that was dropped.
  pub Retains-later :
      (full : List (InternalChangeRecord V)) (p : StatePartition V) (from_seq : ℕ)
      → Retains full p
      → p.min_seq ≤ suc from_seq
      → filter (later_than from_seq) full ≡ filter (later_than from_seq) p.changelog
  Retains-later full p from_seq r h =
      ap (filter (later_than from_seq)) r.split
      ∙ filter-append (later_than from_seq) r.dropped p.changelog
      ∙ ap (λ xs. xs ++ filter (later_than from_seq) p.changelog)
          (later_dropped from_seq p.min_seq r.dropped r.announced h)

  -- To keep a part of the history that begins with an entry, and to announce that entry's number.
  pub Retains-cut :
      (lo hi : ℕ) (full : List (InternalChangeRecord V)) (p q : StatePartition V)
      (gone : List (InternalChangeRecord V)) (c : InternalChangeRecord V)
      (ys : List (InternalChangeRecord V))
      → Ascending lo hi full
      → Retains full p
      → p.changelog ≡ gone ++ c ∷ ys
      → q.changelog ≡ c ∷ ys
      → q.min_seq ≡ c.seq
      → Retains full q
  Retains-cut lo hi full p q gone c ys a r e f m =
      let whole : full ≡ (r.dropped ++ gone) ++ c ∷ ys =
        r.split ∙ ap (λ xs. r.dropped ++ xs) e ∙ sym (append_assoc r.dropped gone (c ∷ ys)) in
      record {
        dropped = r.dropped ++ gone;
        split = rw f whole;
        announced =
            rw m
              (AllBelow-of_Ascending lo hi (r.dropped ++ gone) c ys
                (subst (Ascending lo hi) whole a)).1;
      }

  drop_cons :
      (n : ℕ) (xs : List (InternalChangeRecord V))
      → n < length xs
      → (c : InternalChangeRecord V) × (ys : List (InternalChangeRecord V)) × (drop n xs ≡ c ∷ ys)
  drop_cons zero (x ∷ xs) h = (x, xs, refl)
  drop_cons (suc n) (x ∷ xs) h = drop_cons n xs (omega arith)
  drop_cons n [] h = absurd (omega arith)

  -- The last entries of the changelog are kept, at least one of them.
  pub Retains-drop :
      (lo hi n : ℕ) (full : List (InternalChangeRecord V)) (p : StatePartition V)
      → n < length p.changelog
      → Ascending lo hi full
      → Retains full p
      → Retains full (record p {
        changelog = drop n p.changelog;
        min_seq = first_seq (drop n p.changelog) p.min_seq;
      })
  Retains-drop lo hi n full p h a r =
      let (c, ys, e) = drop_cons n p.changelog h in
      Retains-cut lo hi full p _ (take n p.changelog) c ys a r
        (sym (take-append-drop n p.changelog) ∙ ap (λ xs. take n p.changelog ++ xs) e) e
        (ap (λ xs. first_seq xs p.min_seq) e)

  -- New entries go to the end of the history and of what is left of it.
  pub Retains-append :
      (full entries : List (InternalChangeRecord V)) (p q : StatePartition V)
      → Retains full p
      → q.changelog ≡ p.changelog ++ entries
      → p.min_seq ≤ q.min_seq
      → Retains (full ++ entries) q
  Retains-append full entries p q r e h = record {
    dropped = r.dropped;
    split =
        ap (λ xs. xs ++ entries) r.split
        ∙ append_assoc r.dropped p.changelog entries
        ∙ ap (λ xs. r.dropped ++ xs) (sym e);
    announced = AllBelow-mono p.min_seq q.min_seq r.dropped h r.announced;
  }
