-- ===== src/Server/Memory/Apply/Log.antt =====
-- Changelogs whose sequence numbers ascend.
use typescript_tetherdb.Base.{
  ℕ, zero, suc, ◌≤◌, ◌<◌, Bool, List, [], ◌∷◌, ◌++◌, arith, filter, drop, inl, inr, Bool-cases,
}
use typescript_tetherdb.Server.Security.{InternalChangeRecord}

module _ {V : Type 0} where
  -- Every number is above `lo` and at most `hi`, and each is above the one before.
  abbrev pub Ascending : ℕ → ℕ → List (InternalChangeRecord V) → Type 0
  Ascending lo hi [] = lo ≤ hi
  Ascending lo hi (c ∷ cs) = (lo < c.seq) × Ascending c.seq hi cs

  pub Ascending-le : (lo hi : ℕ) (cs : List (InternalChangeRecord V)) → Ascending lo hi cs → lo ≤ hi
  Ascending-le lo hi [] a = a
  Ascending-le lo hi (c ∷ cs) a = omega (arith, Ascending-le c.seq hi cs a.1)

  pub Ascending-append :
      (lo mid hi : ℕ) (xs ys : List (InternalChangeRecord V))
      → Ascending lo mid xs
      → Ascending mid hi ys
      → Ascending lo hi (xs ++ ys)
  Ascending-append lo mid hi [] [] a b = omega arith
  Ascending-append lo mid hi [] (y ∷ ys) a b = (omega arith, b.1)
  Ascending-append lo mid hi (x ∷ xs) ys a b = (a.0, Ascending-append x.seq mid hi xs ys a.1 b)

  -- The range may be widened.
  pub Ascending-mono :
      (lo lo' hi hi' : ℕ) (cs : List (InternalChangeRecord V))
      → lo' ≤ lo
      → hi ≤ hi'
      → Ascending lo hi cs
      → Ascending lo' hi' cs
  Ascending-mono lo lo' hi hi' [] l h a = omega arith
  Ascending-mono lo lo' hi hi' (c ∷ cs) l h a =
      (omega arith, Ascending-mono c.seq c.seq hi hi' cs (omega arith) h a.1)

  pub Ascending-filter :
      (p : InternalChangeRecord V → Bool) (lo hi : ℕ) (cs : List (InternalChangeRecord V))
      → Ascending lo hi cs
      → Ascending lo hi (filter p cs)
  unfolding filter
  Ascending-filter p lo hi [] a = a
  Ascending-filter p lo hi (c ∷ cs) a = elim (Bool-cases (p c)) [
    | inl keep ↦ rw keep (a.0, Ascending-filter p c.seq hi cs a.1)
    | inr skip ↦ rw skip (
        Ascending-mono c.seq lo hi hi (filter p cs) (omega arith) (omega arith)
          (Ascending-filter p c.seq hi cs a.1))
  ]

  pub Ascending-drop :
      (n lo hi : ℕ) (cs : List (InternalChangeRecord V))
      → Ascending lo hi cs
      → Ascending lo hi (drop n cs)
  Ascending-drop zero lo hi cs a = a
  Ascending-drop (suc n) lo hi [] a = a
  Ascending-drop (suc n) lo hi (c ∷ cs) a =
      Ascending-mono c.seq lo hi hi (drop n cs) (omega arith) (omega arith)
        (Ascending-drop n c.seq hi cs a.1)
