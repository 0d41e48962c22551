-- ===== src/Client/Sync/Lossless.antt =====
-- Over any steps of src/src/client/sync/sync.ts, a local change stays in the outbox until a batch that
-- it was sent in is acknowledged.
use typescript_tetherdb.Base.{
  ℕ, ◌≡◌, ◌⊎◌, inl, inr, sym, ap, ◌∙◌, Text, text_key, nat_key, Bool, true, none, some, List, [],
  arith, Bool-cases,
}
use typescript_tetherdb.Base.Dict
use typescript_tetherdb.Base.Dict.{Dict}
use typescript_tetherdb.Client.ObjectStore.{IsOrdered}
use typescript_tetherdb.Client.Storage.{OutboxEntry}
use typescript_tetherdb.Client.Sync.{Sync, may_push, start_push}
use typescript_tetherdb.Client.Sync.Outbox.{Extends, Extends-refl, Extends-trans, Extends-eq}
use typescript_tetherdb.Client.Sync.Kept.{
  WasSentIn, AreCurrent, AreOut, AreCurrent-later, AreOut-later,
}
use typescript_tetherdb.Shared.Types.{ChangeRecord}

module _ {V : Type 0} where
  -- What a push has read, and what its batch counts as pending, agrees with the outbox.
  pub record IsFaithful (s : Sync V) : Type 0 where
    pub ordered : IsOrdered s.storage.outbox
    pub fetched :
        (entries : List (ℕ × OutboxEntry V))
        → s.fetched ≡ some entries
        → AreCurrent s.storage.outbox entries
    pub pending :
        (batch_id : Text) (ids : List ℕ)
        → Dict.get batch_id s.pending_batches ≡ some ids
        → AreOut s.storage.outbox batch_id s.sent ids

  -- The entry went out in some batch.
  abbrev pub WasSent : OutboxEntry V → Sync V → Type 0
  WasSent e s = (batch_id : Text) × WasSentIn batch_id e.change s.sent

  -- Steps that neither push nor acknowledge.
  pub record IsQuiet (s s' : Sync V) : Type 0 where
    pub outbox : Extends s.storage.outbox s'.storage.outbox
    pub sent :
        (batch_id : Text) (c : ChangeRecord V)
        → WasSentIn batch_id c s.sent
        → WasSentIn batch_id c s'.sent
    pub fetched :
        (entries : List (ℕ × OutboxEntry V)) → s'.fetched ≡ some entries → s.fetched ≡ some entries
    pub pending :
        (batch_id : Text) (ids : List ℕ)
        → Dict.get batch_id s'.pending_batches ≡ some ids
        → Dict.get batch_id s.pending_batches ≡ some ids

  -- What every step keeps: the state stays faithful, what was sent stays noted, and an entry stays
  -- in the outbox unless it was sent.
  pub record IsLossless (s s' : Sync V) : Type 0 where
    pub faithful : IsFaithful s'
    pub sent :
        (batch_id : Text) (c : ChangeRecord V)
        → WasSentIn batch_id c s.sent
        → WasSentIn batch_id c s'.sent
    pub kept :
        (id : ℕ) (e : OutboxEntry V)
        → Dict.get id s.storage.outbox.entries ≡ some e
        → (Dict.get id s'.storage.outbox.entries ≡ some e) ⊎ WasSent e s'

  pub quiet-IsLossless : (s s' : Sync V) → IsQuiet s s' → IsFaithful s → IsLossless s s'
  quiet-IsLossless s s' q f = record {
    faithful = record {
      ordered = q.outbox.ordered f.ordered;
      fetched = λ entries e.
          AreCurrent-later s.storage.outbox s'.storage.outbox entries q.outbox.later
            (f.fetched entries (q.fetched entries e));
      pending = λ batch_id ids e.
          AreOut-later s.storage.outbox s'.storage.outbox batch_id s.sent s'.sent ids q.outbox.later
            (q.sent batch_id) (f.pending batch_id ids (q.pending batch_id ids e));
    };
    sent = q.sent;
    kept = λ id e g. inl (q.outbox.kept id e g);
  }

  pub IsLossless-trans : (a b c : Sync V) → IsLossless a b → IsLossless b c → IsLossless a c
  IsLossless-trans a b c h k = record {
    faithful = k.faithful;
    sent = λ id x g. k.sent id x (h.sent id x g);
    kept = λ id e g. elim (h.kept id e g) [
      | inl there ↦ k.kept id e there
      | inr (batch_id, w) ↦ inr (batch_id, k.sent batch_id e.change w)
    ];
  }

  pub IsQuiet-trans : (a b c : Sync V) → IsQuiet a b → IsQuiet b c → IsQuiet a c
  IsQuiet-trans a b c h k = record {
    outbox = Extends-trans a.storage.outbox b.storage.outbox c.storage.outbox h.outbox k.outbox;
    sent = λ id x g. k.sent id x (h.sent id x g);
    fetched = λ es g. h.fetched es (k.fetched es g);
    pending = λ id ids g. h.pending id ids (k.pending id ids g);
  }

  pub IsQuiet-refl : (s : Sync V) → IsQuiet s s
  IsQuiet-refl s = record {
    outbox = Extends-refl s.storage.outbox;
    sent = λ id x g. g;
    fetched = λ es g. g;
    pending = λ id ids g. g;
  }

  -- A state that differs in other fields only.
  pub alike :
      (s s' : Sync V)
      → s'.storage.outbox ≡ s.storage.outbox
      → s'.sent ≡ s.sent
      → s'.fetched ≡ s.fetched
      → s'.pending_batches ≡ s.pending_batches
      → IsQuiet s s'
  alike s s' o t f p = record {
    outbox = Extends-eq s.storage.outbox s'.storage.outbox o;
    sent = λ id x g. rw t g;
    fetched = λ es g. sym f ∙ g;
    pending = λ id ids g. ap (Dict.get id) (sym p) ∙ g;
  }

  pub delete-IsQuiet :
      (s : Sync V) (batch_id : Text)
      → IsQuiet s (record s { pending_batches = Dict.delete batch_id s.pending_batches })
  delete-IsQuiet s batch_id = record {
    outbox = Extends-refl s.storage.outbox;
    sent = λ id x g. g;
    fetched = λ es g. g;
    pending = λ id ids g. ground (arith, Dict.get-delete batch_id id s.pending_batches, g);
  }

  pub forget-IsQuiet : (s : Sync V) → IsQuiet s (record s { pending_batches = [] })
  unfolding Dict.get
  forget-IsQuiet s = record {
    outbox = Extends-refl s.storage.outbox;
    sent = λ id x g. g;
    fetched = λ es g. g;
    pending = λ id ids g. ground (arith, g);
  }

  pub unfetched-IsQuiet :
      (s : Sync V) (b : Bool) → IsQuiet s (record s { is_pushing = b; fetched = none })
  unfetched-IsQuiet s b = record {
    outbox = Extends-refl s.storage.outbox;
    sent = λ id x g. g;
    fetched = λ es g. ground (arith, g);
    pending = λ id ids g. g;
  }

  pub start_push-IsQuiet : (s : Sync V) → IsQuiet s (start_push s)
  unfolding start_push
  start_push-IsQuiet s = elim (Bool-cases (may_push s)) [
    | inl e ↦ rw e (unfetched-IsQuiet s true)
    | inr e ↦ rw e (IsQuiet-refl s)
  ]
