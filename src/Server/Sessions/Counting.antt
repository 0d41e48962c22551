-- ===== src/Server/Sessions/Counting.antt =====
-- The connections of a user among the clients of src/src/server/sync.ts.
use typescript_tetherdb.Base.{
  ℕ, ◌+◌, ◌≤◌, ◌≡◌, refl, subst, Text, text_key, nat_key, ◌&&◌, none, [], ◌∷◌, arith, same,
  eq_of_same, if◌then◌else◌, Bool-cases, inl, inr,
}
use typescript_tetherdb.Base.Dict
use typescript_tetherdb.Base.Dict.{Dict, HasDistinctKeys}
use typescript_tetherdb.Server.Broadcast.{ActiveClient}
use typescript_tetherdb.Server.Sessions.{count_user_connections}
use typescript_tetherdb.Server.User.{User, user_id, is_authenticated}

-- All the connections of a user.
abbrev pub connections : Text → Dict ℕ ActiveClient → ℕ
connections id [] = 0
connections id ((socket, c) ∷ clients) =
    if is_authenticated c.user && same (user_id c.user) id
    then connections id clients + 1
    else connections id clients

-- Whether a client counts for the user.
abbrev pub counts_for : Text → User → ℕ
counts_for id user = if is_authenticated user && same (user_id user) id then 1 else 0

pub count-le :
    (id : Text) (socket : ℕ) (m : Dict ℕ ActiveClient)
    → count_user_connections id socket m ≤ connections id m
unfolding count_user_connections
count-le id socket [] = omega arith
count-le id socket ((k, c) ∷ m) = ground (arith, count-le id socket m)

count-absent :
    (id : Text) (socket : ℕ) (m : Dict ℕ ActiveClient)
    → Dict.get socket m ≡ none
    → count_user_connections id socket m ≡ connections id m
unfolding count_user_connections Dict.get
count-absent id socket [] h = refl
count-absent id socket ((k, c) ∷ m) h = ground (arith, count-absent id socket m, h)

pub connections-put-le :
    (id : Text) (socket : ℕ) (c : ActiveClient) (m : Dict ℕ ActiveClient)
    → HasDistinctKeys m
    → connections id (Dict.put socket c m)
      ≤ count_user_connections id socket m + counts_for id c.user
unfolding count_user_connections Dict.put Dict.get
connections-put-le id socket c [] d = ground arith
connections-put-le id socket c ((k, w) ∷ m) d = elim (Bool-cases (same k socket)) [
  | inl e ↦
      let absent : Dict.get socket m ≡ none =
        subst (λ j. Dict.get j m ≡ none) (eq_of_same k socket e) d.0 in
      ground (arith, count-absent id socket m absent, e)
  | inr e ↦ ground (arith, connections-put-le id socket c m d.1, e)
]

pub connections-delete-le :
    (id : Text) (socket : ℕ) (m : Dict ℕ ActiveClient)
    → connections id (Dict.delete socket m) ≤ connections id m
unfolding Dict.delete
connections-delete-le id socket [] = omega arith
connections-delete-le id socket ((k, c) ∷ m) = ground (arith, connections-delete-le id socket m)

pub count-delete :
    (id : Text) (socket : ℕ) (m : Dict ℕ ActiveClient)
    → count_user_connections id socket (Dict.delete socket m) ≤ count_user_connections id socket m
unfolding count_user_connections Dict.delete
count-delete id socket [] = omega arith
count-delete id socket ((k, c) ∷ m) = ground (arith, count-delete id socket m)
