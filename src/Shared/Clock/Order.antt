-- ===== src/Shared/Clock/Order.antt =====
-- `should_overwrite` compares writes by timestamp and then by client, a total order.
use typescript_tetherdb.Base.{
  ◌<◌, Text, ◌≡◌, ◌⊎◌, ◌↔◌, some, [], true, arith, get_or, text_le, text_le_refl, text_le_total,
  text_le_antisymm, text_le_trans,
}
use typescript_tetherdb.Shared.Clock.{Stamp, should_overwrite}

-- The client name that breaks ties: a write without one counts as the empty name.
abbrev pub tie_breaker : Stamp → Text
tie_breaker s = get_or s.client_id []

-- `b` loses to `a`, or ties with it.
abbrev pub Wins : Stamp → Stamp → Type 0
Wins a b = should_overwrite a (some b) ≡ true

-- A write overwrites another exactly if it is later, or as late with a client name that is not
-- smaller.
pub should_overwrite_iff :
    (a b : Stamp)
    → Wins a b ↔ (
        (b.timestamp < a.timestamp)
        ⊎ ((b.timestamp ≡ a.timestamp) × (text_le (tie_breaker b) (tie_breaker a) ≡ true)))
unfolding should_overwrite
should_overwrite_iff a b = (λ h. ground arith, λ h. ground arith)

pub Wins-refl : (a : Stamp) → Wins a a
unfolding should_overwrite
Wins-refl a = ground (arith, text_le_refl (tie_breaker a))

-- Of two writes one wins, whichever comes first.
pub Wins-total : (a b : Stamp) → Wins a b ⊎ Wins b a
unfolding should_overwrite
Wins-total a b = ground (arith, text_le_total (tie_breaker a) (tie_breaker b))

pub Wins-trans : (a b c : Stamp) → Wins a b → Wins b c → Wins a c
unfolding should_overwrite
Wins-trans a b c h k = ground (arith, text_le_trans (tie_breaker c) (tie_breaker b) (tie_breaker a))

-- Two writes that overwrite one another have the same timestamp and the same client.
pub Wins-antisymm :
    (a b : Stamp)
    → Wins a b
    → Wins b a
    → (a.timestamp ≡ b.timestamp) × (tie_breaker a ≡ tie_breaker b)
unfolding should_overwrite
Wins-antisymm a b h k = ground (arith, text_le_antisymm (tie_breaker a) (tie_breaker b))
