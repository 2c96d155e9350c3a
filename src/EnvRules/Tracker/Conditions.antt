-- ===== src/EnvRules/Tracker/Conditions.antt =====
-- How the conditions of one sample exclude and imply one another.
use terra_server.Common.{ℕ, ◌+◌, ◌≡◌, Bool, true, false, arith}
use terra_server.EnvRules.Thresholds.{Thresholds, IsSane}
use terra_server.EnvRules.Event.{Element, temp, Side, high, low, caution, danger}
use terra_server.EnvRules.Tracker.{conds, holds, beyond, within, calm}

abbrev pub bit : Bool → ℕ
bit false = 0
bit true = 1

-- With sane thresholds every value is in exactly one of the three ranges (too high, too low, in
-- range); what is in danger on a side is also past the user's limit on that side; and a side is calm
-- exactly when a temperature is not in danger on it.
pub conds_exclusive :
    (e : Element) (v : ℕ) (th : Thresholds) (s : Side)
    → IsSane th
    → let cs = conds e v th in
      (bit (holds (cs (beyond caution high)))
          + bit (holds (cs (beyond caution low)))
          + bit (holds (cs within))
        ≡ 1)
      × (holds (cs (beyond danger s)) ≡ true → holds (cs (beyond caution s)) ≡ true)
      × (e ≡ temp → bit (holds (cs (calm s))) + bit (holds (cs (beyond danger s))) ≡ 1)
unfolding conds
conds_exclusive e v th s sane = ground arith
