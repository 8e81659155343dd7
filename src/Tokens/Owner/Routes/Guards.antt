-- ===== src/Tokens/Owner/Routes/Guards.antt =====
-- What the REST server refuses before it calls anything.
use fabric_x_samples.Prelude.{◌*◌, ◌≡◌, ◌↔◌, some, arith}
use fabric_x_samples.Tokens.Int.{ℤ, pos, negsuc, ◌≤ℤ◌, pos_part}
use fabric_x_samples.Tokens.Owner.Routes.{to_deadline, second}

-- `toDeadline` accepts exactly the numbers of seconds from 1 to 9223372036, and its result is that
-- number of nanoseconds, without overflow.
pub to_deadline_iff :
    (s d : ℤ)
    → (to_deadline s ≡ some d)
      ↔ ((pos 1 ≤ℤ s) × (s ≤ℤ pos 9_223_372_036) × (d ≡ pos (pos_part s * second)))
unfolding to_deadline
to_deadline_iff (pos n) d = ground arith
to_deadline_iff (negsuc n) d = ground arith
