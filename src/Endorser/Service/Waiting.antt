-- ===== src/Endorser/Service/Waiting.antt =====
-- When the endorser stops to wait for its block height.
use fabric_x_samples.Prelude.{
  Bool, true, false, Option, none, some, List, [], ◌∷◌, ◌++◌, ◌≡◌, refl, ap, All,
}
use fabric_x_samples.Endorser.Service.{wait_for_ready}

-- Nothing happened in the round: not ready, and the context is not done.
abbrev pub IsIdle : Bool × Bool → Type 0
IsIdle (ready, done) = (ready ≡ false) × (done ≡ false)

-- The rounds are idle ones, then one like this, then any.
pub record Stops (Last : Bool × Bool → Type 0) (rounds : List (Bool × Bool)) : Type 0 where
  before : List (Bool × Bool)
  last : Bool × Bool
  after : List (Bool × Bool)
  splits : rounds ≡ before ++ (last ∷ after)
  idle : All IsIdle before
  ends : Last last

abbrev pub IsReady : Bool × Bool → Type 0
IsReady (ready, done) = ready ≡ true

abbrev pub IsGone : Bool × Bool → Type 0
IsGone (ready, done) = (ready ≡ false) × (done ≡ true)

abbrev pub Waited : List (Bool × Bool) → Option Bool → Type 0
Waited rounds none = All IsIdle rounds
Waited rounds (some true) = Stops IsReady rounds
Waited rounds (some false) = Stops IsGone rounds

idle-Stops :
    {Last : Bool × Bool → Type 0} {rounds : List (Bool × Bool)}
    → Stops Last rounds
    → Stops Last ((false, false) ∷ rounds)
idle-Stops s = record {
  before = (false, false) ∷ s.before;
  last = s.last;
  after = s.after;
  splits = ap (λ r. (false, false) ∷ r) s.splits;
  idle = ((refl, refl), s.idle);
  ends = s.ends;
}

idle-Waited :
    (rounds : List (Bool × Bool)) (r : Option Bool)
    → Waited rounds r
    → Waited ((false, false) ∷ rounds) r
idle-Waited rounds none w = ((refl, refl), w)
idle-Waited rounds (some true) w = idle-Stops w
idle-Waited rounds (some false) w = idle-Stops w

-- `WaitForReady` returns true at the first round in which the synchronizer is ready, if the context
-- was not done in an earlier one; false at the first in which the context is done and the synchronizer
-- is not ready; and it waits as long as there is neither.
pub wait_for_ready-Waited : (rounds : List (Bool × Bool)) → Waited rounds (wait_for_ready rounds)
unfolding wait_for_ready
wait_for_ready-Waited [] = tt
wait_for_ready-Waited ((true, done) ∷ rounds) = record {
  before = [];
  last = (true, done);
  after = rounds;
  splits = refl;
  idle = tt;
  ends = refl;
}
wait_for_ready-Waited ((false, true) ∷ rounds) = record {
  before = [];
  last = (false, true);
  after = rounds;
  splits = refl;
  idle = tt;
  ends = (refl, refl);
}
wait_for_ready-Waited ((false, false) ∷ rounds) =
    idle-Waited rounds (wait_for_ready rounds) (wait_for_ready-Waited rounds)
