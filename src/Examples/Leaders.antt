-- ===== src/Examples/Leaders.antt =====
-- The theorems on leader election, at two replicas and a board.
use kulta.Prelude.{◌≡◌, refl, ap, length, codes, ◌≢◌, arith, String, none, some, true, false, ℕ}
use kulta.Prelude.Int.{pos}
use kulta.Leader.Api.{Lease}
use kulta.Leader.{LeaderConfig, leads, try_acquire_or_renew, decide, act, is_lease_expired}
use kulta.Leader.Safety.{MayTake, Holds, try_acquire_or_renew-Holds, try_acquire_or_renew-race}
use kulta.Leader.Exclusion.{try_acquire_or_renew-excluded}
use kulta.Examples.Board.{board, Follows-self}

abbrev replica : String → LeaderConfig
replica name = record {
  holder_id = name;
  lease_name = "leader";
  lease_namespace = "kulta-system";
  lease_duration_seconds = pos 15;
  renew_interval = 5;
}

-- The lease of replica "a", renewed at 100.
abbrev of_a : Lease ℕ
of_a = record {
  name = some "leader";
  namespace = none;
  resource_version = some "|";
  spec = some record {
    holder_identity = some "a";
    acquire_time = none;
    renew_time = some 100;
    lease_duration_seconds = some (pos 15);
    lease_transitions = none;
  };
}

taken_over : (try_acquire_or_renew board (replica "bb") 116 (some of_a) (some of_a)).0 ≡ leads true
unfolding try_acquire_or_renew decide act is_lease_expired
taken_over = refl

try_acquire_or_renew-Holds_example :
    MayTake board (replica "bb") 116 (some of_a)
    × Holds board
        (replica "bb")
        116
        (try_acquire_or_renew board (replica "bb") 116 (some of_a) (some of_a)).1
try_acquire_or_renew-Holds_example =
    try_acquire_or_renew-Holds board (replica "bb") 116 (some of_a) (some of_a)
      ((λ e. refl), omega arith) taken_over

try_acquire_or_renew-race_example :
    (try_acquire_or_renew board
      (replica "c")
      117
      (some of_a)
      (try_acquire_or_renew board (replica "bb") 116 (some of_a) (some of_a)).1).0
    ≢ leads true
try_acquire_or_renew-race_example =
    try_acquire_or_renew-race board (replica "bb") (replica "c") 116 117 (some of_a) (some of_a)
      (some of_a) (try_acquire_or_renew board (replica "bb") 116 (some of_a) (some of_a)).1 of_a
      refl refl refl taken_over (Follows-self _)

a-Holds : Holds board (replica "a") 100 (some of_a)
a-Holds = record {
  lease = of_a;
  spec = _;
  lease_there = refl;
  spec_there = refl;
  held = refl;
  renewed = refl;
  lasting = refl;
}

try_acquire_or_renew-excluded_example :
    try_acquire_or_renew board (replica "bb") 110 (some of_a) (some of_a) ≡ (leads false, some of_a)
try_acquire_or_renew-excluded_example =
    try_acquire_or_renew-excluded board (replica "a") (replica "bb") 100 110 (some of_a) (some of_a)
      of_a a-Holds refl (λ e. omega (arith, ap (λ s. length (codes s)) e)) refl refl
