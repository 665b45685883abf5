-- ===== src/Runtime/Examples.antt =====
-- A goal with one running process, which is cancelled.
use emergence_os.Base.{◌≡◌, refl, true, none, some, [], ◌∷◌, nat_eq, string_eq}
use emergence_os.Base.Bag
use emergence_os.Base.Dict
use emergence_os.Goals.{GoalRecord, one_shot, new_record, join, all_process_ids}
use emergence_os.Kernel.{Kernel}
use emergence_os.Kernel.Examples.{seven, kernel, alone-IsKeyed}
use emergence_os.Process.{Process, is_finished}
use emergence_os.Runtime.{cancel_goal_processes}
use emergence_os.Runtime.Cancellation.{cancel_goal_processes-finished}

abbrev five : GoalRecord
five = join 7 true 120 (new_record 5 "write" one_shot none 100)

abbrev busy : Kernel
busy = record kernel { goals = record { records = (5, five) ∷ []; process_to_goal = (7, 5) ∷ [] } }

five_is_found : Dict.get 5 busy.goals.records ≡ some five
unfolding Dict.get
five_is_found = refl

seven_belongs : Bag.has 7 (all_process_ids five) ≡ true
unfolding all_process_ids Bag.has Bag.add
seven_belongs = refl

seven_is_found : Dict.get 7 busy.process_table ≡ some seven
unfolding Dict.get
seven_is_found = refl

cancel_goal_processes-finished_example :
    (q : Process) × (Dict.get 7 (cancel_goal_processes 5 busy).1.process_table ≡ some q)
    × (is_finished q ≡ true)
cancel_goal_processes-finished_example =
    cancel_goal_processes-finished 5 7 five seven busy five_is_found seven_belongs seven_is_found
      (alone-IsKeyed seven)
