-- ===== src/ActiveCalls/Tests.antt =====
-- Two calls on one talkgroup, one before the time and one nearer but after it.
use tr_engine.Common.{◌≡◌, refl, inl, true, false, [], ◌∷◌, arith, bytes}
use tr_engine.ActiveCalls.Search.{Has, Candidate, NoWorse, find_by_tgid_and_time_best}
use tr_engine.ActiveCalls.{
  Call, Calls, no_call, initial, consider, search_from, find_by_tgid_and_time,
}

abbrev earlier : Call
earlier = record no_call { tgid = 9; start_time = 98 }

abbrev later : Call
later = record no_call { tgid = 9; start_time = 101 }

abbrev calls : Calls
calls = (bytes "b", later) ∷ (bytes "a", earlier) ∷ []

prefers_earlier : find_by_tgid_and_time 9 100 5 calls ≡ (bytes "a", earlier, true)
unfolding initial consider search_from find_by_tgid_and_time
prefers_earlier = refl

out_of_tolerance : (find_by_tgid_and_time 9 120 5 calls).2 ≡ false
unfolding initial consider search_from find_by_tgid_and_time
out_of_tolerance = refl

find_by_tgid_and_time_best_example :
    let (key, call, ok) = find_by_tgid_and_time 9 100 5 calls in
    (ok ≡ true) × Has key call calls × Candidate 9 100 5 call × NoWorse 9 100 5 call later
find_by_tgid_and_time_best_example =
    find_by_tgid_and_time_best 9 100 5 calls (bytes "b") later (inl (refl, refl))
      (refl, omega arith)
