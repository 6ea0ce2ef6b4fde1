-- ===== src/Throttle/Tests.antt =====
-- The throttle after two attempts of one account, of which the first ends in a failure.
use rfid_inventory_replenish.Prelude.{◌≡◌, refl, true, some, [], arith, find, select}
use rfid_inventory_replenish.Throttle.{
  LoginThrottle, Windows, LoginThrottleDecision, authentication_failed, begin_attempt,
  begin_enabled, active_window, used_up, admit_attempt, fits, reserve, window_or_new, counted,
  delete_window, finish_attempt, taken_back,
}
use rfid_inventory_replenish.Throttle.Laws.{IsWithin}
use rfid_inventory_replenish.Throttle.Reachable.{start, began, finished, Reached-IsWithin}

abbrev throttle : LoginThrottle
throttle = record {
  enabled = true;
  window_seconds = 60;
  ip_limit = 20;
  account_limit = 1;
  max_entries = 100;
}

abbrev empty : Windows
empty = record { entries = []; next_serial = 0 }

abbrev first_try : LoginThrottleDecision × Windows
first_try = begin_attempt throttle 3 4 1000000 empty

abbrev after_failure : Windows
after_failure = (finish_attempt first_try.0.reservation authentication_failed first_try.1).1

-- The account has failed once, which is its limit: the next attempt waits for 58 seconds.
refuses : (begin_attempt throttle 3 4 3000000 after_failure).0.retry_after ≡ some 58
unfolding begin_attempt begin_enabled active_window used_up admit_attempt fits reserve window_or_new
    counted delete_window finish_attempt taken_back find select
refuses = refl

Reached-IsWithin_example :
    IsWithin throttle (begin_attempt throttle 3 4 3000000 after_failure).1.entries
Reached-IsWithin_example =
    Reached-IsWithin throttle (begin_attempt throttle 3 4 3000000 after_failure).1 (omega arith)
      (omega arith)
      (began 3 4 3000000 after_failure (
        finished first_try.0.reservation authentication_failed first_try.1
          (began 3 4 1000000 empty (start empty refl))))
