-- ===== src/Tests/Sessions.antt =====
-- The job window, the write queue and the rate limiter at concrete inputs.
use yumtech_umbrel_apps.Prelude.{ℕ, min, ◌≡◌, refl, false, [], ◌∷◌, some, length, take, arith}
use mathlib.Core.List.{reverse}
use yumtech_umbrel_apps.Hex.{int_to_hex, hex_nibble, hex_digit}
use yumtech_umbrel_apps.Hex.Integers.{from_chars}
use yumtech_umbrel_apps.JobWindow
use yumtech_umbrel_apps.JobWindow.History
use yumtech_umbrel_apps.JobWindow.Lookup.{window-refines}
use yumtech_umbrel_apps.WriteQueue.{
  Message, alive, push, sent, do_write, write_front, on_written, init,
}
use yumtech_umbrel_apps.WriteQueue.Invariant.{System, pushes, start, after_push, after_written}

abbrev jobs : JobWindow.History.History ℕ
jobs = (int_to_hex 10 8, 100) ∷ (int_to_hex 11 8, 101) ∷ (int_to_hex 12 8, 102) ∷ []

-- Of three jobs a window of two has lost the first.
window-refines_example :
    (JobWindow.find (int_to_hex 10 8) (JobWindow.History.pushes (JobWindow.init 2) jobs)
      ≡ JobWindow.find_back (int_to_hex 10 8) (take 2 (reverse jobs)))
    × (JobWindow.find_u32 11 (JobWindow.History.pushes (JobWindow.init 2) jobs)
        ≡ JobWindow.find_back_u32 11 (take 2 (reverse jobs)))
    × (JobWindow.latest (JobWindow.History.pushes (JobWindow.init 2) jobs)
        ≡ JobWindow.back (take 2 (reverse jobs)))
    × (JobWindow.size (JobWindow.History.pushes (JobWindow.init 2) jobs) ≡ min (length jobs) 2)
window-refines_example = window-refines 2 jobs (int_to_hex 10 8) 11 (omega arith)

found_newer : JobWindow.find_u32 11 (JobWindow.History.pushes (JobWindow.init 2) jobs) ≡ some 101
unfolding JobWindow.find_u32 JobWindow.init JobWindow.History.pushes JobWindow.push
    JobWindow.find_back_u32 JobWindow.matches_u32 int_to_hex from_chars hex_nibble hex_digit
found_newer = refl

abbrev new : System
new = start (init 100)

abbrev one_pushed : System
one_pushed = after_push new (1 ∷ 2 ∷ []) (push alive (1 ∷ 2 ∷ []) new.q)

abbrev two_pushed : System
two_pushed = after_push one_pushed (3 ∷ []) (push alive (3 ∷ []) one_pushed.q)

abbrev one_written : System
one_written =
    after_written two_pushed [] (1 ∷ 2 ∷ []) [] false (on_written alive false two_pushed.q)

in_flight : two_pushed.in_flight ≡ (1 ∷ 2 ∷ []) ∷ []
unfolding start init push do_write write_front
in_flight = refl

-- The completion of the first write starts the second.
second_write : one_written.in_flight ≡ (3 ∷ []) ∷ []
unfolding start init push do_write write_front on_written sent
second_write = refl

abbrev short : Message
short = 3 ∷ []

abbrev tight : System
tight = start (init 4)

abbrev refused : System
refused = after_push tight (1 ∷ 2 ∷ 3 ∷ 4 ∷ 5 ∷ []) (push alive (1 ∷ 2 ∷ 3 ∷ 4 ∷ 5 ∷ []) tight.q)
