-- ===== src/Tests/Rounds.antt =====
-- A round of two submits of one share, and changes of the difficulty, at concrete inputs.
use yumtech_umbrel_apps.Prelude.{ℕ, refl, [], ◌++◌, arith}
use yumtech_umbrel_apps.Session.{World}
use yumtech_umbrel_apps.Session.Submit.{check_share}
use yumtech_umbrel_apps.Session.Submit.Judge
use yumtech_umbrel_apps.Session.Registers.{accepted_hash}
use yumtech_umbrel_apps.Session.Once.{IsDistinct, Reach-IsDistinct, start, submitted}
use yumtech_umbrel_apps.Tests.Miner.{outside, clock, stratifier, world, json, submit}

abbrev after_one : World ℕ
after_one = (Judge.handle_submit outside json clock submit world).0

abbrev after_two : World ℕ
after_two = (Judge.handle_submit outside json clock submit after_one).0

Reach-IsDistinct_example : IsDistinct (
    accepted_hash (check_share outside json clock after_one submit) after_one after_two
    ++ (accepted_hash (check_share outside json clock world submit) world after_one ++ []))
Reach-IsDistinct_example =
    Reach-IsDistinct outside json
      (submitted (submitted (start stratifier refl) clock submit world refl) clock submit after_one
        refl)
      (omega arith)
