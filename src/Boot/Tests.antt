-- ===== src/Boot/Tests.antt =====
-- bootNotify.c: the theorem and some runs.
use iocsh_utilities.Base.{◌≡◌, refl, none, some, ◌∷◌, ◌++◌, codes, take}
use iocsh_utilities.Boot.{written, called, bad_read, command_text, boot_notify}
use iocsh_utilities.Boot.Command.{command_text-cases}

command_text-cases_example :
    command_text (codes "/boot") (some (codes "notify"))
    ≡ written (take 255 (codes "/boot" ++ (b'/' ∷ codes "notify")))
command_text-cases_example = command_text-cases (codes "/boot") (codes "notify")

notified :
    boot_notify
      (λ command version. 0)
      (some (codes "VxWorks 6.9"))
      (some (codes "/boot"))
      (some (codes "notify"))
    ≡ called (codes "/boot/notify") (some (codes "6.9")) 0
unfolding boot_notify
notified = refl

no_digit :
    boot_notify (λ command version. 0) (some (codes "x")) (some (codes "/boot")) none ≡ bad_read
unfolding boot_notify
no_digit = refl
