-- ===== src/Disctools/Mode/Tests.antt =====
-- The masks and modes of disctools.c: the theorem and some runs.
use iocsh_utilities.Base.{◌≡◌, refl, none, some, [], ◌∷◌, Text, codes, arith}
use iocsh_utilities.Disctools.Mode.{mask_line, not_recognized, umask_func, mode_letters}
use iocsh_utilities.Threads.Affinity.{decimal}
use iocsh_utilities.Disctools.Long.{Stats, found, line, ll_out}
use iocsh_utilities.Disctools.Mode.RoundTrip.{umask_func-umask_func}

umask_func-umask_func_example :
    (s : Text) × (umask_func none 18 ≡ (18, mask_line s ∷ [])) × (umask_func (some s) 63 ≡ (18, []))
umask_func-umask_func_example = umask_func-umask_func 18 63 (omega arith)

shown : umask_func none 18 ≡ (18, mask_line (codes "022") ∷ [])
unfolding umask_func
shown = refl

not_octal : umask_func (some (codes "x")) 18 ≡ (18, not_recognized (codes "x") ∷ [])
unfolding umask_func
not_octal = refl

directory_mode : mode_letters 16877 ≡ codes "drwxr-xr-x"
unfolding mode_letters
directory_mode = refl

-- `s` hides whether the file can be executed.
setuid_mode : (mode_letters 35309 ≡ codes "-rwsr-xr-x") × (mode_letters 35245 ≡ codes "-rwsr-xr-x")
unfolding mode_letters
setuid_mode = (refl, refl)

abbrev stats : Stats
stats = record {
  lstat = λ name. found (record {
    mode = 41471;
    n_links = 1;
    uid = 0;
    user = some (codes "root");
    gid = 7;
    group = none;
    size = 3;
    major = 0;
    minor = 0;
    time = codes "Jan  1 1980 00:00";
  });
  readlink = λ name. some (codes "to");
}

link_line :
    ll_out stats none (codes "a")
    ≡ line (codes "lrwxrwxrwx    1 root     7               3 Jan  1 1980 00:00 a -> to")
unfolding ll_out decimal
link_line = refl
