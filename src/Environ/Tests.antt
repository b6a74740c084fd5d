-- ===== src/Environ/Tests.antt =====
-- Runs on environments, an implementation of `EpicsEnv`, and the theorems at concrete inputs.
use iocsh_utilities.Base.{◌≡◌, refl, some, [], ◌∷◌, codes}
use iocsh_utilities.Environ.{Env, EpicsEnv, putenv, epics_env_unset, winunixconv}
use iocsh_utilities.Environ.Laws.{getenv-putenv, getenv-putenv_ne, Converted, winunixconv_lem}

abbrev pub putting : EpicsEnv
putting = record { set = putenv; getenv-set = getenv-putenv; getenv-set_ne = getenv-putenv_ne }

abbrev start : Env
start = (codes "TOP", codes "C:\\epics\\top") ∷ (codes "ARCH", codes "windows-x64") ∷ []

converts :
    winunixconv (codes "TOP") start
    ≡ some ((codes "TOP", codes "C:/epics/top") ∷ (codes "ARCH", codes "windows-x64") ∷ [])
unfolding winunixconv
converts = refl

winunixconv_lem_example : Converted (codes "TOP") start (winunixconv (codes "TOP") start)
winunixconv_lem_example = winunixconv_lem (codes "TOP") start

unsets : epics_env_unset (some (codes "TOP")) start ≡ (codes "ARCH", codes "windows-x64") ∷ []
unfolding epics_env_unset
unsets = refl
