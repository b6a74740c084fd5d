-- ===== src/AfterInit/Hooks.antt =====
-- afterInit.c, `hookNameToNumber` and its table, for EPICS 7.0.3.1 and later. The numbers of the
-- hooks and the comparisons without case are those of EPICS base.
use iocsh_utilities.Base.{
  ℕ, ◌+◌, ◌==◌, leb, if◌then◌else◌, ◌≡◌, Bool, false, ◌&&◌, ◌||◌, Option, none, some, List, [], ◌∷◌,
  map, Text, codes, take, drop, text_eq,
}

pub data Hook : Type 0 where
  ioc_build beginning after_callback_init after_ca_link_init after_init_drv_sup : Hook
  after_init_rec_sup after_init_dev_sup after_init_database after_finish_dev_sup : Hook
  after_scan_init after_initial_process after_ca_server_init after_ioc_built ioc_run : Hook
  after_database_running after_ca_server_running after_ioc_running ioc_pause : Hook
  after_ca_server_paused after_database_paused after_ioc_paused shutdown after_close_links : Hook
  after_stop_scan after_stop_callback after_stop_links before_free after_shutdown : Hook
  interrupt_accept end : Hook

-- `hookMap`, without its end mark.
abbrev pub hook_map : List (Text × Hook)
hook_map =
    (codes "IocBuild", ioc_build)
    ∷ (codes "Beginning", beginning)
    ∷ (codes "AfterCallbackInit", after_callback_init)
    ∷ (codes "AfterCaLinkInit", after_ca_link_init)
    ∷ (codes "AfterInitDrvSup", after_init_drv_sup)
    ∷ (codes "AfterInitRecSup", after_init_rec_sup)
    ∷ (codes "AfterInitDevSup", after_init_dev_sup)
    ∷ (codes "AfterInitDatabase", after_init_database)
    ∷ (codes "AfterFinishDevSup", after_finish_dev_sup)
    ∷ (codes "AfterScanInit", after_scan_init)
    ∷ (codes "AfterInitialProcess", after_initial_process)
    ∷ (codes "AfterCaServerInit", after_ca_server_init)
    ∷ (codes "AfterIocBuilt", after_ioc_built)
    ∷ (codes "IocRun", ioc_run)
    ∷ (codes "AfterDatabaseRunning", after_database_running)
    ∷ (codes "AfterCaServerRunning", after_ca_server_running)
    ∷ (codes "AfterIocRunning", after_ioc_running)
    ∷ (codes "IocPause", ioc_pause)
    ∷ (codes "AfterCaServerPaused", after_ca_server_paused)
    ∷ (codes "AfterDatabasePaused", after_database_paused)
    ∷ (codes "AfterIocPaused", after_ioc_paused)
    ∷ (codes "Shutdown", shutdown)
    ∷ (codes "AfterCloseLinks", after_close_links)
    ∷ (codes "AfterStopScan", after_stop_scan)
    ∷ (codes "AfterStopCallback", after_stop_callback)
    ∷ (codes "AfterStopLinks", after_stop_links)
    ∷ (codes "BeforeFree", before_free)
    ∷ (codes "AfterShutdown", after_shutdown)
    ∷ (codes "InterruptAccept", interrupt_accept)
    ∷ (codes "End", end)
    ∷ []

-- `tolower` of the C locale, byte by byte.
abbrev pub lower : Text → Text
lower = map (λ c. if leb b'A' c && leb c b'Z' then c + 32 else c)

-- `epicsStrCaseCmp(a, b) == 0` and `epicsStrnCaseCmp(a, b, n) == 0`.
pub record Names : Type 0 where
  pub case_eq : Text → Text → Bool
  pub case_eq_n : Text → Text → ℕ → Bool
  pub case_eq_lower : (a b : Text) → case_eq a b ≡ text_eq (lower a) (lower b)
  pub case_eq_n_lower :
      (a b : Text) (n : ℕ) → case_eq_n a b n ≡ text_eq (take n (lower a)) (take n (lower b))

-- `return hookMap[i].hook`, or -1.
abbrev pub number_of : (Hook → ℕ) → Option Hook → Option ℕ
number_of hooks none = none
number_of hooks (some h) = some (hooks h)

abbrev pub begins_with_a : Text → Bool
begins_with_a [] = false
begins_with_a (c ∷ s) = c == b'A'

module _ (names : Names) where
  -- `if (epicsStrnCaseCmp(prefix, hook, n) == 0) hook += n;`.
  unfoldable pub strip : Text → ℕ → Text → Text
  strip prefix n hook = if names.case_eq_n prefix hook n then drop n hook else hook

  unfoldable pub names_row : Text → Text → Bool
  names_row hook name =
      names.case_eq hook name || (begins_with_a name && names.case_eq hook (drop 5 name))

  unfoldable pub find_hook : List (Text × Hook) → Text → Option Hook
  unfolding names_row
  find_hook [] hook = none
  find_hook ((name, h) ∷ rows) hook = if names_row hook name then some h else find_hook rows hook

  unfoldable pub stripped : Text → Text
  unfolding strip
  stripped hook = strip (codes "At") 2 (strip (codes "initHook") 8 hook)

  -- `hookNameToNumber`, where `none` is the return of -1.
  unfoldable pub hook_name_to_number : (Hook → ℕ) → Option Text → Option ℕ
  unfolding find_hook stripped
  hook_name_to_number hooks none = none
  hook_name_to_number hooks (some hook) = number_of hooks (find_hook hook_map (stripped hook))
