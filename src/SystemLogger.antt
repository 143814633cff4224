-- ===== src/SystemLogger.antt =====
-- iocp-chatting-server/Util/SystemLogger.h and .cpp: the log on the console. A line is the name of its
-- level and what is said; the name of the function that says it is left out.
use game_server_portfolio.Base.{ℕ, Bool, true, false, List, [], ◌∷◌, ◌++◌, if◌then◌else◌}

pub data LogLevel : Type 0 where
  debug_level error_level system_level : LogLevel

-- `>=` of two levels
unfoldable pub at_least : LogLevel → LogLevel → Bool
at_least debug_level debug_level = true
at_least debug_level error_level = false
at_least debug_level system_level = false
at_least error_level debug_level = true
at_least error_level error_level = true
at_least error_level system_level = false
at_least system_level level = true

-- `DEBUG`, `ERROR` or `SYSTEM`
abbrev pub level_to_char : LogLevel → List ℕ
level_to_char debug_level = 68 ∷ 69 ∷ 66 ∷ 85 ∷ 71 ∷ []
level_to_char error_level = 69 ∷ 82 ∷ 82 ∷ 79 ∷ 82 ∷ []
level_to_char system_level = 83 ∷ 89 ∷ 83 ∷ 84 ∷ 69 ∷ 77 ∷ []

pub record Line (M : Type 0) : Type 0 where
  pub level : List ℕ
  pub message : M

-- `lines` is what has been printed, oldest first.
pub record SystemLogger (M : Type 0) : Type 0 where
  pub sys_log_level : LogLevel
  pub lines : List (Line M)

unfoldable pub write : {M : Type 0} → LogLevel → M → SystemLogger M → SystemLogger M
unfolding at_least
write log_level message s =
    if at_least log_level s.sys_log_level
    then record s {
      lines = s.lines ++ record { level = level_to_char log_level; message = message } ∷ [];
    }
    else s

abbrev pub syslog_level : {M : Type 0} → LogLevel → SystemLogger M → SystemLogger M
syslog_level log_level s = record s { sys_log_level = log_level }
