-- ===== src/Console.antt =====
-- iocp-chatting-server/ConsoleHandler.cpp: the keys pressed on the server's console.
pub mod Run
mod Tests
use game_server_portfolio.Base.{ℕ, ◌+◌, ◌==◌, List, [], ◌∷◌, Option, none, some, if◌then◌else◌}
use game_server_portfolio.SystemLogger.{
  debug_level, error_level, system_level, SystemLogger, write, syslog_level,
}
use game_server_portfolio.Server.Threads.{Accepted, LanServer, stop}

pub data Message : Type 0 where
  server_stopped unknown_command : Message

-- `profiles` is how many times the profile has been written.
pub record ConsoleHandler : Type 0 where
  pub server : LanServer
  pub logger : SystemLogger Message
  pub profiles : ℕ

-- the keys `s`, `d`, `e` and `p`
abbrev pub key_stop : ℕ
key_stop = 115

abbrev pub key_debug : ℕ
key_debug = 100

abbrev pub key_error : ℕ
key_error = 101

abbrev pub key_profile : ℕ
key_profile = 112

-- `accepts` is what `accept` returns while `Stop` waits; `fresh` and `garbage` are the server's.
module _ (fresh : List ℕ) (garbage : ℕ) (accepts : List Accepted) where
  -- One round of the loop: `none` is undefined behaviour of `Stop`.
  unfoldable pub press : ConsoleHandler → ℕ → Option ConsoleHandler
  press c key =
      if key == key_stop
      then elim (stop fresh garbage accepts c.server) [
        | none ↦ none
        | some l ↦
            some (record c { server = l; logger = write system_level server_stopped c.logger })
      ]
      else if key == key_debug
      then some (record c { logger = syslog_level debug_level c.logger })
      else if key == key_error
      then some (record c { logger = syslog_level error_level c.logger })
      else if key == key_profile
      then some (record c { profiles = c.profiles + 1 })
      else some (record c { logger = write system_level unknown_command c.logger })

  -- The rounds of these keys; the loop has no end of its own.
  unfoldable pub run : List ℕ → ConsoleHandler → Option ConsoleHandler
  run [] c = some c
  run (key ∷ keys) c = elim (press c key) [ none ↦ none | some c' ↦ run keys c' ]
