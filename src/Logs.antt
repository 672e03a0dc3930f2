-- ===== src/Logs.antt =====
-- `LogManager` of src/logs.hpp and src/logs.cpp, and the functions that log through it. A message is
-- what vsyslog is given; syslog formats it.
pub mod History
use simurga.Base.{ℕ, ◌+◌, Option, none, some, List, [], ◌∷◌, ◌++◌, Bytes, codes}

-- LOG_ERR, LOG_WARNING and LOG_INFO
pub data Level : Type 0 where
  log_err log_warning log_info : Level

-- An argument for %s or %d
pub data Argument : Type 0 where
  text : Bytes → Argument
  number : ℕ → Argument

pub record Message : Type 0 where
  pub level : Level
  pub format : Bytes
  pub args : List Argument

-- What syslog knows of the program.
pub record Syslog : Type 0 where
  -- the ident of openlog, while the log is open
  pub ident : Option Bytes
  pub opened : ℕ
  pub messages : List Message

-- The function-local static of `instance`: constructed or not.
pub data Manager : Type 0 where
  not_constructed constructed : Manager

pub record Logging : Type 0 where
  pub manager : Manager
  pub syslog : Syslog

unfoldable pub openlog : Bytes → Syslog → Syslog
openlog ident s = record s { ident = some ident; opened = s.opened + 1 }

-- LogManager::LogManager
unfoldable pub construct : Syslog → Syslog
unfolding openlog
construct s = openlog (codes "simurga") s

-- LogManager::~LogManager
unfoldable destroy : Syslog → Syslog
destroy s = record s { ident = none }

abbrev pub instance_of : Manager → Logging → Logging
instance_of constructed l = l
instance_of not_constructed l = record l { manager = constructed; syslog = construct l.syslog }

-- LogManager::instance
unfoldable instance_call : Logging → Logging
unfolding construct
instance_call l = instance_of l.manager l

-- LogManager::log
unfoldable pub log : Level → Bytes → List Argument → Syslog → Syslog
log level format args s = record s {
  messages = s.messages ++ record { level = level; format = format; args = args } ∷ [];
}

abbrev log_through : Level → Bytes → List Argument → Logging → Logging
log_through level format args l =
    let l' = instance_call l in record l' { syslog = log level format args l'.syslog }

unfoldable pub err : Bytes → List Argument → Logging → Logging
unfolding instance_call log
err format args l = log_through log_err format args l

unfoldable pub warn : Bytes → List Argument → Logging → Logging
unfolding instance_call log
warn format args l = log_through log_warning format args l

unfoldable pub info : Bytes → List Argument → Logging → Logging
unfolding instance_call log
info format args l = log_through log_info format args l

-- The call that logs a message, by its level.
abbrev log_at : Level → Bytes → List Argument → Logging → Logging
log_at log_err = err
log_at log_warning = warn
log_at log_info = info

-- The calls that log some messages, in their order.
unfoldable pub log_all : List Message → Logging → Logging
unfolding err warn info
log_all [] l = l
log_all (m ∷ ms) l = log_all ms (log_at m.level m.format m.args l)

-- Before the first call.
abbrev pub new_logging : Logging
new_logging = record {
  manager = not_constructed;
  syslog = record { ident = none; opened = 0; messages = [] };
}
