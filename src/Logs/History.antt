-- ===== src/Logs/History.antt =====
-- What syslog is given by the calls of src/logs.cpp.
use simurga.Base.{◌≡◌, refl, ap, ◌∙◌, List, [], ◌∷◌, ◌++◌, append_assoc, append-nil, some, codes}
use simurga.Logs.{
  Level, log_err, log_warning, log_info, Message, Syslog, Logging, constructed, err, warn, info,
  log_at, log_all, new_logging,
}

-- Once the manager is there.
abbrev with_manager : Syslog → Logging
with_manager s = record { manager = constructed; syslog = s }

log_at-constructed :
    (v : Level) (m : Message) (s : Syslog)
    → m.level ≡ v
    → log_at v m.format m.args (with_manager s)
      ≡ with_manager (record s { messages = s.messages ++ m ∷ [] })
unfolding err warn info
log_at-constructed log_err m s e = rw e
log_at-constructed log_warning m s e = rw e
log_at-constructed log_info m s e = rw e

log_all-constructed :
    (ms : List Message) (s : Syslog)
    → log_all ms (with_manager s) ≡ with_manager (record s { messages = s.messages ++ ms })
unfolding log_all
log_all-constructed [] s = rw append-nil
log_all-constructed (m ∷ ms) s =
    ap (log_all ms) (log_at-constructed m.level m s refl)
    ∙ log_all-constructed ms (record s { messages = s.messages ++ m ∷ [] })
    ∙ rw append_assoc

log_at-new_logging :
    (v : Level) (m : Message)
    → m.level ≡ v
    → log_at v m.format m.args new_logging
      ≡ with_manager (record { ident = some (codes "simurga"); opened = 1; messages = m ∷ [] })
unfolding err warn info
log_at-new_logging log_err m e = rw e
log_at-new_logging log_warning m e = rw e
log_at-new_logging log_info m e = rw e

-- The first message of the program opens the log under the name "simurga", no other message opens it
-- again, and syslog is given each message with its level, in the order of the calls.
pub log_all-new_logging :
    (m : Message) (ms : List Message)
    → log_all (m ∷ ms) new_logging ≡ record {
      manager = constructed;
      syslog = record { ident = some (codes "simurga"); opened = 1; messages = m ∷ ms };
    }
unfolding log_all
log_all-new_logging m ms =
    ap (log_all ms) (log_at-new_logging m.level m refl)
    ∙ log_all-constructed ms
        (record { ident = some (codes "simurga"); opened = 1; messages = m ∷ [] })
