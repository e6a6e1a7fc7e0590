-- ===== src/Logger.antt =====
-- lib/logger.js: messages go to the standard output or to syslog.
use statsd.Base.{◌-◌, Bool, ◌&&◌, [], ◌∷◌, ◌++◌, Option, none, some, if◌then◌else◌, leb}
use statsd.Js.Text.{Text, codes, eqb, is_empty}

-- `config.log`, as the file has it.
pub record LoggerConfig : Type 0 where
  pub backend : Option Text
  pub level : Option Text
  pub application : Option Text

pub data Backend : Type 0 where
  stdout : Backend
  -- under the name of an application
  syslog : Text → Backend

pub record Logger : Type 0 where
  pub backend : Backend
  pub level : Text

-- `text || d` of a text that may be missing
unfoldable pub text_or : Option Text → Text → Text
text_or none d = d
text_or (some text) d = if is_empty text then d else text

-- The constructor; `none` where it throws.
unfoldable pub new_logger : LoggerConfig → Option Logger
unfolding text_or
new_logger config =
    let backend = text_or config.backend (codes "stdout") in
    let level = text_or config.level (codes "LOG_INFO") in
    if eqb backend (codes "stdout")
    then some (record { backend = stdout; level = level })
    else if eqb backend (codes "syslog")
    then some
        (record { backend = syslog (text_or config.application (codes "statsd")); level = level })
    else none

-- `toUpperCase()` of the letters a to z
unfoldable pub upper_case : Text → Text
upper_case [] = []
upper_case (c ∷ s) = (if leb b'a' c && leb c b'z' then c - 32 else c) ∷ upper_case s

-- What a message comes to.
pub data Logged : Type 0 where
  printed : Text → Logged
  sent : Text → Text → Logged
  thrown : Text → Logged

-- `log`, where `is_level` tells the levels of the syslog module; a `type` may be missing.
unfoldable pub log : (Text → Bool) → Logger → Text → Option Text → Logged
unfolding text_or upper_case
log is_level logger msg type_name = elim logger.backend [
  | stdout ↦ printed (text_or type_name (codes "DEBUG") ++ (codes ": " ++ msg))
  | syslog application ↦
      let named = text_or type_name [] in
      let level = if is_empty named then logger.level else codes "LOG_" ++ upper_case named in
      if is_level level then sent level msg else thrown (codes "Undefined log level: " ++ level)
]
