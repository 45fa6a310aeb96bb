-- ===== src/Platform.antt =====
-- What the program takes from its JavaScript runtime, as parameters.
use pathos_dacs_ref.Prelude.{String, Option}

pub record Platform : Type 0 where
  -- `new Date(iso)`: `none` if its time is not finite, else `toISOString().slice(0, 10)`
  pub utc_day : String → Option String
  -- `new URL(url).hostname`: `none` if the constructor throws
  pub url_host : String → Option String
  -- `s.trim()`
  pub trim : String → String
  -- `s.normalize('NFC')`
  pub nfc : String → String
  -- `s.toLowerCase()`
  pub to_lower : String → String
