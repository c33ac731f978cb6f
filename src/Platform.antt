-- ===== src/Platform.antt =====
-- What the program takes from Python's runtime and the operating system: character tables, `repr`,
-- ISO rendering, hashing, glob matching and the time zone database. A parameter of the model.
use Prim.Native.Char.{Char}
use telecloud_subscription_r.Base.{ℕ, String, Bool, Option}

-- A `datetime`: `utc` is an aware instant, in microseconds since the first representable one;
-- `naive` is a wall-clock reading without a time zone.
pub data DateTime : Type 0 where
  utc : ℕ → DateTime
  naive : ℕ → DateTime

pub record Platform : Type 0 where
  -- `str.isspace` of one character, and the value of a decimal digit as `int` reads it
  pub is_space : Char → Bool
  pub digit_value : Char → Option ℕ
  -- `str.lower` and `repr` of a text
  pub lower : String → String
  pub repr : String → String
  -- `datetime.isoformat`
  pub isoformat : DateTime → String
  -- `hashlib.sha256(text.encode()).hexdigest()[:16]`
  pub sha256_16 : String → String
  -- `fnmatch.fnmatchcase(name, pattern)`
  pub fnmatchcase : String → String → Bool
  -- `now.astimezone(ZoneInfo(tz)).time()`, in microseconds since midnight
  pub local_time : DateTime → String → ℕ
