-- ===== src/TokenStore.antt =====
-- core/token-store.ts: the access token of an account, in the memory of each process and in one file. The
-- lock of the file makes a refresh one step. The promise that callers of one process share while a
-- refresh runs is left out: they get what the refresh gives. The fingerprint of an account is a text.
pub mod Calls
pub mod Accounts
pub mod Renewal
mod Tests
use avito_mcp.Prelude.{
  ℕ, String, ◌+◌, ◌*◌, ◌==◌, Bool, true, false, ◌&&◌, Option, none, some, ltb, eqb, is_some,
  if◌then◌else◌,
}
use avito_mcp.Json.{Json, Properties, no_more, has_property, obj, str, num, null, field}

-- `version` is 1
pub record TokenRecord : Type 0 where
  pub account_fingerprint : String
  pub access_token : String
  pub expires_at : ℕ

pub data File : Type 0 where
  missing unreadable : File
  holds : Json → File

-- what `/token` grants
pub record Fresh : Type 0 where
  pub access_token : String
  pub expires_in : ℕ

pub record TokenMetadata : Type 0 where
  pub present : Bool
  pub expires_at : Option ℕ

-- refresh one minute before expiry
abbrev pub skew_ms : ℕ
skew_ms = 60000

abbrev text_in : Option Json → Option String
text_in (some (str s)) = some s
text_in _ = none

abbrev number_in : Option Json → Option ℕ
number_in (some (num n)) = some n
number_in _ = none

abbrev pub is_text : Option Json → String → Bool
is_text (some (str s)) t = s == t
is_text _ t = false

abbrev is_number : Option Json → ℕ → Bool
is_number (some (num n)) m = eqb n m
is_number _ m = false

abbrev record_of : String → Option String → Option ℕ → Option TokenRecord
record_of fingerprint (some token) (some expires_at) =
    some
      (record { account_fingerprint = fingerprint; access_token = token; expires_at = expires_at })
record_of fingerprint _ _ = none

-- `readFile`: a record of another account is none
unfoldable pub read_file : String → File → Option TokenRecord
read_file fingerprint (holds parsed) =
    if is_number (field parsed "version") 1
      && is_text (field parsed "accountFingerprint") fingerprint
    then record_of fingerprint (text_in (field parsed "accessToken"))
        (number_in (field parsed "expiresAt"))
    else none
read_file fingerprint _ = none

-- what `writeFile` writes
unfoldable pub file_of : TokenRecord → File
file_of r = holds (
    obj (
      has_property "version" (num 1) (
        has_property "accountFingerprint" (str r.account_fingerprint) (
          has_property "accessToken" (str r.access_token)
            (has_property "expiresAt" (num r.expires_at) no_more)))))

-- `writeFile`: a failure is logged and leaves the file as it was
unfoldable pub write_file : (ok : Bool) → TokenRecord → File → File
write_file ok r file = if ok then file_of r else file

-- one process over the file
pub record Store : Type 0 where
  pub cache : Option TokenRecord
  pub file : File

abbrev pub is_live : ℕ → Option TokenRecord → Bool
is_live now none = false
is_live now (some r) = ltb (now + skew_ms) r.expires_at

abbrev pub new_record : String → ℕ → Fresh → TokenRecord
new_record fingerprint now fresh = record {
  account_fingerprint = fingerprint;
  access_token = fresh.access_token;
  expires_at = now + fresh.expires_in * 1000;
}

abbrev pub renewed :
    String → (now : ℕ) → (write_ok : Bool) → Option Fresh → Store → Store × Option TokenRecord
renewed fingerprint now ok none s = (s, none)
renewed fingerprint now ok (some fresh) s =
    let r = new_record fingerprint now fresh in
    (record { cache = some r; file = write_file ok r s.file }, some r)

-- `refresh`: under the lock the file is read again. `fetched` is what the fetcher gives, if it is
-- called, and `none` if it throws.
unfoldable pub refresh :
    String
    → (now : ℕ) → (fetched : Option Fresh) → (fetched_at : ℕ) → (write_ok : Bool) → Store
    → Store × Option TokenRecord
refresh fingerprint now fetched fetched_at ok s =
    let from_file = read_file fingerprint s.file in
    if is_live now from_file
    then (record s { cache = from_file }, from_file)
    else renewed fingerprint fetched_at ok fetched s

abbrev pub from_file_or_refresh :
    (now : ℕ) → Option TokenRecord → Store × Option TokenRecord → Store → Store × Option TokenRecord
from_file_or_refresh now from_file refreshed s =
    if is_live now from_file then (record s { cache = from_file }, from_file) else refreshed

-- `getToken`, as the record of the token; the clock is read before the file is read and again in `refresh`
unfoldable pub get_token :
    String
    → (now : ℕ) → (refresh_at : ℕ) → (fetched : Option Fresh) → (fetched_at : ℕ) → (write_ok : Bool)
    → Store
    → Store × Option TokenRecord
get_token fingerprint now refresh_at fetched fetched_at ok s =
    if is_live now s.cache
    then (s, s.cache)
    else if is_some s.cache
    then refresh fingerprint refresh_at fetched fetched_at ok s
    else from_file_or_refresh now (read_file fingerprint s.file)
        (refresh fingerprint refresh_at fetched fetched_at ok s) s

abbrev metadata : Option TokenRecord → TokenMetadata
metadata none = record { present = false; expires_at = none }
metadata (some r) = record { present = true; expires_at = some r.expires_at }

-- `getMetadata`
unfoldable pub get_metadata : String → Store → TokenMetadata
get_metadata fingerprint s =
    metadata (if is_some s.cache then s.cache else read_file fingerprint s.file)

abbrev dropped : String → File → File × Bool
dropped fingerprint missing = (missing, true)
dropped fingerprint unreadable = (unreadable, false)
dropped fingerprint (holds null) = (holds null, false)
dropped fingerprint (holds parsed) =
    if is_text (field parsed "accountFingerprint") fingerprint
    then (missing, true)
    else (holds parsed, true)

-- `invalidate`, and false where it throws: the file cannot be read or parsed. The cache goes either way.
unfoldable pub invalidate : String → Store → Store × Bool
invalidate fingerprint s =
    let (file, ok) = dropped fingerprint s.file in (record { cache = none; file = file }, ok)
