-- ===== src/TokenStore/Tests.antt =====
-- Two processes with two accounts over one file.
use avito_mcp.Prelude.{
  ℕ, zero, suc, String, ◌≡◌, refl, true, none, some, List, [], ◌∷◌, if◌then◌else◌, ◌==◌,
}
use mathlib.Core.Option.{map as map_option}
use avito_mcp.TokenStore.{
  TokenRecord, Fresh, Store, file_of, read_file, get_token, refresh, invalidate, get_metadata,
  new_record,
}
use avito_mcp.TokenStore.Calls.{Call, gets, invalidates, run, init}
use avito_mcp.TokenStore.Accounts.{IsApart, InHistory, run-init-IsApart}
use avito_mcp.TokenStore.Renewal.{
  read_file-file_of, get_token-IsUsable, IsUsable, invalidate-refresh,
}

abbrev fresh : Fresh
fresh = record { access_token = "t1"; expires_in = 3600 }

abbrev kept : TokenRecord
kept = new_record "mine" 1000 fresh

abbrev filled : Store
filled = record { cache = none; file = file_of kept }

abbrev accounts : ℕ → String
accounts zero = "mine"
accounts (suc i) = "theirs"

abbrev history : List (ℕ × Call)
history = (0, gets 0 0 (some fresh) 1000 true) ∷ (1, gets 5 5 none 5 true) ∷ (0, invalidates) ∷ []

from_file : (get_token "mine" 2000 2000 none 2000 true filled).1 ≡ some kept
unfolding get_token read_file file_of
from_file = refl

nothing_for_others : (get_token "theirs" 2000 2000 none 2000 true filled).1 ≡ none
unfolding get_token read_file file_of refresh
nothing_for_others = refl

invalidated : (invalidate "mine" filled).1 ≡ true
unfolding invalidate file_of
invalidated = refl

metadata_without_token : (get_metadata "mine" filled).present ≡ true
unfolding get_metadata read_file file_of
metadata_without_token = refl

run-init-IsApart_example : IsApart (InHistory accounts history) accounts (run accounts init history)
run-init-IsApart_example = run-init-IsApart accounts history

read_file-file_of_sample :
    read_file "mine" (file_of kept) ≡ (if "mine" == "mine" then some kept else none)
read_file-file_of_sample = read_file-file_of "mine" kept

get_token-IsUsable_sample : IsUsable "mine" 2000 2000 2000 none kept
get_token-IsUsable_sample = get_token-IsUsable "mine" 2000 2000 none 2000 true filled kept from_file

invalidate-refresh_sample :
    (refresh "mine" 2000 (some fresh) 3000 true (invalidate "mine" filled).0).1
    ≡ map_option (new_record "mine" 3000) (some fresh)
invalidate-refresh_sample = invalidate-refresh "mine" 2000 (some fresh) 3000 true filled invalidated
