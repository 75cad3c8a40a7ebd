-- ===== src/Keys/Service.antt =====
-- internal/service/apikeys.go: the operations on API keys.
use cronlite.Base.{ℕ, String, Bool, true, Option, none, some, List, ◌==◌, text_key, if◌then◌else◌}
use cronlite.KeyCache.{ApiKey}
use cronlite.Jobs.Listing.{ListParams, with_defaults}
use cronlite.Keys.{
  Tables, Outcome, ok, err, namespace_required, empty_login, no_randomness, database_failed,
  insert_api_key, insert_first_api_key, get_or_create_tailnet_key, list_keys, delete_key,
}

pub data Call : Type 0 where
  key_insert key_lookup key_deletion session_insert session_lookup session_refresh : Call
  session_deletion key_count : Call

-- What one request meets: the clock, a new id, new random values, of which `new_token` is the text
-- "ec_" and its digits, and which calls of the database fail.
pub record World : Type 0 where
  pub now : ℕ
  pub new_id : ℕ
  pub new_token : Option String
  pub new_session : Option String
  pub new_csrf : Option String
  pub fails : Call → Bool

-- A statement, or its failure.
abbrev pub call : World → Call → Outcome Tables → Outcome Tables
call w c r = if w.fails c then err database_failed else r

abbrev pub CreateApiKeyResult : Type 0
CreateApiKeyResult = String × ApiKey

abbrev pub key_of : (String → String) → World → String → String → String → String → ApiKey
key_of hash_token w ns label login token = record {
  id = w.new_id;
  namespace = ns;
  token_hash = hash_token token;
  label = label;
  enabled = true;
  created_at = w.now;
  last_used_at = none;
  tailnet_login = login;
}

-- Rand's failure, or the new token and its key.
abbrev pub new_api_key :
    (String → String) → World → String → String → String → Outcome CreateApiKeyResult
new_api_key hash_token w ns label login = elim w.new_token [
  | none ↦ err no_randomness
  | some token ↦ ok (token, key_of hash_token w ns label login token)
]

abbrev pub stored :
    CreateApiKeyResult → Tables → Outcome Tables → Tables × Outcome CreateApiKeyResult
stored key t (ok t1) = (t1, ok key)
stored key t (err e) = (t, err e)

abbrev pub insert_new :
    World
    → Outcome CreateApiKeyResult
    → (ApiKey → Tables → Outcome Tables)
    → Tables
    → Tables × Outcome CreateApiKeyResult
insert_new w (err e) f t = (t, err e)
insert_new w (ok key) f t = stored key t (call w key_insert (f key.1 t))

unfoldable pub create_api_key :
    (String → String) → World → String → String → Tables → Tables × Outcome CreateApiKeyResult
create_api_key hash_token w ns label t =
    if ns == ""
    then (t, err namespace_required)
    else insert_new w (new_api_key hash_token w ns label "") insert_api_key t

unfoldable pub bootstrap_first_api_key :
    (String → String) → World → String → String → Tables → Tables × Outcome CreateApiKeyResult
bootstrap_first_api_key hash_token w ns label t =
    if ns == ""
    then (t, err namespace_required)
    else insert_new w (new_api_key hash_token w ns label "") insert_first_api_key t

abbrev pub got : Tables → Outcome (Tables × ApiKey) → Tables × Outcome ApiKey
got t (ok (t1, key)) = (t1, ok key)
got t (err e) = (t, err e)

abbrev pub get_or_create : World → Outcome CreateApiKeyResult → Tables → Tables × Outcome ApiKey
get_or_create w (err e) t = (t, err e)
get_or_create w (ok key) t =
    if w.fails key_insert
    then (t, err database_failed)
    else got t (get_or_create_tailnet_key key.1 t)

-- `label` is the text "tailscale: " and the login.
unfoldable pub tailnet_key :
    (String → String)
    → World
    → String
    → String
    → (label : String) → Tables
    → Tables × Outcome ApiKey
tailnet_key hash_token w ns login label t =
    if ns == ""
    then (t, err namespace_required)
    else (if login == ""
        then (t, err empty_login)
        else get_or_create w (new_api_key hash_token w ns label login) t)

unfoldable pub list_api_keys : String → ListParams → Tables → Outcome (List ApiKey)
list_api_keys ns params t =
    if ns == "" then err namespace_required else ok (list_keys ns (with_defaults params) t)

abbrev pub settled : Tables → Outcome Tables → Tables × Outcome {0} Unit
settled t (ok t1) = (t1, ok tt)
settled t (err e) = (t, err e)

unfoldable pub delete_api_key : World → String → ℕ → Tables → Tables × Outcome {0} Unit
delete_api_key w ns id t =
    if ns == ""
    then (t, err namespace_required)
    else settled t (call w key_deletion (delete_key id ns t))
