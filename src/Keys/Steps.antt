-- ===== src/Keys/Steps.antt =====
-- internal/webadmin, internal/service/apikeys.go: requests, one after the other, on the keys and the
-- sessions.
use cronlite.Base.{ℕ, String, List, [], ◌∷◌}
use cronlite.Keys.{Tables, update_last_used_at}
use cronlite.Keys.Service.{World, create_api_key, delete_api_key}
use cronlite.Keys.Sessions.{authenticate}
use cronlite.Keys.SignIn.{
  Handler, Request, manager, handle_login, tailnet_login, setup, handle_logout,
}

pub data Action : Type 0 where
  signs_in signs_out sets_up visits : Request → Action
  signs_in_by_tailnet : Request → (key_label : String) → Action
  creates_key : (namespace : String) → (label : String) → Action
  deletes_key : (namespace : String) → ℕ → Action
  uses_keys : List ℕ → Action

unfoldable pub act : Handler → World → Action → Tables → Tables
act h w (signs_in r) t = (handle_login h w r t).0
act h w (signs_out r) t = (handle_logout h w r t).0
act h w (sets_up r) t = (setup h w r t).0
act h w (visits r) t = (authenticate (manager h r) w r.session_cookie t).0
act h w (signs_in_by_tailnet r key_label) t = (tailnet_login h w r key_label t).0
act h w (creates_key ns label) t = (create_api_key h.hash_token w ns label t).0
act h w (deletes_key ns id) t = (delete_api_key w ns id t).0
act h w (uses_keys ids) t = update_last_used_at w.now ids t

unfoldable pub act_all : Handler → List (World × Action) → Tables → Tables
act_all h [] t = t
act_all h ((w, a) ∷ more) t = act_all h more (act h w a t)

abbrev pub empty_tables : Tables
empty_tables = record { keys = []; sessions = [] }
