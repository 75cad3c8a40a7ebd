-- ===== src/Keys/Expiry.antt =====
-- internal/webadmin/auth.go: the expiries of the sessions that requests store.
use cronlite.Base.{
  ℕ, ◌+◌, ◌≤◌, ◌≡◌, refl, String, ◌&&◌, ◌||◌, not, Option, none, some, List, [], ◌∷◌, arith, All,
  All-insert, All-delete, All-filter_by, lookup-All, filter_by, ltb, lookup, nat_beq, text_key,
  id_key, if-intro,
}
use cronlite.KeyCache.{ApiKey}
use cronlite.Keys.{
  Tables, AdminSession, has, is_current, create_admin_session, refresh_found, refreshed,
  refresh_admin_session, delete_admin_session, update_last_used_at,
}
use cronlite.Keys.Service.{World}
use cronlite.Keys.Sessions.{session_for}
use cronlite.Keys.SignIn.{Handler, Request, manager}
use cronlite.Keys.Steps.{Action, act, act_all}
use cronlite.Keys.Closed.{Good, Kept}
use cronlite.Keys.Closed.Requests.{act-Kept}

-- The expiries of a session, from its start and its last use.
abbrev pub Timely : Handler → AdminSession → Type 0
Timely h s =
    (s.absolute_expires_at ≡ s.created_at + h.absolute_ttl)
    × (s.expires_at ≤ s.last_seen_at + h.idle_ttl)

abbrev pub AllTimely : Handler → Tables → Type 0
AllTimely h t = All (λ row. Timely h row.1) t.sessions

module _ (h : Handler) (w : World) where
  begins-Timely :
      (r : Request) (key : ApiKey) (raw csrf : String) (t : Tables)
      → AllTimely h t
      → Good (AllTimely h) (create_admin_session (session_for (manager h r) w key raw csrf) t)
  unfolding create_admin_session
  begins-Timely r key raw csrf t p =
      let s = session_for (manager h r) w key raw csrf in
      if-intro (Good (AllTimely h))
        (has s.token_hash t.sessions
          || not (has s.api_key_id t.keys)
          || ltb s.absolute_expires_at s.expires_at)
        _ _ (λ b. tt)
        (λ b.
          All-insert (λ row. Timely h row.1) s.token_hash s
            (filter_by (is_current s.created_at) t.sessions) (λ j. (refl, omega arith))
            (All-filter_by (λ row. Timely h row.1) (is_current s.created_at) t.sessions p))

  refresh_found-Timely :
      (hash : String) (expires : ℕ) (o : Option AdminSession) (t : Tables)
      → expires ≤ w.now + h.idle_ttl
      → lookup hash t.sessions ≡ o
      → AllTimely h t
      → Good (AllTimely h) (refresh_found hash w.now expires o t)
  refresh_found-Timely hash expires none t le e p = tt
  refresh_found-Timely hash expires (some s) t le e p =
      let (fixed, idle) = lookup-All (Timely h) hash s t.sessions p e in
      if-intro (Good (AllTimely h)) (ltb w.now s.expires_at && ltb w.now s.absolute_expires_at) _ _
        (λ b.
          All-insert (λ row. Timely h row.1) hash (refreshed w.now expires s) t.sessions
            (λ j. (fixed, ground (arith, le))) p)
        (λ b. tt)

  extends-Timely :
      (hash : String) (expires : ℕ) (t : Tables)
      → expires ≤ w.now + h.idle_ttl
      → AllTimely h t
      → Good (AllTimely h) (refresh_admin_session hash w.now expires t)
  unfolding refresh_admin_session
  extends-Timely hash expires t le p =
      refresh_found-Timely hash expires (lookup hash t.sessions) t le refl p

  forgets-Timely :
      (hash : String) (t : Tables) → AllTimely h t → AllTimely h (delete_admin_session hash t)
  unfolding delete_admin_session
  forgets-Timely hash t p = All-delete (λ row. Timely h row.1) hash t.sessions p

  uses-Timely :
      (ids : List ℕ) (t : Tables) → AllTimely h t → AllTimely h (update_last_used_at w.now ids t)
  unfolding update_last_used_at
  uses-Timely ids t p = p

  pub kept-AllTimely : Kept h w (AllTimely h)
  kept-AllTimely = record {
    forgets = forgets-Timely;
    begins = begins-Timely;
    extends = extends-Timely;
    adds = λ key t e p. p;
    removes = λ id t p.
        All-filter_by (λ row. Timely h row.1) (λ row. not (nat_beq row.1.api_key_id id)) t.sessions
          p;
    uses = uses-Timely;
  }

pub act_all-Timely :
    (h : Handler) (acts : List (World × Action)) (t : Tables)
    → AllTimely h t
    → AllTimely h (act_all h acts t)
unfolding act_all
act_all-Timely h [] t p = p
act_all-Timely h ((w, a) ∷ more) t p =
    act_all-Timely h more (act h w a t) (act-Kept h w (AllTimely h) (kept-AllTimely h w) a t p)
