-- ===== src/Auth/Restore.antt =====
-- The effect of AuthContext.tsx at the start of a page, and the session that it restores.
use remote_labs.Prelude.{
  Option, String, arith, concat, false, is_some, none, some, refl, Bool, ap, sym, ◌∙◌, true, ◌&&◌,
  ◌↔◌, ◌∷◌, ◌≡◌, ◌⊎◌,
}
use remote_labs.Js.Value.{Value, is_empty, str}
use remote_labs.Js.Text.{to_text}
use remote_labs.Env.{api_base_url, get_env}
use remote_labs.Runtime.{
  Auth, Outcome, and_then, pure, thrown, Request, St, cookie_removed, cookie_set, done, is_thrown,
  json_request, note, requested,
}
use remote_labs.Cookies.{get_user_id_from_cookie, stored_user_id}
use remote_labs.Auth.Login.{fetch_user_details-done, fetch_user_details-jar}
use remote_labs.Auth.{
  fetch_user_details, handle_successful_auth, nothing, on_mount, protected_route, restore,
}

-- The request for the details of a user.
abbrev pub details_request : Option String → String → Request
details_request vite id =
    json_request "GET" (concat (get_env vite api_base_url) (concat "/users/" id)) none

protected_route-nothing : (a : Auth) → (protected_route a ≡ nothing) ↔ (a.is_loading ≡ true)
unfolding protected_route
protected_route-nothing a = ground arith

and_true : {a : Bool} (b : Bool) → (a && b) ≡ true → (a ≡ true) × (b ≡ true)
and_true b h = ground (arith, h)

module _ {L : Type 0} where
  restore_ends :
      (stored : Option String) (s : St L)
      → ((restore stored s).0 ≡ done tt) × ((restore stored s).1.world.auth.is_loading ≡ false)
  unfolding restore
  restore_ends none s = (refl, refl)
  restore_ends (some stored) s = ground arith

  -- The effect, for what the decoding gives.
  ends_at :
      (o : Outcome String) (s : St L)
      → let stored = and_then {L = L} o (λ text. pure (get_user_id_from_cookie text)) s in
        let out = and_then stored.0 (λ u. restore u) stored.1 in
        (is_thrown out.0 ≡ is_thrown o)
        × (out.1.world.auth.is_loading ≡ (is_thrown o && s.world.auth.is_loading))
  ends_at (thrown t) s = (refl, refl)
  ends_at (done text) s =
      let (d, l) = restore_ends (get_user_id_from_cookie text) s in (ap is_thrown d, l)

  -- However the server answers, the effect throws exactly if the text of the cookies cannot be decoded,
  -- which leaves the loading as it was; in any other case it ends the loading. So a protected page that
  -- waits for the session shows nothing after the effect exactly if the text cannot be decoded, and else
  -- it shows its content or goes to the login page.
  pub on_mount_ends :
      (s : St L)
      → let lost = is_thrown (s.world.decode_uri s.world.jar) in
        let out = on_mount s in
        (is_thrown out.0 ≡ lost)
        × (out.1.world.auth.is_loading ≡ (lost && s.world.auth.is_loading))
        × ((protected_route out.1.world.auth ≡ nothing)
            ↔ ((lost ≡ true) × (s.world.auth.is_loading ≡ true)))
  unfolding on_mount stored_user_id
  on_mount_ends s =
      let (thrown', loading) = ends_at (s.world.decode_uri s.world.jar) s in
      let (to, from) = protected_route-nothing (on_mount s).1.world.auth in
      (
        thrown',
        loading,
        (
          λ h. and_true s.world.auth.is_loading (sym loading ∙ to h),
          λ h. from (loading ∙ rw (h.0, h.1) refl),
        ),
      )

  fetch_user_details-log :
      (v : Value) (s : St L)
      → (fetch_user_details v s).1.world.log
        ≡ requested (details_request s.world.api_url (to_text v)) ∷ s.world.log
  unfolding fetch_user_details
  fetch_user_details-log v s = ground arith

  fetch_user_details_user :
      (u : String) (s : St L)
      → (fetch_user_details (str u) s).1.world.log
        ≡ requested (details_request s.world.api_url u) ∷ s.world.log
  unfolding to_text
  fetch_user_details_user u s = fetch_user_details-log (str u) s

  fetch_user_details-jar_remove :
      (v : Value) (s : St L) → (fetch_user_details v s).1.world.jar_remove ≡ s.world.jar_remove
  unfolding fetch_user_details
  fetch_user_details-jar_remove v s = ground arith

  fetch_user_details-api_url :
      (v : Value) (s : St L) → (fetch_user_details v s).1.world.api_url ≡ s.world.api_url
  unfolding fetch_user_details
  fetch_user_details-api_url v s = ground arith

  on_mount-restore :
      (s : St L) (text : String)
      → s.world.decode_uri s.world.jar ≡ done text
      → on_mount s ≡ restore (get_user_id_from_cookie text) s
  unfolding on_mount stored_user_id
  on_mount-restore s text h = ground (arith, h)

  fetch_user_details-decode_uri :
      (v : Value) (s : St L) → (fetch_user_details v s).1.world.decode_uri ≡ s.world.decode_uri
  unfolding fetch_user_details
  fetch_user_details-decode_uri v s = ground arith

  restore_lem :
      (s : St L) (u : String)
      → is_empty u ≡ false
      → let w = (restore (some u) s).1.world in
        let seen = requested (details_request s.world.api_url u) ∷ s.world.log in
        ((w.auth.is_logged_in ≡ true)
          × (is_some w.auth.user ≡ true)
          × (w.log ≡ seen)
          × (w.jar ≡ s.world.jar))
        ⊎ ((w.auth.is_logged_in ≡ false)
            × (w.auth.user ≡ none)
            × (w.log ≡ cookie_removed ∷ seen)
            × (w.jar ≡ s.world.jar_remove s.world.jar))
  unfolding restore
  restore_lem s u e = ground (
    arith,
    fetch_user_details-done (str u) s,
    fetch_user_details-jar (str u) s,
    fetch_user_details_user u s,
    fetch_user_details-jar_remove (str u) s,
  )

  -- With a user in the decoded cookie whose text is not empty, exactly one request is sent, for that
  -- user's details: either it loads the user, and the cookie is kept, or nobody is logged in and
  -- the cookie is removed.
  pub on_mount_lem :
      (s : St L) (text u : String)
      → s.world.decode_uri s.world.jar ≡ done text
      → get_user_id_from_cookie text ≡ some u
      → is_empty u ≡ false
      → let w = (on_mount s).1.world in
        let seen = requested (details_request s.world.api_url u) ∷ s.world.log in
        ((w.auth.is_logged_in ≡ true)
          × (is_some w.auth.user ≡ true)
          × (w.log ≡ seen)
          × (w.jar ≡ s.world.jar))
        ⊎ ((w.auth.is_logged_in ≡ false)
            × (w.auth.user ≡ none)
            × (w.log ≡ cookie_removed ∷ seen)
            × (w.jar ≡ s.world.jar_remove s.world.jar))
  on_mount_lem s text u d h e = rw (on_mount-restore s text d) (rw h (restore_lem s u e))

  -- After a login, if the identifier is not empty and the cookie text that js-cookie makes is decoded
  -- to a text that gives it back, the effect of the next page asks first for the details of the same user, whatever
  -- the first request of them answered; it removes the cookie at most.
  pub session_restored :
      (v : Value) (s : St L) (text : String)
      → is_empty (to_text v) ≡ false
      → s.world.decode_uri (s.world.jar_set s.world.jar (to_text v)) ≡ done text
      → get_user_id_from_cookie text ≡ some (to_text v)
      → let s' = (handle_successful_auth v s).1 in
        let q = requested (details_request s.world.api_url (to_text v)) in
        (s'.world.log ≡ q ∷ cookie_set (to_text v) ∷ s.world.log)
        × (((on_mount s').1.world.log ≡ q ∷ s'.world.log)
            ⊎ ((on_mount s').1.world.log ≡ cookie_removed ∷ q ∷ s'.world.log))
  unfolding handle_successful_auth
  session_restored v s text e d h =
      let s₀ : St L = record s {
        world = record (note (cookie_set (to_text v)) s.world) {
          jar = s.world.jar_set s.world.jar (to_text v);
        };
      } in
      let s' = (fetch_user_details v s₀).1 in
      ground (
        arith,
        fetch_user_details-log v s₀,
        fetch_user_details-api_url v s₀,
        on_mount_lem s' text (to_text v)
            (rw (fetch_user_details-decode_uri v s₀, fetch_user_details-jar v s₀) d) h e,
      )
