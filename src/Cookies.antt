-- ===== src/Cookies.antt =====
-- The cookie that keeps a session: web-server/frontend/src/utils/cookies.ts.
pub mod Jar
use remote_labs.Prelude.{List, Option, String, [], code, if◌then◌else◌, nat_eq, none, some, ◌∷◌}
use remote_labs.Js.Text.{split, strip_prefix}
use remote_labs.Runtime.{Action, gets, pure, settle, ◌>>=◌}

-- `while (c.charAt(0) === ' ') c = c.substring(1)`
unfoldable pub drop_spaces : String → String
drop_spaces String.[] = ""
drop_spaces (String.◌∷◌ c s) = if nat_eq (code c) b' ' then drop_spaces s else String.◌∷◌ c s

-- The loop over the parts: the first that begins with the name is the cookie.
unfoldable pub find_part : String → List String → Option String
find_part name [] = none
find_part name (c ∷ cs) = elim (strip_prefix name (drop_spaces c)) [
  | none ↦ find_part name cs
  | some value ↦ some value
]

-- The rest of `getUserIdFromCookie`, on the decoded `document.cookie`.
unfoldable pub get_user_id_from_cookie : String → Option String
unfolding find_part split drop_spaces strip_prefix
get_user_id_from_cookie jar = find_part "userId=" (split b';' jar)

-- `getUserIdFromCookie()`: a cookie text that cannot be decoded is an exception.
unfoldable pub stored_user_id : {L : Type 0} → Action L (Option String)
stored_user_id = do
  jar ← gets (λ s. s.world.jar)
  decode ← gets (λ s. s.world.decode_uri)
  text ← settle (decode jar)
  pure (get_user_id_from_cookie text)
