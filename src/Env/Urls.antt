-- ===== src/Env/Urls.antt =====
-- The addresses that the hooks make from the patterns of Env.ts with `replace`.
use text.Mathlib.TextLemmas.{append-nil as concat-nil, append_assoc as concat_assoc}
use remote_labs.Prelude.{Char, Option, String, ap, arith, code, concat, sym, ◌∙◌, ◌≡◌}
use remote_labs.Js.Text.{replace}
use remote_labs.Js.Text.Replace.{Lacks, Lacks-concat, replace_lem}
use remote_labs.Env.{
  Endpoint, api_delete_instance, api_enroll_user_in_subject, api_get_wireguard,
  api_remove_user_from_subject, api_start_instance, api_stop_instance, base_url, get_env,
}

-- One hole, behind two texts that lack its first character.
pub replace_hole :
    (base lit : String) (c : Char) (p v rest : String)
    → Lacks (code c) base
    → Lacks (code c) lit
    → Lacks b'$' v
    → replace (concat base (concat lit (concat (String.◌∷◌ c p) rest))) (String.◌∷◌ c p) v
      ≡ concat base (concat lit (concat v rest))
replace_hole base lit c p v rest h k g =
    ap (λ t. replace t (String.◌∷◌ c p) v)
      (sym (concat_assoc base lit (concat (String.◌∷◌ c p) rest)))
    ∙ replace_lem (concat base lit) c p v rest (Lacks-concat (code c) base lit h k) g
    ∙ concat_assoc base lit (concat v rest)

-- The same at the end of a pattern.
pub replace_last :
    (base lit : String) (c : Char) (p v : String)
    → Lacks (code c) base
    → Lacks (code c) lit
    → Lacks b'$' v
    → replace (concat base (concat lit (String.◌∷◌ c p))) (String.◌∷◌ c p) v
      ≡ concat base (concat lit v)
replace_last base lit c p v h k g =
    ap (λ t. replace (concat base (concat lit t)) (String.◌∷◌ c p) v)
      (sym (concat-nil (String.◌∷◌ c p)))
    ∙ replace_hole base lit c p v "" h k g
    ∙ ap (λ t. concat base (concat lit t)) (concat-nil v)

-- The addresses of one machine: for a base with no brace and an identifier with no `$`, the
-- identifier stands whole behind the path, and nothing of the pattern is left.
instance_urls :
    (vite : Option String) (id : String)
    → Lacks b'{' (base_url vite)
    → Lacks b'$' id
    → let url = λ (e : Endpoint). replace (get_env vite e) "{instanceId}" id in
      let base = base_url vite in
      (url api_start_instance ≡ concat base (concat "/instances/start/" id))
      × (url api_stop_instance ≡ concat base (concat "/instances/stop/" id))
      × (url api_delete_instance ≡ concat base (concat "/instances/delete/" id))
      × (url api_get_wireguard ≡ concat base (concat "/instances/wireguard/" id))
instance_urls vite id h g = (
  replace_last (base_url vite) "/instances/start/" "{" "instanceId}" id h (ground arith) g,
  replace_last (base_url vite) "/instances/stop/" "{" "instanceId}" id h (ground arith) g,
  replace_last (base_url vite) "/instances/delete/" "{" "instanceId}" id h (ground arith) g,
  replace_last (base_url vite) "/instances/wireguard/" "{" "instanceId}" id h (ground arith) g,
)

-- The two holes of an enrolment, filled one behind the other.
pub replace_two :
    (base lit sid lit' mail : String)
    → Lacks b'{' base
    → Lacks b'{' lit
    → Lacks b'{' sid
    → Lacks b'{' lit'
    → Lacks b'$' sid
    → Lacks b'$' mail
    → replace
        (replace
          (concat base (concat lit (concat "{subjectId}" (concat lit' "{userEmail}"))))
          "{subjectId}"
          sid)
        "{userEmail}"
        mail
      ≡ concat base (concat lit (concat sid (concat lit' mail)))
replace_two base lit sid lit' mail h k m k' g g' =
    ap (λ t. replace t "{userEmail}" mail)
      (replace_hole base lit "{" "subjectId}" sid (concat lit' "{userEmail}") h k g
        ∙ ap (concat base) (
            sym (concat_assoc lit sid (concat lit' "{userEmail}"))
            ∙ sym (concat_assoc (concat lit sid) lit' "{userEmail}")))
    ∙ replace_last base (concat (concat lit sid) lit') "{" "userEmail}" mail h
        (Lacks-concat b'{' (concat lit sid) lit' (Lacks-concat b'{' lit sid k m) k') g'
    ∙ ap (concat base)
        (concat_assoc (concat lit sid) lit' mail ∙ concat_assoc lit sid (concat lit' mail))

-- The addresses that enrol a user in a subject and remove one: for a base and a subject with no
-- brace and a subject and a mail with no `$`, both stand whole in the path.
enrolment_urls :
    (vite : Option String) (sid mail : String)
    → Lacks b'{' (base_url vite)
    → Lacks b'{' sid
    → Lacks b'$' sid
    → Lacks b'$' mail
    → let url =
        λ (e : Endpoint). replace (replace (get_env vite e) "{subjectId}" sid) "{userEmail}" mail in
      let base = base_url vite in
      (url api_enroll_user_in_subject
        ≡ concat base (concat "/subjects/" (concat sid (concat "/add/users/" mail))))
      × (url api_remove_user_from_subject
          ≡ concat base (concat "/subjects/" (concat sid (concat "/remove/users/" mail))))
enrolment_urls vite sid mail h m g g' = (
  replace_two (base_url vite) "/subjects/" sid "/add/users/" mail h (ground arith) m (ground arith)
      g g',
  replace_two (base_url vite) "/subjects/" sid "/remove/users/" mail h (ground arith) m
      (ground arith) g g',
)
