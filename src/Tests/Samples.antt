-- ===== src/Tests/Samples.antt =====
-- A server, a user and rows on which the code runs.
use remote_labs.Prelude.{Bool, Option, [], concat, false, none, some, true, ◌∷◌}
use remote_labs.Js.Value.{Fields, Value, arr, cons, nil, num, obj, str}
use remote_labs.Runtime.{Outcome, Reply, St, User, World, done, error, fields, thrown}
use remote_labs.Vm.Table.{VmListItem}

abbrev pub reply : Bool → Value → Outcome Reply
reply is_ok v = done (record {
  is_ok = is_ok;
  content_type = some "application/json";
  text = done "refused";
  json = done v;
})

-- A server that answers everything alike.
abbrev pub server : Outcome Reply → World
server answer = record {
  net = λ log q. answer;
  parse = λ text. done (arr nil);
  scaled_int = λ text k. num k;
  type_error = λ k. k;
  translate = λ text. text;
  api_url = none;
  decode_uri = λ text. done text;
  jar = "userId=u1";
  jar_set = λ jar v. concat "userId=" v;
  jar_remove = λ jar. "";
  log = [];
  auth = record { is_logged_in = false; user = none; is_loading = false };
  busy = false;
}

abbrev pub st : {L : Type 0} → L → World → St L
st l w = record { local = l; world = w }

abbrev pub details : Fields
details = fields (
    ("id", str "u1")
    ∷ ("subjectId", str "s1")
    ∷ ("name", str "Ada")
    ∷ ("mail", str "a@b")
    ∷ ("role", str "student")
    ∷ [])

abbrev pub accepting : World
accepting = server (reply true (obj details))

abbrev pub refusing : World
refusing = server (reply false (obj details))

abbrev pub down : World
down = server (thrown (error "Failed to fetch"))

abbrev pub student : Option User
student = some (record {
  id = str "u1";
  name = str "Ada";
  mail = str "a@b";
  role = str "student";
  public_ssh_keys = arr (cons (str "ssh") nil);
})

abbrev pub row : VmListItem
row = record {
  instance_id = "i1";
  status = "shut off";
  user_id = "u1";
  subject_id = "s1";
  template_id = "t1";
  created_at = "";
  user_mail = "a@b";
  subject_name = "Networks";
  template_description = "";
  template_vcpu_count = 1;
  template_vram_mb = 1024;
  template_size_mb = 2048;
  template_os = "linux";
}
