-- ===== src/Vm/Request/Laws.antt =====
-- The name of a laboratory's account, and the end of a request.
use remote_labs.Prelude.{
  Bool, inl, inr, subst, sym, ◌⊎◌, List, Option, String, [], arith, false, if◌then◌else◌, not, refl,
  true, ◌&&◌, ◌==◌, ◌||◌, ◌∷◌, ◌≡◌,
}
use remote_labs.Js.Value.{is_empty}
use remote_labs.Runtime.{
  Action, Event, Outcome, St, User, done, lacks_keys, modify, note, skip, try_catch, ◌>>◌,
}
use remote_labs.Vm.Request.{
  LabProps, RequestLab, failed_lab, handle_submit, handle_username_change, request_machine,
  validate_username,
}

-- A name that can be sent, or none yet.
abbrev pub IsName : String → Type 0
IsName username = (validate_username username || is_empty username) ≡ true

-- The passwords agree, the name can be sent and the user has a key.
abbrev pub is_complete : {P : Type 0} → Option User → RequestLab P → Bool
is_complete user r =
    not (lacks_keys user) && validate_username r.username && (r.password == r.confirm_password)

module _ {P : Type 0} (lower : String → String) where
  -- The changes of the input, one after the other.
  abbrev pub type_all : List String → Action (RequestLab P) (Unit {0})
  type_all [] = skip
  type_all (v ∷ vs) = do handle_username_change lower v; type_all vs

  pub typed_lem :
      (v : String) (s : St (RequestLab P))
      → IsName s.local.username
      → let out = handle_username_change lower v s in
        (out.0 ≡ done tt) × IsName out.1.local.username × (out.1.world ≡ s.world)
  unfolding handle_username_change
  typed_lem v s h = ground arith

  -- Whatever is typed, the name of the account holds lower-case letters, digits and underscores
  -- only, if it did before; nothing is asked of the server.
  pub type_all_lem :
      (vs : List String) (s : St (RequestLab P))
      → IsName s.local.username
      → let out = type_all vs s in
        (out.0 ≡ done tt) × IsName out.1.local.username × (out.1.world ≡ s.world)
  type_all_lem [] s h = (refl, h, refl)
  type_all_lem (v ∷ vs) s h =
      ground (arith, typed_lem v s h, type_all_lem vs (handle_username_change lower v s).1)

-- The tests of a submission, over what each branch does.
module _ {A : Type 0} (keys name passwords send : A) where
  abbrev chain : Bool → Bool → Bool → A
  chain a b c = if a then keys else if not b then name else if not c then passwords else send

  chain-send : (a b c : Bool) → (not a && b && c) ≡ true → chain a b c ≡ send
  chain-send false true true h = refl
  chain-send true b c h = absurd (cc h)
  chain-send false false c h = absurd (cc h)
  chain-send false true false h = absurd (cc h)

  chain-others :
      (Q : A → Type 0)
      → Q keys
      → Q name
      → Q passwords
      → (a b c : Bool) → (not a && b && c) ≡ false
      → Q (chain a b c)
  chain-others Q k n p true b c h = k
  chain-others Q k n p false false c h = n
  chain-others Q k n p false true false h = p
  chain-others Q k n p false true true h = absurd (cc h)

  chain-all :
      (Q : A → Type 0) → Q keys → Q name → Q passwords → Q send → (a b c : Bool) → Q (chain a b c)
  chain-all Q k n p q true b c = k
  chain-all Q k n p q false false c = n
  chain-all Q k n p q false true false = p
  chain-all Q k n p q false true true = q

-- The action shows one thing to the user, and does nothing else.
abbrev pub OnlyTells :
    {P : Type 0} → St (RequestLab P) → (Outcome (Unit {0}) × St (RequestLab P)) → Type 0
OnlyTells s out =
    (out.0 ≡ done tt) × (out.1.local ≡ s.local) × ((e : Event) × (out.1.world ≡ note e s.world))

-- A normal end with the dialogue closed.
abbrev pub Closes : {P : Type 0} → (Outcome (Unit {0}) × St (RequestLab P)) → Type 0
Closes out = (out.0 ≡ done tt) × (out.1.local.loading ≡ false) × (out.1.local.is_open ≡ false)

module _ {P : Type 0} (user : Option User) (props : LabProps)
    (on_success : Option (Action P (Unit {0}))) where
  -- A submission of an incomplete form changes no state and sends no request: it only tells the user.
  incomplete_request_lem :
      (s : St (RequestLab P))
      → is_complete user s.local ≡ false
      → OnlyTells s (handle_submit user props on_success s.local s)
  unfolding handle_submit
  incomplete_request_lem s h =
      chain-others {A = Action (RequestLab P) (Unit {0})} _ _ _ _ (λ m. OnlyTells s (m s))
        (refl, refl, (_, refl)) (refl, refl, (_, refl)) (refl, refl, (_, refl)) (lacks_keys user)
        (validate_username s.local.username) (s.local.password == s.local.confirm_password) h

  request_machine-Closes :
      (r : RequestLab P) (s : St (RequestLab P))
      → Closes (
          try_catch
            (request_machine user props on_success r)
            (λ _. do modify (λ l. record l { loading = false; is_open = false }); failed_lab)
            s)
  unfolding request_machine
  request_machine-Closes r s = ground arith

  -- A submission of a complete form always ends normally and closes the dialogue, whatever the
  -- server answers and whatever the callback does.
  pub complete_request_lem :
      (s : St (RequestLab P))
      → is_complete user s.local ≡ true
      → Closes (handle_submit user props on_success s.local s)
  unfolding handle_submit
  complete_request_lem s h =
      rw
        (chain-send _ _ _ _ (lacks_keys user) (validate_username s.local.username)
          (s.local.password == s.local.confirm_password) h)
        (request_machine-Closes s.local _)

  request_machine-username :
      (r : RequestLab P) (s : St (RequestLab P))
      → let out =
          (try_catch
            (request_machine user props on_success r)
            (λ _. do modify (λ l. record l { loading = false; is_open = false }); failed_lab)
            s).1.local.username in
        (out ≡ s.local.username) ⊎ (out ≡ "")
  unfolding request_machine
  request_machine-username r s = ground arith

  IsName-of : (s t : String) → (t ≡ s) ⊎ (t ≡ "") → IsName s → IsName t
  unfolding validate_username
  IsName-of s t (inl e) h = subst IsName (sym e) h
  IsName-of s t (inr e) h = subst IsName (sym e) refl

  pub submit-IsName :
      (s : St (RequestLab P))
      → IsName s.local.username
      → IsName (handle_submit user props on_success s.local s).1.local.username
  unfolding handle_submit
  submit-IsName s h =
      chain-all {A = Action (RequestLab P) (Unit {0})} _ _ _ _ (λ m. IsName (m s).1.local.username)
        h h h (IsName-of s.local.username _ (request_machine-username s.local _) h)
        (lacks_keys user) (validate_username s.local.username)
        (s.local.password == s.local.confirm_password)
