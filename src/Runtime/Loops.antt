-- ===== src/Runtime/Loops.antt =====
-- `map` and `filter` with functions that may throw: what their results satisfy.
use remote_labs.Prelude.{All, Bool, List, [], arith, false, if◌then◌else◌, refl, true, ◌∷◌, ◌≡◌}
use remote_labs.Js.Value.{Value}
use remote_labs.Runtime.Setting.{St, done}
use remote_labs.Runtime.Flow.{Action, pure, ◌>>=◌}
use remote_labs.Runtime.Effects.{filter_each, map_each}
use remote_labs.Runtime.Rules.{and_then-done, done_inj}

module _ {L : Type 0} (P Q : Value → Type 0) (f : Value → Action L Value) where
  -- What each result of `f` satisfies, all results of a `map` satisfy.
  pub All-map_each :
      ((v w : Value) (s : St L) → P v → (f v s).0 ≡ done w → Q w)
      → (vs ws : List Value) (s : St L) → All P vs
      → (map_each f vs s).0 ≡ done ws
      → All Q ws
  unfolding map_each
  All-map_each each [] ws s p h = rw (← done_inj [] ws h) tt
  All-map_each each (v ∷ vs) ws s p h =
      let s' = (f v s).1 in
      let (w, e, rest) =
        and_then-done (f v s).0 (λ w. map_each f vs >>= λ ws'. pure (w ∷ ws')) s' h in
      let (ws', e', last) =
        and_then-done (map_each f vs s').0 (λ ws'. pure (w ∷ ws')) (map_each f vs s').1 rest in
      rw (← done_inj (w ∷ ws') ws last) (each v w s p.0 e, All-map_each each vs ws' s' p.1 e')

module _ {L : Type 0} (P : Value → Type 0) (f : Value → Action L Bool) where
  -- What the test establishes, all that a `filter` keeps satisfy.
  pub All-filter_each :
      ((v : Value) (s : St L) → (f v s).0 ≡ done true → P v)
      → (vs ws : List Value) (s : St L) → (filter_each f vs s).0 ≡ done ws
      → All P ws
  unfolding filter_each
  All-filter_each test [] ws s h = rw (← done_inj [] ws h) tt
  All-filter_each test (v ∷ vs) ws s h =
      let s' = (f v s).1 in
      let (b, e, rest) =
        and_then-done (f v s).0 (λ b. filter_each f vs >>= λ ws'. pure (if b then v ∷ ws' else ws'))
          s' h in
      let (ws', e', last) =
        and_then-done (filter_each f vs s').0 (λ ws'. pure (if b then v ∷ ws' else ws'))
          (filter_each f vs s').1 rest in
      rw (← done_inj (if b then v ∷ ws' else ws') ws last)
        (keep b v s ws' e (All-filter_each test vs ws' s' e'))
    where
      keep :
          (b : Bool) (v : Value) (s : St L) (ws' : List Value)
          → (f v s).0 ≡ done b
          → All P ws'
          → All P (if b then v ∷ ws' else ws')
      keep true v s ws' e k = (test v s e, k)
      keep false v s ws' e k = k

module _ {L : Type 0} where
  pub map_each-state :
      (f : Value → Action L Value) (vs : List Value) (s : St L)
      → ((v : Value) (t : St L) → (f v t).1 ≡ t)
      → (map_each f vs s).1 ≡ s
  unfolding map_each
  map_each-state f [] s h = refl
  map_each-state f (v ∷ vs) s h = ground (arith, h v s, map_each-state f vs s h)

  pub filter_each-state :
      (f : Value → Action L Bool) (vs : List Value) (s : St L)
      → ((v : Value) (t : St L) → (f v t).1 ≡ t)
      → (filter_each f vs s).1 ≡ s
  unfolding filter_each
  filter_each-state f [] s h = refl
  filter_each-state f (v ∷ vs) s h = ground (arith, h v s, filter_each-state f vs s h)
