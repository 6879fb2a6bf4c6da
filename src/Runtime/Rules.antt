-- ===== src/Runtime/Rules.antt =====
-- What follows from a `do` block that ended without an exception.
use remote_labs.Prelude.{refl, ◌≡◌}
use remote_labs.Runtime.Setting.{Outcome, St, done, thrown}
use remote_labs.Runtime.Flow.{Action, and_then}

module _ {L A B : Type 0} where
  -- A chain that ends with a value did so at each of its two parts.
  pub and_then-done :
      (r : Outcome A) (f : A → Action L B) (s : St L) {b : B}
      → (and_then r f s).0 ≡ done b
      → (a : A) × (r ≡ done a) × ((f a s).0 ≡ done b)
  and_then-done (done a) f s h = (a, refl, h)
  and_then-done (thrown t) f s h = absurd (cc h)

  -- What holds before a continuation and after it holds at the end.
  pub and_then-keeps :
      (P : St L → Type 0) (r : Outcome A) (f : A → Action L B) (s : St L)
      → P s
      → ((a : A) → r ≡ done a → P (f a s).1)
      → P (and_then r f s).1
  and_then-keeps P (done a) f s h k = k a refl
  and_then-keeps P (thrown t) f s h k = h

-- Only a value ends a guarded block with its `then` branch.
pub done_inj {ℓ} : {A : Type ℓ} (a b : A) → done a ≡ done b → a ≡ b
done_inj a b h = cc h
