-- ===== src/Markup/Laws.antt =====
-- What a list of rows offers.
use remote_labs.Prelude.{List, Option, [], inl, inr, ◌∷◌}
use remote_labs.Markup.{Markup, OffersIn, each}

-- An event that no row offers is not offered by the rows.
pub each-none :
    {A E : Type 0} (form : Option E) (m : A → Markup E) (x : E)
    → ((a : A) → OffersIn form (m a) x → ⊥)
    → (xs : List A) → OffersIn form (each m xs) x
    → ⊥
each-none form m x never [] h = h
each-none form m x never (a ∷ rest) (inl h) = never a h
each-none form m x never (a ∷ rest) (inr h) = each-none form m x never rest h
