-- ===== src/Install/Sequence.antt =====
-- Sequences of registrations.
use esp_dmx.Prelude.{◌≡◌, refl, Bool, Option, none, some, List, [], ◌∷◌, ◌++◌, ◌>>=◌}
use esp_dmx.Parameter.{Store}
use esp_dmx.Install.Parameters.{Step, register_each}

pub register_one :
    (f : Step) (fs : List Step) (s s' : Store) (done : Bool) (r : Option Store)
    → f s ≡ some (done, s')
    → register_each fs s' ≡ r
    → register_each (f ∷ fs) s ≡ r
unfolding register_each
register_one f fs s s' done r e e' = rw (e, e') refl

after :
    (fs gs : List Step)
    → ((s : Store) → register_each (fs ++ gs) s ≡ (register_each fs s >>= register_each gs))
    → (o : Option (Bool × Store))
    → (o >>= λ (done, s). register_each (fs ++ gs) s)
      ≡ ((o >>= λ (done, s). register_each fs s) >>= register_each gs)
after fs gs ih none = refl
after fs gs ih (some (done, s)) = ih s

pub register_each-append :
    (fs gs : List Step) (s : Store)
    → register_each (fs ++ gs) s ≡ (register_each fs s >>= register_each gs)
unfolding register_each
register_each-append [] gs s = refl
register_each-append (f ∷ fs) gs s = after fs gs (register_each-append fs gs) (f s)
