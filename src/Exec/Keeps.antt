-- ===== src/Exec/Keeps.antt =====
-- What an action keeps of the state, and the rules for the parts of a `do` block.
use gear_mcp_server.Base.{Bool, true, false, if◌then◌else◌}
use gear_mcp_server.Exec.{Result, ok, threw, Exec, pure, lift, gets, ◌>>=◌}

-- The action keeps `P`, whether it returns or throws.
pub record Keeps {S A : Type 0} (P : S → Type 0) (m : Exec S A) : Type 0 where
  pub at : (s : S) → P s → P (m s).1

module _ {S A : Type 0} {P : S → Type 0} where
  pub Keeps-pure : (a : A) → Keeps P (pure a)
  Keeps-pure a = record { at = λ s h. h }

  pub Keeps-lift : (r : Result A) → Keeps P (lift r)
  Keeps-lift r = record { at = λ s h. h }

  pub Keeps-gets : (f : S → A) → Keeps P (gets f)
  Keeps-gets f = record { at = λ s h. h }

  pub Keeps-if : (b : Bool) (m n : Exec S A) → Keeps P m → Keeps P n → Keeps P (if b then m else n)
  Keeps-if true m n km kn = km
  Keeps-if false m n km kn = kn

module _ {S A B : Type 0} {P : S → Type 0} where
  pub Keeps-bind :
      (m : Exec S A) (f : A → Exec S B) → Keeps P m → ((a : A) → Keeps P (f a)) → Keeps P (m >>= f)
  Keeps-bind m f km kf = record { at = λ s h. go (m s).0 (m s).1 (km.at s h) }
    where
      go : (r : Result A) (s : S) → P s → P (gear_mcp_server.Exec.continue r f s).1
      go (ok a) s h = (kf a).at s h
      go (threw e) s h = h

pub ruleset keeps_rules = (Keeps-pure, Keeps-lift, Keeps-gets, Keeps-if, Keeps-bind)
