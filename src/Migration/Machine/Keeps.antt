-- ===== src/Migration/Machine/Keeps.antt =====
-- Invariants of actions, one rule for each way to build an action.
use telegramv.Prelude.{◌≡◌, refl, subst, Bool, true, false, String, if◌then◌else◌}
use telegramv.Migration.Machine.{
  recover, World, Outcome, ok, raised, out_of_fuel, Exec, return, raise, starve, continue, ◌>>=◌,
  ◌>>◌, gets, modify, catch, finally,
}

-- `m` keeps `P`, whether it returns, raises or runs out of fuel.
pub record Keeps {A : Type 0} (P : World → Type 0) (m : Exec A) : Type 0 where
  pub at : (w : World) → P w → P (m w).1

module _ {A : Type 0} {P : World → Type 0} where
  pub Keeps-return : (a : A) → Keeps P (return a)
  unfolding return
  Keeps-return a = record { at = λ w h. h }

  pub Keeps-raise : (error : String) → Keeps P (raise {A = A} error)
  unfolding raise
  Keeps-raise error = record { at = λ w h. h }

  pub Keeps-starve : Keeps P (starve {A = A})
  unfolding starve
  Keeps-starve = record { at = λ w h. h }

  pub Keeps-gets : (f : World → A) → Keeps P (gets f)
  unfolding gets
  Keeps-gets f = record { at = λ w h. h }

  pub Keeps-if : (b : Bool) (m n : Exec A) → Keeps P m → Keeps P n → Keeps P (if b then m else n)
  Keeps-if true m n km kn = km
  Keeps-if false m n km kn = kn

  Keeps-recover :
      (r : Outcome A) (w : World) (handler : String → Exec A)
      → P w
      → ((error : String) → Keeps P (handler error))
      → P (recover r w handler).1
  Keeps-recover (ok a) w handler h kh = h
  Keeps-recover (raised error) w handler h kh = (kh error).at w h
  Keeps-recover out_of_fuel w handler h kh = h

  pub Keeps-catch :
      (m : Exec A) (handler : String → Exec A)
      → Keeps P m
      → ((error : String) → Keeps P (handler error))
      → Keeps P (catch m handler)
  unfolding catch
  Keeps-catch m handler km kh = record {
    at = λ w h. Keeps-recover (m w).0 (m w).1 handler (km.at w h) kh;
  }

  pub Keeps-finally :
      (m : Exec A) (cleanup : World → World)
      → Keeps P m
      → ((w : World) → P w → P (cleanup w))
      → Keeps P (finally m cleanup)
  unfolding finally
  Keeps-finally m cleanup km kc = record { at = λ w h. kc (m w).1 (km.at w h) }

module _ {P : World → Type 0} where
  pub Keeps-modify : (f : World → World) → ((w : World) → P w → P (f w)) → Keeps P (modify f)
  unfolding modify
  Keeps-modify f kf = record { at = kf }

module _ {A B : Type 0} {P : World → Type 0} where
  Keeps-continue :
      (r : Outcome A) (w : World) (f : A → Exec B)
      → P w
      → ((a : A) → Keeps P (f a))
      → P (continue r w f).1
  Keeps-continue (ok a) w f h kf = (kf a).at w h
  Keeps-continue (raised error) w f h kf = h
  Keeps-continue out_of_fuel w f h kf = h

  pub Keeps-bind :
      (m : Exec A) (f : A → Exec B) → Keeps P m → ((a : A) → Keeps P (f a)) → Keeps P (m >>= f)
  unfolding ◌>>=◌
  Keeps-bind m f km kf = record { at = λ w h. Keeps-continue (m w).0 (m w).1 f (km.at w h) kf }

-- The rule for a bind from one world, where the rest may use what the first action returned.
module _ {A B : Type 0} (P : World → Type 0) where
  continue-at :
      (r : Outcome A) (w : World) (f : A → Exec B)
      → P w
      → ((a : A) → r ≡ ok a → P (f a w).1)
      → P (continue r w f).1
  continue-at (ok a) w f h rest = rest a refl
  continue-at (raised error) w f h rest = h
  continue-at out_of_fuel w f h rest = h

  pub bind-at :
      (m : Exec A) (f : A → Exec B) (w : World)
      → P (m w).1
      → ((a : A) → (m w).0 ≡ ok a → P (f a (m w).1).1)
      → P ((m >>= f) w).1
  unfolding ◌>>=◌
  bind-at m f w h rest = continue-at (m w).0 (m w).1 f h rest

-- Whatever `m` returns satisfies `Q`.
pub record Returns {A : Type 0} (m : Exec A) (Q : A → Type 0) : Type 0 where
  pub at : (w : World) (a : A) → (m w).0 ≡ ok a → Q a

module _ {A : Type 0} {Q : A → Type 0} where
  pub Returns-return : (a : A) → Q a → Returns (return a) Q
  unfolding return
  Returns-return a q = record { at = λ w b e. subst Q (ok_injective a b e) q }
    where
      ok_injective : (a b : A) → ok a ≡ ok b → a ≡ b
      ok_injective a b e = cc

module _ {A B : Type 0} {Q : B → Type 0} where
  Returns-continue :
      (r : Outcome A) (w : World) (f : A → Exec B) (b : B)
      → ((a : A) → Returns (f a) Q)
      → (continue r w f).0 ≡ ok b
      → Q b
  Returns-continue (ok a) w f b rf e = (rf a).at w b e
  Returns-continue (raised error) w f b rf e = absurd (cc)
  Returns-continue out_of_fuel w f b rf e = absurd (cc)

  pub Returns-bind :
      (m : Exec A) (f : A → Exec B) → ((a : A) → Returns (f a) Q) → Returns (m >>= f) Q
  unfolding ◌>>=◌
  Returns-bind m f rf = record { at = λ w b e. Returns-continue (m w).0 (m w).1 f b rf e }

pub Returns-seq :
    {B : Type 0} {Q : B → Type 0} (m : Exec Unit) (k : Exec B) → Returns k Q → Returns (m >> k) Q
unfolding ◌>>◌
Returns-seq m k rk = Returns-bind m (λ _. k) (λ _. rk)

pub Keeps-seq :
    {B : Type 0} {P : World → Type 0} (m : Exec Unit) (k : Exec B)
    → Keeps P m
    → Keeps P k
    → Keeps P (m >> k)
unfolding ◌>>◌
Keeps-seq m k km kk = Keeps-bind m (λ _. k) km (λ _. kk)

pub ruleset keeps_rules =
    (Keeps-return, Keeps-raise, Keeps-starve, Keeps-gets, Keeps-if, Keeps-bind, Keeps-seq)
