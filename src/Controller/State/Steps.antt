-- ===== src/Controller/State/Steps.antt =====
-- How a method built from others runs.
use application_controller.Common.{
  Bool, true, false, if◌then◌else◌, if_true, if_false, String, List, ◌∷◌, ◌≡◌, refl, ap, arith,
}
use application_controller.Errors.{Error, Result, ok, err}
use application_controller.Controller.State.{
  Call, event, State, M, fail, continue, ◌>>=◌, call, eventf, attempt,
}

module _ {F : Type 0} where
  -- The state after one more call.
  abbrev pub then_call : Call → State F → State F
  then_call c s = record s { history = c ∷ s.history }

module _ {F : Type 0} {A : Type 0} (b : Bool) (m n : M F A) (s : State F) where
  pub if-true : b ≡ true → (if b then m else n) s ≡ m s
  if-true h = ap (λ (x : M F A). x s) (if_true b m n h)

  pub if-false : b ≡ false → (if b then m else n) s ≡ n s
  if-false h = ap (λ (x : M F A). x s) (if_false b m n h)

module _ {F : Type 0} {A B : Type 0} where
  pub bind-ok :
      (m : M F A) (f : A → M F B) (s t : State F) (a : A) → m s ≡ (ok a, t) → (m >>= f) s ≡ f a t
  unfolding ◌>>=◌
  bind-ok m f s t a e = ap (λ (p : Result A × State F). continue p.0 f p.1) e

  pub bind-err :
      (m : M F A) (f : A → M F B) (s t : State F) (e : Error)
      → m s ≡ (err e, t)
      → (m >>= f) s ≡ (err e, t)
  unfolding ◌>>=◌
  bind-err m f s t e h = ap (λ (p : Result A × State F). continue p.0 f p.1) h

  pub bind-attempt :
      (m : M F A) (f : Result A → M F B) (s : State F) → (attempt m >>= f) s ≡ f (m s).0 (m s).1
  unfolding ◌>>=◌ attempt
  bind-attempt m f s = refl

  pub bind-call :
      (c : Call) (answer : List Call → Result A) (f : A → M F B) (s : State F) (a : A)
      → answer s.history ≡ ok a
      → (call c answer >>= f) s ≡ f a (then_call c s)
  unfolding call
  bind-call c answer f s a h =
      bind-ok (call c answer) f s (then_call c s) a (ap (λ r. (r, then_call c s)) h)

  continue-ok_inversion :
      (r : Result A) (f : A → M F B) (t : State F) (b : B)
      → (continue r f t).0 ≡ ok b
      → (a : A) × (r ≡ ok a) × ((f a t).0 ≡ ok b) × (continue r f t ≡ f a t)
  unfolding continue
  continue-ok_inversion (ok a) f t b h = (a, refl, h, refl)
  continue-ok_inversion (err e) f t b h = ground arith

  -- A sequence succeeds only if both parts do.
  pub bind_ok_inversion :
      (m : M F A) (f : A → M F B) (s : State F) (b : B)
      → ((m >>= f) s).0 ≡ ok b
      → (a : A) × ((m s).0 ≡ ok a) × ((f a (m s).1).0 ≡ ok b) × ((m >>= f) s ≡ f a (m s).1)
  unfolding ◌>>=◌
  bind_ok_inversion m f s b h = continue-ok_inversion (m s).0 f (m s).1 b h

  -- A sequence that ends in an error does not succeed.
  pub fails :
      {C : Type 0} (m : M F A) (e : Error) (s : State F) (b : B)
      → ((m >>= λ _. fail e) s).0 ≡ ok b
      → C
  unfolding fail
  fails m e s b h =
      let (a, _, failed, _) = bind_ok_inversion m (λ _. fail e) s b h in ground (arith, failed)

module _ {F : Type 0} {B : Type 0} where
  pub bind-eventf :
      (type reason : String) (f : Unit {0} → M F B) (s : State F)
      → (eventf type reason >>= f) s ≡ f tt (then_call (event type reason) s)
  unfolding eventf ◌>>=◌ continue
  bind-eventf type reason f s = refl
