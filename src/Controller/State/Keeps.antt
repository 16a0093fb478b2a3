-- ===== src/Controller/State/Keeps.antt =====
-- Methods that keep an invariant of the image finder's state, and of which every call has a property:
-- one rule for each way to build a method.
use application_controller.Common.{String, Bool, true, false, List, All, ◌≡◌, refl, if◌then◌else◌}
use application_controller.Errors.{Error, Result, ok, err}
use application_controller.Api.{ImageSpec}
use application_controller.Images.ImageRef.{ImageRef}
use application_controller.Controller.State.{
  Call, event, State, ImageFinder, M, pure, fail, lift, continue, ◌>>=◌, call, eventf, attempt,
  find_image,
}

module _ {F : Type 0} (H : F → Type 0) (Q : Call → Type 0) where
  -- The finder's state satisfies the invariant, and the calls so far have the property.
  abbrev pub Holds : State F → Type 0
  Holds s = H s.finder × All Q s.history

  -- Whether `m` succeeds or fails, the invariant is kept, and the calls that it makes have the
  -- property.
  pub record Keeps {A : Type 0} (m : M F A) : Type 0 where
    pub at : (s : State F) → Holds s → Holds (m s).1

  -- Besides, what it returns is as described.
  pub record Gives {A : Type 0} (R : A → Type 0) (m : M F A) : Type 0 where
    pub at : (s : State F) → Holds s → Holds (m s).1 × ((a : A) → (m s).0 ≡ ok a → R a)

  -- The finder keeps the invariant, and its images are as described.
  abbrev pub IsHonest : (ImageSpec → ImageRef → Type 0) → ImageFinder F → Type 0
  IsHonest Answers finder =
      (spec : ImageSpec) (f : F)
      → H f
      → H (finder spec f).1 × ((ref : ImageRef) → (finder spec f).0 ≡ ok ref → Answers spec ref)

module _ {F : Type 0} {H : F → Type 0} {Q : Call → Type 0} {A : Type 0} where
  pub Keeps-pure : (a : A) → Keeps H Q (pure a)
  unfolding pure
  Keeps-pure a = record { at = λ s h. h }

  pub Keeps-fail : (e : Error) → Keeps H Q (fail {A = A} e)
  unfolding fail
  Keeps-fail e = record { at = λ s h. h }

  pub Keeps-lift : (r : Result A) → Keeps H Q (lift r)
  unfolding lift
  Keeps-lift r = record { at = λ s h. h }

  pub Keeps-call : (c : Call) (answer : List Call → Result A) → Q c → Keeps H Q (call c answer)
  unfolding call
  Keeps-call c answer q = record { at = λ s h. (h.0, (q, h.1)) }

  pub Keeps-attempt : (m : M F A) → Keeps H Q m → Keeps H Q (attempt m)
  unfolding attempt
  Keeps-attempt m k = record { at = k.at }

  pub Keeps-if :
      (b : Bool) (m n : M F A)
      → (b ≡ true → Keeps H Q m)
      → (b ≡ false → Keeps H Q n)
      → Keeps H Q (if b then m else n)
  Keeps-if true m n km kn = km refl
  Keeps-if false m n km kn = kn refl

  pub Keeps-Gives : (R : A → Type 0) (m : M F A) → ((a : A) → R a) → Keeps H Q m → Gives H Q R m
  Keeps-Gives R m any k = record { at = λ s h. (k.at s h, λ a _. any a) }

module _ {F : Type 0} {H : F → Type 0} {Q : Call → Type 0} where
  pub Keeps-eventf : (type reason : String) → Q (event type reason) → Keeps H Q (eventf type reason)
  unfolding eventf
  Keeps-eventf type reason q = record { at = λ s h. (h.0, (q, h.1)) }

module _ {F : Type 0} {H : F → Type 0} {Q : Call → Type 0} {A B : Type 0} where
  continue-Keeps :
      (r : Result A) (f : A → M F B)
      → ((a : A) → r ≡ ok a → Keeps H Q (f a))
      → (s : State F) → Holds H Q s
      → Holds H Q (continue r f s).1
  unfolding continue
  continue-Keeps (ok a) f kf s h = (kf a refl).at s h
  continue-Keeps (err e) f kf s h = h

  pub Keeps-bind :
      (m : M F A) (f : A → M F B) → Keeps H Q m → ((a : A) → Keeps H Q (f a)) → Keeps H Q (m >>= f)
  unfolding ◌>>=◌
  Keeps-bind m f km kf = record {
    at = λ s h. continue-Keeps (m s).0 f (λ a _. kf a) (m s).1 (km.at s h);
  }

  -- The rest may use what is said of the result.
  pub Gives-bind :
      (R : A → Type 0) (m : M F A) (f : A → M F B)
      → Gives H Q R m
      → ((a : A) → R a → Keeps H Q (f a))
      → Keeps H Q (m >>= f)
  unfolding ◌>>=◌
  Gives-bind R m f gm kf = record {
    at = λ s h.
        let (after, described) = gm.at s h in
        continue-Keeps (m s).0 f (λ a e. kf a (described a e)) (m s).1 after;
  }

  -- The rest may use that the value did not fail.
  pub Keeps-bind_lift :
      (r : Result A) (f : A → M F B)
      → ((a : A) → r ≡ ok a → Keeps H Q (f a))
      → Keeps H Q (lift r >>= f)
  unfolding ◌>>=◌
  Keeps-bind_lift r f kf = record { at = λ s h. continue-Keeps r f kf s h }

module _ {F : Type 0} {H : F → Type 0} {Q : Call → Type 0} {A : Type 0} where
  -- An image is looked up, and the error or what is made of the image is handed on.
  pub Gives-find_image :
      (Answers : ImageSpec → ImageRef → Type 0) (finder : ImageFinder F) (spec : ImageSpec)
      (R : A → Type 0) (f : Result ImageRef → M F A)
      → IsHonest H Q Answers finder
      → ((ref : ImageRef) → Answers spec ref → Gives H Q R (f (ok ref)))
      → ((e : Error) → Gives H Q R (f (err e)))
      → Gives H Q R (attempt (find_image finder spec) >>= f)
  unfolding ◌>>=◌ attempt find_image continue
  Gives-find_image Answers finder spec R f honest found failed = record {
    at = λ s (held, calls).
        let (kept, answers) = honest spec s.finder held in
        let s' = record s { finder = (finder spec s.finder).1 } in
        answered (finder spec s.finder).0 answers s' (kept, calls);
  }
    where
      answered :
          (r : Result ImageRef)
          → ((ref : ImageRef) → r ≡ ok ref → Answers spec ref)
          → (s : State F) → Holds H Q s
          → Holds H Q (f r s).1 × ((a : A) → (f r s).0 ≡ ok a → R a)
      answered (ok ref) answers s h = (found ref (answers ref refl)).at s h
      answered (err e) answers s h = (failed e).at s h

pub ruleset keeps_rules = (
  Keeps-pure, Keeps-fail, Keeps-lift, Keeps-call, Keeps-attempt, Keeps-if, Keeps-eventf, Keeps-bind,
)
