-- ===== src/Irc/Effects/Failures.antt =====
-- Which failures a run can end with: the rules for binding, loops and the `try` block.
use boost_irc.Base.{◌≡◌, refl, Bool, true, false, List, [], ◌∷◌, if◌then◌else◌}
use boost_irc.Irc.Effects.{
  Failure, invalid_argument, out_of_range, undefined, out_of_fuel, Event, Run, done, failed, after,
  ◌>>=◌, catch_invalid, for_each,
}

-- If the run fails, it fails by one of `p`.
pub data FailsBy {A : Type 0} (p : Failure → Bool) : Run A → Type 0 where
  returns : {a : A} {es : List Event} → FailsBy p (done a es)
  fails : {x : Failure} {es : List Event} → p x ≡ true → FailsBy p (failed x es)

-- An exception of `stoi`, or a read out of bounds.
abbrev pub thrown : Failure → Bool
thrown out_of_fuel = false
thrown _ = true

-- The same without std::invalid_argument.
abbrev pub escaping : Failure → Bool
escaping out_of_range = true
escaping undefined = true
escaping _ = false

module _ {A : Type 0} (p : Failure → Bool) where
  pub FailsBy-after : (es : List Event) (m : Run A) → FailsBy p m → FailsBy p (after es m)
  FailsBy-after es (done a fs) h = returns
  FailsBy-after es (failed x fs) (fails h) = fails h

  pub FailsBy-bind :
      {B : Type 0} (m : Run B) (f : B → Run A)
      → FailsBy p m
      → ((b : B) → FailsBy p (f b))
      → FailsBy p (m >>= f)
  FailsBy-bind (done b es) f hm hf = FailsBy-after es (f b) (hf b)
  FailsBy-bind (failed x es) f (fails h) hf = fails h

pub FailsBy-if :
    {A : Type 0} (p : Failure → Bool) (b : Bool) (m n : Run A)
    → FailsBy p m
    → FailsBy p n
    → FailsBy p (if b then m else n)
FailsBy-if p true m n hm hn = hm
FailsBy-if p false m n hm hn = hn

pub FailsBy-for_each :
    {A : Type 0} (p : Failure → Bool) (f : A → Run (Unit {0})) (xs : List A)
    → ((x : A) → FailsBy p (f x))
    → FailsBy p (for_each f xs)
FailsBy-for_each p f [] h = returns
FailsBy-for_each p f (x ∷ xs) h = FailsBy-bind p (f x) _ (h x) (λ _. FailsBy-for_each p f xs h)

pub FailsBy-catch :
    {A : Type 0} (m h : Run A)
    → FailsBy thrown m
    → FailsBy escaping h
    → FailsBy escaping (catch_invalid m h)
FailsBy-catch (done a es) h hm hh = returns
FailsBy-catch (failed invalid_argument es) h hm hh = FailsBy-after escaping es h hh
FailsBy-catch (failed out_of_range es) h hm hh = fails refl
FailsBy-catch (failed undefined es) h hm hh = fails refl
FailsBy-catch (failed out_of_fuel es) h (fails e) hh = cc

pub thrown-escaping : {A : Type 0} (m : Run A) → FailsBy escaping m → FailsBy thrown m
thrown-escaping (done a es) h = returns
thrown-escaping (failed invalid_argument es) h = fails refl
thrown-escaping (failed out_of_range es) h = fails refl
thrown-escaping (failed undefined es) h = fails refl
thrown-escaping (failed out_of_fuel es) (fails e) = fails e
