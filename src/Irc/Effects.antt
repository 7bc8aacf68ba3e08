-- ===== src/Irc/Effects.antt =====
-- What the code of a client does to the outside, in order, and how a call of it ends: the events
-- so far, and a value or the reason that the call did not return.
pub mod Failures
use boost_irc.Base.{ℕ, ◌≡◌, refl, List, [], ◌∷◌, ◌++◌, Bytes, append_assoc, sym, ap, ◌∙◌}

-- `undefined` is an element read out of the bounds of a vector.
pub data Failure : Type 0 where
  invalid_argument out_of_range undefined out_of_fuel : Failure

pub data Event : Type 0 where
  -- boost::asio::async_write on the IRC socket
  write : Bytes → Event
  -- boost::asio::async_read_until on the IRC socket
  start_read : Event
  -- s->close()
  close_socket : Event
  -- std::cout
  print : Bytes → Event
  -- m_websocket->send on the client's connection
  ws_send : Bytes → Event
  -- json_client::create(server, path, …)
  fetch : Bytes → Bytes → Event

pub data Run (A : Type 0) : Type 0 where
  done : A → List Event → Run A
  failed : Failure → List Event → Run A

abbrev pub after : {A : Type 0} → List Event → Run A → Run A
after es (done a fs) = done a (es ++ fs)
after es (failed x fs) = failed x (es ++ fs)

infixl 5 ◌>>=◌ ◌>>◌
abbrev pub ◌>>=◌ : {A B : Type 0} → Run A → (A → Run B) → Run B
done a es >>= f = after es (f a)
failed x es >>= f = failed x es

abbrev pub ◌>>◌ : {B : Type 0} → Run (Unit {0}) → Run B → Run B
m >> k = m >>= λ _. k

abbrev pub return : {A : Type 0} → A → Run A
return a = done a []

abbrev pub emit : Event → Run (Unit {0})
emit e = done tt (e ∷ [])

abbrev pub raise : {A : Type 0} → Failure → Run A
raise x = failed x []

-- `try { m } catch(std::invalid_argument) { h }`
abbrev pub catch_invalid : {A : Type 0} → Run A → Run A → Run A
catch_invalid (done a es) h = done a es
catch_invalid (failed invalid_argument es) h = after es h
catch_invalid (failed x es) h = failed x es

abbrev pub events : {A : Type 0} → Run A → List Event
events (done a es) = es
events (failed x es) = es

-- `for(auto& x: xs) f(x);`
abbrev pub for_each : {A : Type 0} → (A → Run (Unit {0})) → List A → Run (Unit {0})
for_each f [] = return tt
for_each f (x ∷ xs) = f x >> for_each f xs

pub after-after :
    {A : Type 0} (es fs : List Event) (m : Run A) → after es (after fs m) ≡ after (es ++ fs) m
after-after es fs (done a gs) = ap (done a) (sym (append_assoc es fs gs))
after-after es fs (failed x gs) = ap (failed x) (sym (append_assoc es fs gs))

pub after-nil : {A : Type 0} (m : Run A) → after [] m ≡ m
after-nil (done a es) = refl
after-nil (failed x es) = refl

pub after-bind :
    {A B : Type 0} (es : List Event) (m : Run A) (f : A → Run B)
    → after es m >>= f ≡ after es (m >>= f)
after-bind es (done a fs) f = sym (after-after es fs (f a))
after-bind es (failed x fs) f = refl

pub bind_assoc :
    {A B C : Type 0} (m : Run A) (f : A → Run B) (g : B → Run C)
    → (m >>= f) >>= g ≡ m >>= (λ a. f a >>= g)
bind_assoc (done a es) f g = after-bind es (f a) g
bind_assoc (failed x es) f g = refl

pub for_each-append :
    {A : Type 0} (f : A → Run (Unit {0})) (xs ys : List A)
    → for_each f (xs ++ ys) ≡ (for_each f xs >> for_each f ys)
for_each-append f [] ys = sym (after-nil (for_each f ys))
for_each-append f (x ∷ xs) ys =
    ap (λ m. f x >> m) (for_each-append f xs ys)
    ∙ sym (bind_assoc (f x) (λ _. for_each f xs) (λ _. for_each f ys))
