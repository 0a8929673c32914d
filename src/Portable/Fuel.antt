-- ===== src/Portable/Fuel.antt =====
-- portable_stream.py: the fuel and the characters that the basic programs use.
use ah_there_it_is.Base.{
  ℕ, zero, suc, ◌+◌, ◌-◌, ◌≡◌, refl, sym, subst, ◌≤◌, ◌<◌, Bool, true, false, ◌&&◌, not, Option,
  none, some, [], ◌∷◌, length, arith, reverse, ◌==◌, if◌then◌else◌,
}
use ah_there_it_is.Text.{Text}
use ah_there_it_is.Portable.Programs.{
  Program, returns, fails, exhausted, peeks, takes, appends, ◌>>=◌, Ended, read, refused,
  undecodable, out_of_fuel, Workspace, append, run, Detail,
}
use ah_there_it_is.Portable.Bytes.{WholeText, whole, first_of}
use ah_there_it_is.Portable.Parser.{
  quote, backslash, comma, is_blank_code, ends_scalar, whitespace, expect, quoted, token, delimited,
}

-- the fuel lasted, and so many characters of the text were taken
unfoldable pub Ends : {A : Type 0} → Text → ℕ → Ended A WholeText → Type 0
Ends t k (read a s w) = length s.0 + k ≤ length t
Ends t k (refused detail n) = Unit
Ends t k undecodable = Unit
Ends t k out_of_fuel = true ≡ false

-- on shorter texts than the bound, a program takes at least so many characters, or fails
unfoldable pub Uses : {A : Type 0} → ℕ → ℕ → Program A → Type 0
Uses b k p = (t : Text) (o : ℕ) (w : Workspace) → length t < b → Ends t k (run whole p (t, o) w)

then_run : {A B : Type 0} → (A → Program B) → Ended A WholeText → Ended B WholeText
then_run f (read a s w) = run whole (f a) s w
then_run f (refused detail n) = refused detail n
then_run f undecodable = undecodable
then_run f out_of_fuel = out_of_fuel

run-bind :
    {A B : Type 0} (p : Program A) (f : A → Program B) (t : Text) (o : ℕ) (w : Workspace)
    → run whole (p >>= f) (t, o) w ≡ then_run f (run whole p (t, o) w)
unfolding run then_run ◌>>=◌
run-bind (returns a) f t o w = refl
run-bind (fails detail) f t o w = refl
run-bind exhausted f t o w = refl
run-bind (peeks k) f t o w = run-bind (k (first_of t)) f t o w
run-bind (takes k) f [] o w = run-bind (k none) f [] o w
run-bind (takes k) f (c ∷ t) o w = run-bind (k (some c)) f t (suc o) w
run-bind (appends section v p) f t o w = run-bind p f t o (append section v w)

-- of a longer text, at least as much was taken
pub Ends-longer :
    {A : Type 0} (t u : Text) (k : ℕ) (e : Ended A WholeText)
    → length u ≤ length t
    → Ends u k e
    → Ends t k e
unfolding Ends
Ends-longer t u k (read a s w) h l = omega (arith, h, l)
Ends-longer t u k (refused detail n) h l = tt
Ends-longer t u k undecodable h l = tt
Ends-longer t u k out_of_fuel h l = l

pub Ends-fewer :
    {A : Type 0} (t : Text) (k k' : ℕ) (e : Ended A WholeText) → k' ≤ k → Ends t k e → Ends t k' e
unfolding Ends
Ends-fewer t k k' (read a s w) h l = omega (arith, h, l)
Ends-fewer t k k' (refused detail n) h l = tt
Ends-fewer t k k' undecodable h l = tt
Ends-fewer t k k' out_of_fuel h l = l

Ends-then :
    {A B : Type 0} (t : Text) (b c k j : ℕ) (f : A → Program B) (e : Ended A WholeText)
    → Ends t k e
    → ((a : A) → Uses c j (f a))
    → length t < b
    → b ≤ c + k
    → Ends t j (then_run f e)
unfolding Ends then_run Uses
Ends-then t b c k j f (read a s w) h u l m =
    Ends-longer t s.0 j (run whole (f a) s w) (omega (arith, h))
      (u a s.0 s.1 w (omega (arith, h, l, m)))
Ends-then t b c k j f (refused detail n) h u l m = tt
Ends-then t b c k j f undecodable h u l m = tt
Ends-then t b c k j f out_of_fuel h u l m = ground (arith, h)

pub bind-Uses :
    {A B : Type 0} (b c k j : ℕ) (p : Program A) (f : A → Program B)
    → b ≤ c + k
    → Uses b k p
    → ((a : A) → Uses c j (f a))
    → Uses b j (p >>= f)
unfolding Uses
bind-Uses b c k j p f m h u t o w l =
    subst (Ends t j) (sym (run-bind p f t o w))
      (Ends-then t b c k j f (run whole p (t, o) w) (h t o w l) u l m)

one_more : {A : Type 0} (c : ℕ) (t : Text) (e : Ended A WholeText) → Ends t 0 e → Ends (c ∷ t) 1 e
unfolding Ends
one_more c t (read a s w) h = omega (arith, h)
one_more c t (refused detail n) h = tt
one_more c t undecodable h = tt
one_more c t out_of_fuel h = h

pub if_Uses :
    {A : Type 0} (b k : ℕ) (c : Bool) (p q : Program A)
    → Uses b k p
    → Uses b k q
    → Uses b k (if c then p else q)
if_Uses b k true p q h l = h
if_Uses b k false p q h l = l

pub returns-Uses : {A : Type 0} (b : ℕ) (a : A) → Uses b 0 (returns a)
unfolding Uses Ends run
returns-Uses b a t o w l = omega arith

pub fails-Uses : (A : Type 0) (b k : ℕ) (detail : Detail) → Uses {A = A} b k (fails detail)
unfolding Uses Ends run
fails-Uses A b k detail t o w l = tt

-- a look ahead
pub peeks-Uses :
    {A : Type 0} (b k : ℕ) (f : Option ℕ → Program A)
    → ((c : Option ℕ) → Uses b k (f c))
    → Uses b k (peeks f)
unfolding Uses run
peeks-Uses b k f h t o w l = h (first_of t) t o w l

-- a character that is taken, or fails at the end
pub takes-Uses :
    {A : Type 0} (b : ℕ) (f : Option ℕ → Program A)
    → Uses b 1 (f none)
    → ((c : ℕ) → Uses (b - 1) 0 (f (some c)))
    → Uses b 1 (takes f)
unfolding Uses run
takes-Uses b f h k [] o w l = h [] o w l
takes-Uses b f h k (c ∷ t) o w l =
    one_more c t (run whole (f (some c)) (t, suc o) w) (k c t (suc o) w (omega (arith, l)))

pub expect-Uses : (b c : ℕ) → Uses b 1 (expect c)
unfolding expect
expect-Uses b c = takes-Uses b _ (fails-Uses _ b 1 Detail.expected) (λ d.
    if_Uses (b - 1) 0 (d == c) _ _ (returns-Uses (b - 1) tt)
      (fails-Uses _ (b - 1) 0 Detail.expected))

pub delimited-Uses :
    {A : Type 0} (b close : ℕ) (detail : Detail) (done more : Program A)
    → Uses (b - 1) 0 done
    → Uses (b - 1) 0 more
    → Uses b 1 (delimited close detail done more)
delimited-Uses b close detail done more h k = takes-Uses b _ (fails-Uses _ b 1 detail) (λ d.
    if_Uses (b - 1) 0 (d == close) done _ h
      (if_Uses (b - 1) 0 (d == comma) more _ k (fails-Uses _ (b - 1) 0 detail)))

unless_Ends :
    {A : Type 0} (c : ℕ) (t : Text) (o : ℕ) (w : Workspace) (b : Bool) (f : Option ℕ → Program A)
    (q : Program A)
    → Ends t 0 (run whole (f (some c)) (t, suc o) w)
    → Ends (c ∷ t) 0 (run whole q (c ∷ t, o) w)
    → Ends (c ∷ t) 0 (run whole (if b then q else takes f) (c ∷ t, o) w)
unfolding run
unless_Ends c t o w true f q h k = k
unless_Ends c t o w false f q h k =
    Ends-longer (c ∷ t) t 0 (run whole (f (some c)) (t, suc o) w) (omega arith) h

-- after a look ahead at a character: it is taken, or the program goes on before it
pub if_Ends :
    {A : Type 0} (c : ℕ) (t : Text) (o : ℕ) (w : Workspace) (b : Bool) (f : Option ℕ → Program A)
    (q : Program A)
    → Ends t 0 (run whole (f (some c)) (t, suc o) w)
    → Ends (c ∷ t) 0 (run whole q (c ∷ t, o) w)
    → Ends (c ∷ t) 0 (run whole (if b then takes f else q) (c ∷ t, o) w)
unfolding run
if_Ends c t o w true f q h k =
    Ends-longer (c ∷ t) t 0 (run whole (f (some c)) (t, suc o) w) (omega arith) h
if_Ends c t o w false f q h k = k

pub whitespace-Uses : (n : ℕ) → Uses n 0 (whitespace n)
unfolding Uses whitespace run Ends
whitespace-Uses zero t o w l = ground (arith, l)
whitespace-Uses (suc n) [] o w l = omega arith
whitespace-Uses (suc n) (c ∷ t) o w l =
    if_Ends c t o w (is_blank_code c) _ _ (whitespace-Uses n t (suc o) w (omega (arith, l)))
      (omega arith)

pub quoted-Uses : (n : ℕ) (escaped : Bool) (raw : Text) → Uses n 0 (quoted n escaped raw)
unfolding Uses quoted run Ends
quoted-Uses zero escaped raw t o w l = ground (arith, l)
quoted-Uses (suc n) escaped raw [] o w l = tt
quoted-Uses (suc n) escaped raw (c ∷ t) o w l = Ends-longer (c ∷ t) t 0 _ (omega arith) (
    if_Uses n 0 (c == quote && not escaped) _ _ (returns-Uses n (reverse (c ∷ raw)))
      (quoted-Uses n (c == backslash && not escaped) (c ∷ raw)) t (suc o) w (omega (arith, l)))

pub token-Uses : (n : ℕ) (raw : Text) → Uses n 0 (token n raw)
unfolding Uses token run Ends
token-Uses zero raw t o w l = ground (arith, l)
token-Uses (suc n) raw [] o w l = omega arith
token-Uses (suc n) raw (c ∷ t) o w l =
    unless_Ends c t o w (ends_scalar c) _ _ (token-Uses n (c ∷ raw) t (suc o) w (omega (arith, l)))
      (omega arith)
