-- ===== src/Result.antt =====
-- What a function of the core returns or raises. An exception is kept by its class.
use oversight.Prelude.{◌≡◌, ap, ◌∙◌, ◌⊎◌, inl, inr, Bool, true, false, Option, none, some, refl}

pub data Exception : Type 0 where
  value_error : Exception
  type_error : Exception
  key_error : Exception
  attribute_error : Exception
  assertion_error : Exception
  runtime_error : Exception
  os_error : Exception
  file_exists_error : Exception
  crypto_error : Exception
  struct_error : Exception
  policy_violation : Exception

pub data Result (A : Type 0) : Type 0 where
  ok : A → Result A
  raised : Exception → Result A

infixl 5 ◌>>=◌
abbrev pub ◌>>=◌ : {A B : Type 0} → Result A → (A → Result B) → Result B
ok a >>= f = f a
raised e >>= f = raised e

-- `if not b: raise e`
abbrev pub guard : Bool → Exception → Result (Unit {0})
guard true e = ok tt
guard false e = raised e

-- A value that a call has, or its exception.
abbrev pub or_raise : {A : Type 0} → Option A → Exception → Result A
or_raise none e = raised e
or_raise (some a) e = ok a

pub >>=-eq-ok :
    {A B : Type 0} (r : Result A) (f : A → Result B) {b : B}
    → (r >>= f) ≡ ok b
    → (a : A) × (r ≡ ok a) × (f a ≡ ok b)
>>=-eq-ok (ok a) f h = (a, refl, h)
>>=-eq-ok (raised e) f h = absurd (cc)

pub guard-eq-ok : (b : Bool) (e : Exception) {u : Unit {0}} → guard b e ≡ ok u → b ≡ true
guard-eq-ok true e h = refl
guard-eq-ok false e h = absurd (cc)

pub or_raise-eq-ok :
    {A : Type 0} (o : Option A) (e : Exception) {a : A} → or_raise o e ≡ ok a → o ≡ some a
or_raise-eq-ok none e h = absurd (cc)
or_raise-eq-ok (some x) e h = cc

pub ok_inj : {A : Type 0} {a b : A} → ok a ≡ ok b → a ≡ b
ok_inj h = cc

pub Result-cases :
    {A : Type 0} (r : Result A) → ((a : A) × (r ≡ ok a)) ⊎ ((e : Exception) × (r ≡ raised e))
Result-cases (ok a) = inl (a, refl)
Result-cases (raised e) = inr (e, refl)

pub raised-ok : {A : Type 0} {e : Exception} {a : A} {C : Type 0} → raised e ≡ ok a → C
raised-ok h = absurd (cc)

-- A bind whose first part succeeds.
pub >>=-ok :
    {A B : Type 0} (r : Result A) (f : A → Result B) {a : A} {s : Result B}
    → r ≡ ok a
    → f a ≡ s
    → (r >>= f) ≡ s
>>=-ok r f h k = ap (λ r'. r' >>= f) h ∙ k

pub guard-true : (b : Bool) (e : Exception) → b ≡ true → guard b e ≡ ok tt
guard-true b e h = ap (λ b'. guard b' e) h

pub passed-ok :
    {B : Type 0} (check : Result (Unit {0})) {next s : Result B}
    → check ≡ ok tt
    → next ≡ s
    → (check >>= (λ u. next)) ≡ s
passed-ok check {next} h k = ap (λ c. c >>= (λ u. next)) h ∙ k

pub some_inj : {A : Type 0} {a b : A} → some a ≡ some b → a ≡ b
some_inj h = cc
