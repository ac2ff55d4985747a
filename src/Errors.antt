-- ===== src/Errors.antt =====
-- Go error values (internal/policy/errors.go and the errors that the client and the resolver
-- return), as the chains that errors.As walks. A formatted error keeps its format and its arguments.
use openconveyor.Prelude.{
  Bool, true, false, ◌||◌, Option, none, some, Text, List, ◌≡◌, refl, ◌⊎◌, inl, inr,
}

pub data Err : Type 0 where
  -- errors.New, and fmt.Errorf with no %w
  new : (format : Text) (args : List Text) → Err
  -- fmt.Errorf with a %w
  wrap : (format : Text) (args : List Text) → Err → Err
  -- *PermanentError
  permanent : Err → Err
  -- *net.DNSError and its IsNotFound
  dns : (is_not_found : Bool) (text : Text) → Err
  -- *apierrors.StatusError, and whether its reason is NotFound
  status : (is_not_found : Bool) (text : Text) → Err
  -- errors.Join
  join : Err → Err → Err

-- errors.As(err, &perm) for a *PermanentError
unfoldable pub is_permanent : Err → Bool
is_permanent (new f a) = false
is_permanent (wrap f a e) = is_permanent e
is_permanent (permanent e) = true
is_permanent (dns n t) = false
is_permanent (status n t) = false
is_permanent (join a b) = is_permanent a || is_permanent b

abbrev first_of_two : Option Bool → Option Bool → Option Bool
first_of_two none o = o
first_of_two (some b) o = some b

-- errors.As(err, &dnsErr): the first *net.DNSError of the chain, by its IsNotFound
as_dns : Err → Option Bool
as_dns (new f a) = none
as_dns (wrap f a e) = as_dns e
as_dns (permanent e) = as_dns e
as_dns (dns n t) = some n
as_dns (status n t) = none
as_dns (join a b) = first_of_two (as_dns a) (as_dns b)

-- errors.As(err, &dnsErr) && dnsErr.IsNotFound
unfoldable pub is_no_such_host : Err → Bool
unfolding as_dns
is_no_such_host e = elim (as_dns e) [ none ↦ false | some n ↦ n ]

as_status : Err → Option Bool
as_status (new f a) = none
as_status (wrap f a e) = as_status e
as_status (permanent e) = as_status e
as_status (dns n t) = none
as_status (status n t) = some n
as_status (join a b) = first_of_two (as_status a) (as_status b)

-- apierrors.IsNotFound
unfoldable pub is_not_found : Err → Bool
unfolding as_status
is_not_found e = elim (as_status e) [ none ↦ false | some n ↦ n ]

pub data Result {ℓ} (A : Type ℓ) : Type ℓ where
  err : Err → Result A
  ok : A → Result A

infixl 5 ◌>>=◌
abbrev pub ◌>>=◌ {ℓ κ} : {A : Type ℓ} {B : Type κ} → Result A → (A → Result B) → Result B
err e >>= next = err e
ok value >>= next = next value

abbrev pub is_ok {ℓ} : {A : Type ℓ} → Result A → Bool
is_ok (ok a) = true
is_ok (err e) = false

-- Inversion of a successful bind.
pub >>=-eq-ok {ℓ κ} :
    {A : Type ℓ} {B : Type κ} (first : Result A) (next : A → Result B) {result : B}
    → (first >>= next) ≡ ok result
    → (value : A) × (first ≡ ok value) × (next value ≡ ok result)
>>=-eq-ok (err e) next made = cc
>>=-eq-ok (ok value) next made = (value, refl, made)

-- A failed bind fails in its first part or in its second.
pub >>=-eq-err {ℓ κ} :
    {A : Type ℓ} {B : Type κ} (m : Result A) (f : A → Result B) {e : Err}
    → (m >>= f) ≡ err e
    → (m ≡ err e) ⊎ ((a : A) × (m ≡ ok a) × (f a ≡ err e))
>>=-eq-err (ok a) f h = inr (a, refl, h)
>>=-eq-err (err e) f h = inl (cc h)

pub bind_same {ℓ κ} :
    {A : Type ℓ} {B : Type κ} (m : Result A) (f g : A → Result B)
    → ((a : A) → f a ≡ g a)
    → (m >>= f) ≡ (m >>= g)
bind_same (ok a) f g h = h a
bind_same (err e) f g h = refl

-- A bind fails where its first part fails, and where its second part always fails.
pub is_ok-bind_first {ℓ κ} :
    {A : Type ℓ} {B : Type κ} (m : Result A) (f : A → Result B)
    → is_ok m ≡ false
    → is_ok (m >>= f) ≡ false
is_ok-bind_first (ok a) f h = cc
is_ok-bind_first (err e) f h = refl

pub is_ok-bind_rest {ℓ κ} :
    {A : Type ℓ} {B : Type κ} (m : Result A) (f : A → Result B)
    → ((a : A) → is_ok (f a) ≡ false)
    → is_ok (m >>= f) ≡ false
is_ok-bind_rest (ok a) f h = h a
is_ok-bind_rest (err e) f h = refl

pub ok-injective {ℓ} : {A : Type ℓ} (a b : A) → ok a ≡ ok b → a ≡ b
ok-injective a b h = cc

pub Result-cases {ℓ} :
    {A : Type ℓ} (r : Result A) → ((a : A) × (r ≡ ok a)) ⊎ ((e : Err) × (r ≡ err e))
Result-cases (ok a) = inl (a, refl)
Result-cases (err e) = inr (e, refl)
