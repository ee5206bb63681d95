-- ===== src/Validation/Email.antt =====
-- What `validate_email` accepts, said without its search for the `@`.
use rust_invite_system.Common.{
  ℕ, ◌+◌, ◌≡◌, refl, ap, ◌↔◌, inl, inr, true, false, Option, none, some, Result, [], ◌∷◌, ◌++◌,
  arith, ok, err, Text, any, is_empty, Bool-cases, Option-cases, trim, contains, count_char,
  split_once, starts_with, ends_with, is_whitespace, ◌==◌,
}
use rust_invite_system.Validation.{check_parts, validate_email}
use rust_invite_system.Validation.Messages.{Message, email_invalid}

-- One `@`, with something before it and a domain after it that has a dot inside and none at an end.
pub record IsEmail (address : Text) : Type 0 where
  pub local : Text
  pub domain : Text
  pub joined : address ≡ local ++ b'@' ∷ domain
  pub no_space : any is_whitespace address ≡ false
  pub local_single : contains b'@' local ≡ false
  pub domain_single : contains b'@' domain ≡ false
  pub local_given : is_empty local ≡ false
  pub dotted : contains b'.' domain ≡ true
  pub first : starts_with (λ c. c == b'.') domain ≡ false
  pub last : ends_with (λ c. c == b'.') domain ≡ false

count_char-zero : (x : ℕ) (s : Text) → count_char x s ≡ 0 → contains x s ≡ false
unfolding count_char
count_char-zero x [] h = refl
count_char-zero x (c ∷ s) h = ground (arith, count_char-zero x s)

count_char_absent : (x : ℕ) (s : Text) → contains x s ≡ false → count_char x s ≡ 0
unfolding count_char
count_char_absent x [] h = refl
count_char_absent x (c ∷ s) h = ground (arith, count_char_absent x s)

count_char-split :
    (x : ℕ) (l r : Text) → contains x l ≡ false → count_char x (l ++ x ∷ r) ≡ 1 + count_char x r
unfolding count_char
count_char-split x [] r h = ground arith
count_char-split x (c ∷ l) r h = ground (arith, count_char-split x l r)

split_once-append :
    (x : ℕ) (l r : Text) → contains x l ≡ false → split_once x (l ++ x ∷ r) ≡ some (l, r)
unfolding split_once
split_once-append x [] r h = ground arith
split_once-append x (c ∷ l) r h = ground (arith, split_once-append x l r)

-- The split is at the first occurrence.
record IsSplit (x : ℕ) (s l r : Text) : Type 0 where
  joined : s ≡ l ++ x ∷ r
  first : contains x l ≡ false

split_once-IsSplit : (x : ℕ) (s l r : Text) → split_once x s ≡ some (l, r) → IsSplit x s l r
unfolding split_once
split_once-IsSplit x [] l r h = cc
split_once-IsSplit x (c ∷ s) l r h = elim (Bool-cases (c == x)) [
  | inl e ↦ ground arith
  | inr n ↦ elim (Option-cases (split_once x s)) [
    | inl e ↦ ground arith
    | inr ((l', r'), e) ↦ let ih = split_once-IsSplit x s l' r' e in ground arith
  ]
]

split_once-none : (x : ℕ) (s : Text) → split_once x s ≡ none → count_char x s ≡ 0
unfolding split_once count_char
split_once-none x [] h = refl
split_once-none x (c ∷ s) h = ground (arith, split_once-none x s)

check_parts_iff :
    (l r : Text)
    → (check_parts (l, r) ≡ ok tt) ↔ (
        (is_empty l ≡ false)
        × (contains b'.' r ≡ true)
        × (starts_with (λ c. c == b'.') r ≡ false)
        × (ends_with (λ c. c == b'.') r ≡ false))
unfolding check_parts
check_parts_iff l [] = (λ h. ground arith, λ h. ground arith)
check_parts_iff l (c ∷ r) = (λ h. ground arith, λ h. ground arith)

-- The four tests of `validate_email`, with the parts that the split gives.
record Accepts (address : Text) : Type 0 where
  no_space : any is_whitespace address ≡ false
  once : count_char b'@' address ≡ 1
  local : Text
  domain : Text
  split : split_once b'@' address ≡ some (local, domain)
  parts : check_parts (local, domain) ≡ ok tt

Accepts-IsEmail : {address : Text} → Accepts address → IsEmail address
Accepts-IsEmail {address} a =
    let s = split_once-IsSplit b'@' address a.local a.domain a.split in
    let p = (check_parts_iff a.local a.domain).0 a.parts in
    let n = count_char-split b'@' a.local a.domain s.first in
    let c : count_char b'@' a.domain ≡ 0 =
      omega (arith, n, a.once, ap (count_char b'@') s.joined) in
    record {
      local = a.local;
      domain = a.domain;
      joined = s.joined;
      no_space = a.no_space;
      local_single = s.first;
      domain_single = count_char-zero b'@' a.domain c;
      local_given = p.0;
      dotted = p.1;
      first = p.2;
      last = p.3;
    }

IsEmail-Accepts : {address : Text} → IsEmail address → Accepts address
IsEmail-Accepts {address} e = record {
  no_space = e.no_space;
  once = rw e.joined (
      omega (
        arith,
        count_char-split b'@' e.local e.domain e.local_single,
        count_char_absent b'@' e.domain e.domain_single,
      ));
  local = e.local;
  domain = e.domain;
  split = rw e.joined (split_once-append b'@' e.local e.domain e.local_single);
  parts = (check_parts_iff e.local e.domain).1 (e.local_given, e.dotted, e.first, e.last);
}

-- The address is trimmed before the tests.
accepted_split :
    (t : Text) (o : Option (Text × Text))
    → split_once b'@' t ≡ o
    → elim o as (λ _. Result (Unit {0}) Message) [
      | none ↦ err email_invalid
      | some parts ↦ check_parts parts
    ]
      ≡ ok tt
    → (l : Text) × (r : Text) × (split_once b'@' t ≡ some (l, r)) × (check_parts (l, r) ≡ ok tt)
accepted_split t none e h = cc
accepted_split t (some (l, r)) e h = (l, r, e, h)

-- A non-empty text is one that has an element.
Accepts-nonempty : {address : Text} → Accepts address → is_empty address ≡ false
unfolding split_once
Accepts-nonempty {address = []} a = absurd (ground (arith, a.split))
Accepts-nonempty {address = c ∷ s} a = refl

validate_email-Accepts : (email : Text) → validate_email email ≡ ok tt → Accepts (trim email)
unfolding validate_email
validate_email-Accepts email h =
    let t : Text = trim email in
    let (l, r, e, p) = accepted_split t (split_once b'@' t) refl (ground arith) in
    record {
      no_space = ground arith;
      once = ground arith;
      local = l;
      domain = r;
      split = e;
      parts = p;
    }

Accepts-validate_email : (email : Text) → Accepts (trim email) → validate_email email ≡ ok tt
unfolding validate_email
Accepts-validate_email email a =
    rw (a.split, validate_email) (ground (arith, a.parts, Accepts-nonempty a, a.once, a.no_space))

-- An address is accepted exactly when, without the white space around it, it holds no white space
-- and is a non-empty local part, one `@`, and a domain that has a dot and neither begins nor ends
-- with one.
pub validate_email_iff : (email : Text) → (validate_email email ≡ ok tt) ↔ IsEmail (trim email)
validate_email_iff email = (
  λ h. Accepts-IsEmail (validate_email-Accepts email h),
  λ e. Accepts-validate_email email (IsEmail-Accepts e),
)
